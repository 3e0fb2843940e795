-- ===== src/Rules/Expressions.antt =====
-- src/linting/eslint/rules/expression-complexity.ts. The stack `statementLevel` is a list that begins
-- with its last entry. The tokens are those that ESLint finds; the wording of the message is left
-- out.
mod Laws
mod Tests
use Prim.Native.String.{String}
use text.Mathlib.Text.{◌==◌ as str_eq}
use sonar_js.Prelude.{
  ℕ, suc, zero, ◌-◌, Bool, true, false, ◌||◌, ◌&&◌, Option, none, some, List, [], ◌∷◌, ◌++◌, length,
  ltb, if◌then◌else◌,
}
use sonar_js.Metrics.Ast.{SourceLocation}
use sonar_js.Linter.Issues.{ℤ, pos, negsuc}
use sonar_js.Rules.Traversal.{Tree, Event, enter, leave, events, run}

-- a node, with the answer of `getOperatorToken`
pub record Node : Type 0 where
  pub id : ℕ
  pub type : String
  pub generator : Bool
  pub operator : SourceLocation

pub record ExpressionComplexity : Type 0 where
  pub nested_level : ℤ
  pub operators : List SourceLocation

pub record Report : Type 0 where
  pub node : ℕ
  pub secondary : List SourceLocation
  pub cost : ℕ

pub record State : Type 0 where
  pub statement_level : List ExpressionComplexity
  pub reports : List Report

pub is_scope_like : Node → Bool
is_scope_like n =
    str_eq n.type "FunctionExpression"
    || (str_eq n.type "FunctionDeclaration" && n.generator)
    || str_eq n.type "ObjectExpression"
    || str_eq n.type "CallExpression"
    || str_eq n.type "JSXElement"

pub is_conditional_like : Node → Bool
is_conditional_like n = str_eq n.type "ConditionalExpression" || str_eq n.type "LogicalExpression"

-- `level++` and `level--`
pub increment : ℤ → ℤ
increment (pos n) = pos (suc n)
increment (negsuc zero) = pos 0
increment (negsuc (suc n)) = negsuc n

pub decrement : ℤ → ℤ
decrement (pos zero) = negsuc 0
decrement (pos (suc n)) = pos n
decrement (negsuc n) = negsuc (suc n)

pub is_zero : ℤ → Bool
is_zero (pos zero) = true
is_zero _ = false

abbrev pub new_expression : ExpressionComplexity
new_expression = record { nested_level = pos 0; operators = [] }

-- `incrementNestedExprLevel` and `addOperator`
pub add_operator : SourceLocation → ExpressionComplexity → ExpressionComplexity
unfolding increment
add_operator operator expr = record {
  nested_level = increment expr.nested_level;
  operators = expr.operators ++ operator ∷ [];
}

-- `decrementNestedExprLevel`
pub decrement_nested : ExpressionComplexity → ExpressionComplexity
unfolding decrement
decrement_nested expr = record expr { nested_level = decrement expr.nested_level }

-- `resetExpressionComplexityOperators` on the first level
pub reset_operators : ExpressionComplexity → ExpressionComplexity
unfolding is_zero
reset_operators expr = if is_zero expr.nested_level then record expr { operators = [] } else expr

pub tail : List ExpressionComplexity → List ExpressionComplexity
tail [] = []
tail (expr ∷ levels) = levels

module _ (max : ℕ) where
  pub report_if_complex : Node → List SourceLocation → List Report
  report_if_complex n operators =
      if ltb max (length operators)
      then record { node = n.id; secondary = operators; cost = length operators - max } ∷ []
      else []

  -- what the handler of a conditional reports when it is left, on the first level
  pub reported_on_exit : Node → ExpressionComplexity → List Report
  unfolding report_if_complex is_zero
  reported_on_exit n expr =
      if is_zero expr.nested_level then report_if_complex n expr.operators else []

  -- a conditional is entered; without an entry on the stack this is a TypeError, `none`
  enter_conditional : Node → List ExpressionComplexity → List Report → Option State
  unfolding add_operator
  enter_conditional n [] reports = none
  enter_conditional n (expr ∷ levels) reports =
      some (record { statement_level = add_operator n.operator expr ∷ levels; reports = reports })

  leave_conditional : Node → List ExpressionComplexity → List Report → Option State
  unfolding decrement_nested reset_operators reported_on_exit
  leave_conditional n [] reports = none
  leave_conditional n (expr ∷ levels) reports =
      let left = decrement_nested expr in
      some (record {
        statement_level = reset_operators left ∷ levels;
        reports = reports ++ reported_on_exit n left;
      })

  -- the handler `*`
  on_enter : Node → State → Option State
  unfolding enter_conditional is_conditional_like is_scope_like
  on_enter n s =
      if is_conditional_like n
      then enter_conditional n s.statement_level s.reports
      else if is_scope_like n
      then some (record s { statement_level = new_expression ∷ s.statement_level })
      else some s

  -- the handler `*:exit`
  on_exit : Node → State → Option State
  unfolding leave_conditional is_conditional_like is_scope_like tail
  on_exit n s =
      if is_conditional_like n
      then leave_conditional n s.statement_level s.reports
      else if is_scope_like n
      then some (record s { statement_level = tail s.statement_level })
      else some s

  on_event : Event Node → State → Option State
  unfolding on_enter on_exit
  on_event (enter parent n) s = on_enter n s
  on_event (leave parent n) s = on_exit n s

  -- `none` once a handler has thrown
  pub handle : Event Node → Option State → Option State
  unfolding on_event
  handle event none = none
  handle event (some s) = on_event event s

  -- the rule on a program; nothing stands above it
  pub check_expressions : Node → Tree Node → Option State
  unfolding handle
  check_expressions above program =
      run handle (events above program)
        (some (record { statement_level = new_expression ∷ []; reports = [] }))
