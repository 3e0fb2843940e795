-- ===== src/Metrics/Counts.antt =====
-- metrics/classes.ts, functions.ts, statements.ts, cyclomatic-complexity.ts, executable-lines.ts.
-- `fuel` bounds the rounds of the traversal; `none` is a traversal that was cut off.
pub mod Laws
use Prim.Native.String.{String}
use mathlib.Core.Option
use sonar_js.Prelude.{ℕ, ◌+◌, Bool, Option, none, some, List, [], ◌∷◌, ◌++◌, if◌then◌else◌, set_add}
use sonar_js.Metrics.Ast.{SourceLocation, Node, type_of, loc_of, includes}
use sonar_js.Metrics.Visitor.{visit, visit_and_count_if}
use sonar_js.Metrics.Tokens.{SourceCode}
use sonar_js.Metrics.Lines.{sort}

abbrev pub class_nodes : List String
class_nodes = "ClassDeclaration" ∷ "ClassExpression" ∷ []

pub count_classes : ℕ → SourceCode → Option ℕ
count_classes fuel source =
    visit_and_count_if source.visitor_keys fuel source.ast (λ n. includes class_nodes (type_of n))

abbrev pub function_nodes : List String
function_nodes = "FunctionDeclaration" ∷ "FunctionExpression" ∷ "ArrowFunctionExpression" ∷ []

pub count_functions : ℕ → SourceCode → Option ℕ
count_functions fuel source =
    visit_and_count_if source.visitor_keys fuel source.ast
      (λ n. includes function_nodes (type_of n))

abbrev pub statement_nodes : List String
statement_nodes =
    "VariableDeclaration" ∷ "EmptyStatement" ∷ "ExpressionStatement" ∷ "IfStatement"
    ∷ "DoWhileStatement" ∷ "WhileStatement" ∷ "ForInStatement" ∷ "ForOfStatement" ∷ "ForStatement"
    ∷ "ContinueStatement" ∷ "BreakStatement" ∷ "ReturnStatement" ∷ "WithStatement"
    ∷ "SwitchStatement" ∷ "ThrowStatement" ∷ "TryStatement" ∷ "DebuggerStatement" ∷ []

pub count_statements : ℕ → SourceCode → Option ℕ
count_statements fuel source =
    visit_and_count_if source.visitor_keys fuel source.ast
      (λ n. includes statement_nodes (type_of n))

abbrev pub loop_nodes : List String
loop_nodes =
    "ForStatement" ∷ "ForInStatement" ∷ "ForOfStatement" ∷ "WhileStatement" ∷ "DoWhileStatement"
    ∷ []

abbrev pub conditional_nodes : List String
conditional_nodes = "IfStatement" ∷ "ConditionalExpression" ∷ "SwitchCase" ∷ []

abbrev pub complexity_nodes : List String
complexity_nodes = conditional_nodes ++ (function_nodes ++ (loop_nodes ++ "LogicalExpression" ∷ []))

-- `computeCyclomaticComplexity`
pub compute_cyclomatic_complexity : ℕ → SourceCode → Option ℕ
compute_cyclomatic_complexity fuel source =
    visit source.visitor_keys
      (λ n complexity. if includes complexity_nodes (type_of n) then complexity + 1 else complexity)
      fuel source.ast 0

abbrev pub executable_nodes : List String
executable_nodes =
    "ExpressionStatement" ∷ "IfStatement" ∷ "LabeledStatement" ∷ "BreakStatement"
    ∷ "ContinueStatement" ∷ "WithStatement" ∷ "SwitchStatement" ∷ "ReturnStatement"
    ∷ "ThrowStatement" ∷ "TryStatement" ∷ "WhileStatement" ∷ "DoWhileStatement" ∷ "ForStatement"
    ∷ "ForInStatement" ∷ "DebuggerStatement" ∷ "VariableDeclaration" ∷ "ForOfStatement" ∷ []

pub add_start : Bool → Option SourceLocation → List ℕ → List ℕ
add_start executable none lines = lines
add_start executable (some loc) lines = if executable then set_add lines loc.start.line else lines

-- the callback of `findExecutableLines`
pub add_executable : Node → List ℕ → List ℕ
unfolding add_start
add_executable n lines = add_start (includes executable_nodes (type_of n)) (loc_of n) lines

pub find_executable_lines : ℕ → SourceCode → Option (List ℕ)
find_executable_lines fuel source =
    Option.map sort (visit source.visitor_keys add_executable fuel source.ast [])
