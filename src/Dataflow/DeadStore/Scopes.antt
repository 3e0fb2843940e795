-- ===== src/Dataflow/DeadStore/Scopes.antt =====
-- What the rule reads of syntax trees and scopes, and how it resolves identifiers:
-- src/linting/eslint/rules/no-dead-store.ts.
-- A number stands for each node, variable and code path. A reference is known by its identifier: the
-- rule only meets the first reference of a scope with a given identifier. A node carries its
-- ancestors, nearest first, as the chain of its `parent` fields, and `null` ends that chain.
pub mod Laws
use sonar_js.Prelude.{
  ℕ, Bool, true, false, not, ◌&&◌, ◌||◌, Option, none, some, List, [], ◌∷◌, if◌then◌else◌, ◌==◌,
  ltb, has, any, suc, Text, text_eq,
}
use sonar_js.Dataflow.Lva.{Reference}

-- The value of a literal; numbers with a fraction, big integers and regular expressions are
-- `other_value`.
pub data Value : Type 0 where
  text : Text → Value
  natural : ℕ → Value
  boolean : Bool → Value
  null other_value : Value

pub data Expression : Type 0 where
  literal : Value → Expression
  identifier : Text → Expression
  unary_expression : Expression → Expression
  object_expression array_expression : ℕ → Expression
  other_expression : Expression

-- The types of nodes that the rule asks for.
pub data NodeType : Type 0 where
  identifier_node jsx_identifier update_expression assignment_pattern : NodeType
  ts_enum_declaration other_node : NodeType
  assignment_expression : Expression → NodeType
  jsx_attribute : ℕ → NodeType

pub record Node : Type 0 where
  pub id : ℕ
  pub node_type : NodeType

-- the nodes that are the `block` of a scope
pub data Block : Type 0 where
  program ts_module_declaration other_block : Block

pub record Variable : Type 0 where
  pub id : ℕ
  pub name : Text
  pub block : Block
  pub defs : List ℕ

-- The further fields of a reference: its `init` flag, the written expression, and the node of
-- its identifier with that node's ancestors.
pub record Occurrence : Type 0 where
  pub init : Bool
  pub write_expr : Option Expression
  pub node : Node
  pub parents : List Node

pub record Scope : Type 0 where
  pub references : List Reference
  pub variables : List Variable

unfoldable pub find_reference : ℕ → List Reference → Option Reference
find_reference node [] = none
find_reference node (r ∷ rs) =
    let rest = find_reference node rs in if r.identifier == node then some r else rest

unfoldable pub find_declared : ℕ → List Variable → Option Variable
find_declared node [] = none
find_declared node (v ∷ vs) =
    let rest = find_declared node vs in if has v.defs node then some v else rest

-- The reference and the variable of an identifier, either of them possibly missing.
pub record Resolved : Type 0 where
  pub ref : Option Reference
  pub variable : Option ℕ

unfoldable pub resolve_in : Option Reference → Option Variable → Resolved → Resolved
resolve_in (some ref) declared upper = record { ref = some ref; variable = ref.resolved }
resolve_in none (some v) upper = record { ref = none; variable = some v.id }
resolve_in none none upper = upper

-- `resolveReferenceRecursively`; a scope stands before its `upper` scopes
unfoldable pub resolve_reference_recursively : ℕ → List Scope → ℕ → Resolved
unfolding resolve_in find_reference find_declared
resolve_reference_recursively node [] depth = record { ref = none; variable = none }
resolve_reference_recursively node (scope ∷ upper) depth =
    let above = resolve_reference_recursively node upper (suc depth) in
    if ltb 2 depth
    then record { ref = none; variable = none }
    else resolve_in (find_reference node scope.references) (find_declared node scope.variables)
        above

unfoldable pub resolve_reference : ℕ → List Scope → Resolved
resolve_reference node scopes = resolve_reference_recursively node scopes 0

find_named : Text → List Variable → Option Variable
find_named name [] = none
find_named name (v ∷ vs) =
    let rest = find_named name vs in if text_eq v.name name then some v else rest

or_else : Option Variable → Option ℕ → Option ℕ
or_else (some v) other = some v.id
or_else none other = other

find_jsx_variable_in_scope : Text → List Scope → Option ℕ
unfolding find_named or_else
find_jsx_variable_in_scope name [] = none
find_jsx_variable_in_scope name (scope ∷ upper) =
    or_else (find_named name scope.variables) (find_jsx_variable_in_scope name upper)

-- `parent.type === 'JSXAttribute' && parent.name === node`
is_jsx_attribute_name : ℕ → List Node → Bool
is_jsx_attribute_name node [] = false
is_jsx_attribute_name node (parent ∷ _) = elim parent.node_type [
  | jsx_attribute name ↦ name == node
  | _ ↦ false
]

-- `new JSXReference(node, scope)`
unfoldable pub jsx_reference : ℕ → Text → List Scope → Reference
unfolding find_jsx_variable_in_scope
jsx_reference node name scopes = record {
  identifier = node;
  resolved = find_jsx_variable_in_scope name scopes;
  is_read = true;
  is_write = false;
}

unfoldable pub resolve_jsx_reference : ℕ → Text → List Node → List Scope → Resolved
unfolding is_jsx_attribute_name
resolve_jsx_reference node name parents scopes =
    let ref = jsx_reference node name scopes in
    if is_jsx_attribute_name node parents
    then record { ref = none; variable = none }
    else record { ref = some ref; variable = ref.resolved }

unfoldable pub is_enum_constant : List Node → Bool
is_enum_constant ancestors =
    any (λ n. elim n.node_type [ ts_enum_declaration ↦ true | _ ↦ false ]) ancestors
