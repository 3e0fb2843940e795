-- ===== src/Metrics/Ast.antt =====
-- Syntax trees as ESLint hands them over, with what the visitors read of them, and `childrenOf`
-- of src/linting/eslint/linter/visitors/visitor.ts. A property that is absent, null or undefined
-- reads as `absent`; an array may hold nulls, as in `[, a]`.
use Prim.Native.String.{String}
use text.Mathlib.Text.{◌==◌}
use sonar_js.Prelude.{
  ℕ, suc, Option, none, some, List, [], ◌∷◌, ◌++◌, Bool, if◌then◌else◌, false, ◌||◌,
}
use Prim.Native.Nat.{max}

pub record Position : Type 0 where
  pub line : ℕ
  pub column : ℕ

pub record SourceLocation : Type 0 where
  pub start : Position
  pub end : Position

mutual
  pub data Node : Type 0 where
    node : String → Option SourceLocation → Props → Node

  pub data Props : Type 0 where
    no_props : Props
    prop : String → Child → Props → Props
    text_prop : String → String → Props → Props

  pub data Child : Type 0 where
    absent : Child
    single : Node → Child
    array : Nodes → Child

  pub data Nodes : Type 0 where
    no_nodes : Nodes
    item : Node → Nodes → Nodes
    hole : Nodes → Nodes

-- `node.type`
abbrev pub type_of : Node → String
type_of (node type loc props) = type

-- `node.loc`
abbrev pub loc_of : Node → Option SourceLocation
loc_of (node type loc props) = loc

-- `node[key]`
abbrev pub child_at : Props → String → Child
child_at no_props key = absent
child_at (prop name child rest) key = if name == key then child else child_at rest key
child_at (text_prop name value rest) key = if name == key then absent else child_at rest key

abbrev pub text_at : Props → String → Option String
text_at no_props key = none
text_at (prop name child rest) key = if name == key then none else text_at rest key
text_at (text_prop name value rest) key = if name == key then some value else text_at rest key

abbrev pub props_of : Node → Props
props_of (node type loc props) = props

-- The nodes of an array that are not null.
abbrev pub to_list : Nodes → List Node
to_list no_nodes = []
to_list (item n ns) = n ∷ to_list ns
to_list (hole ns) = to_list ns

-- What the loop of `childrenOf` pushes for a child, behind `filter(Boolean)`.
abbrev pub nodes_of : Child → List Node
nodes_of absent = []
nodes_of (single n) = n ∷ []
nodes_of (array ns) = to_list ns

-- the loop of `childrenOf`
unfoldable pub gather_children : Props → List String → List Node
gather_children props [] = []
gather_children props (key ∷ keys) = nodes_of (child_at props key) ++ gather_children props keys

abbrev pub VisitorKeys : Type 0
VisitorKeys = String → Option (List String)

unfoldable pub children_of : VisitorKeys → Node → List Node
unfolding gather_children
children_of visitor_keys n = elim (visitor_keys (type_of n)) [
  | none ↦ []
  | some keys ↦ gather_children (props_of n) keys
]

-- `array.includes(text)`
abbrev pub includes : List String → String → Bool
includes [] t = false
includes (x ∷ xs) t = x == t || includes xs t

unfoldable mutual
  pub height : Node → ℕ
  height (node type loc props) = suc (height_props props)

  pub height_props : Props → ℕ
  height_props no_props = 0
  height_props (prop name child rest) = max (height_child child) (height_props rest)
  height_props (text_prop name value rest) = height_props rest

  pub height_child : Child → ℕ
  height_child absent = 0
  height_child (single n) = height n
  height_child (array ns) = height_nodes ns

  pub height_nodes : Nodes → ℕ
  height_nodes no_nodes = 0
  height_nodes (item n ns) = max (height n) (height_nodes ns)
  height_nodes (hole ns) = height_nodes ns
