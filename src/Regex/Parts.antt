-- ===== src/Regex/Parts.antt =====
-- `RegexPartFinder` of src/linting/eslint/rules/regex-complexity.ts. What `getUniqueWriteUsage` finds
-- is an argument. Parts are the numbers of literals.
mod Laws
mod Tests
use Prim.Native.String.{String}
use sonar_js.Prelude.{ℕ, zero, suc, Option, none, some, List, [], ◌∷◌, ◌++◌}

-- a node by the tests of `find`; a constructor of regular expressions has its first argument
pub data Node : Type 0 where
  regexp_constructor : Node → Node
  regex_literal string_literal static_template_literal : ℕ → Node
  identifier : String → Node
  binary_plus : Node → Node → Node
  other_node : Node

-- `parts`, and the literals of a concatenation
abbrev pub Parts : Type 0
Parts = List (List ℕ)

abbrev pub Concatenated : Type 0
Concatenated = List ℕ × Parts

infixl 5 ◌>>=◌
abbrev ◌>>=◌ {ℓ κ} : {A : Type ℓ} {B : Type κ} → Option A → (A → Option B) → Option B
none >>= f = none
some a >>= f = f a

-- the end of the branch of `find` for concatenations
pub push_literals : Concatenated → Parts
push_literals ([], parts) = parts
push_literals (literal ∷ literals, parts) = parts ++ (literal ∷ literals) ∷ []

with_literals : List ℕ → Option Parts → Option Concatenated
with_literals literals none = none
with_literals literals (some parts) = some (literals, parts)

module _ (find_variable : String → Parts → Option Parts) where
  -- The two methods, where `find_variable` does what `find` does for an identifier. The last branch of
  -- `findInStringConcatenation`, `this.find(node)`, is written out for each kind of node.
  mutual
    unfolding push_literals with_literals

    pub find_with : Node → Parts → Option Parts
    find_with (regexp_constructor argument) parts = find_with argument parts
    find_with (regex_literal id) parts = some (parts ++ (id ∷ []) ∷ [])
    find_with (string_literal id) parts = some (parts ++ (id ∷ []) ∷ [])
    find_with (static_template_literal id) parts = some (parts ++ (id ∷ []) ∷ [])
    find_with (identifier name) parts = find_variable name parts
    find_with (binary_plus left right) parts = do
      first ← find_in_string_concatenation left [] parts
      both ← find_in_string_concatenation right first.0 first.1
      some (push_literals both)
    find_with other_node parts = some parts

    pub find_in_string_concatenation : Node → List ℕ → Parts → Option Concatenated
    find_in_string_concatenation (string_literal id) literals parts =
        some (literals ++ id ∷ [], parts)
    find_in_string_concatenation (binary_plus left right) literals parts = do
      first ← find_in_string_concatenation left literals parts
      find_in_string_concatenation right first.0 first.1
    find_in_string_concatenation (regexp_constructor argument) literals parts =
        with_literals literals (find_with argument parts)
    find_in_string_concatenation (regex_literal id) literals parts =
        some (literals, parts ++ (id ∷ []) ∷ [])
    find_in_string_concatenation (static_template_literal id) literals parts =
        some (literals, parts ++ (id ∷ []) ∷ [])
    find_in_string_concatenation (identifier name) literals parts =
        with_literals literals (find_variable name parts)
    find_in_string_concatenation other_node literals parts = some (literals, parts)

  -- the test `if (initializer)`
  pub find_initializer : Option Node → Parts → Option Parts
  unfolding find_with
  find_initializer none parts = some parts
  find_initializer (some initializer) parts = find_with initializer parts

module _ (unique_write_usage : String → Option Node) where
  -- the branch of `find` for identifiers, one inside of the other as often as there are rounds
  pub find_variable : ℕ → String → Parts → Option Parts
  unfolding find_initializer
  find_variable zero name parts = none
  find_variable (suc fuel) name parts =
      find_initializer (find_variable fuel) (unique_write_usage name) parts

  -- `findRegexParts`; `none` is that the rounds do not suffice
  pub find_regex_parts : ℕ → Node → Option Parts
  unfolding find_with find_variable
  find_regex_parts fuel node = find_with (find_variable fuel) node []
