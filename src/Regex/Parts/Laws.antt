-- ===== src/Regex/Parts/Laws.antt =====
-- When the search for the parts of a regular expression ends.
use Prim.Native.String.{String}
use sonar_js.Prelude.{
  ℕ, zero, suc, ◌≡◌, ◌<◌, refl, Option, none, some, List, [], Option-cases, inl, inr, arith,
}
use sonar_js.Regex.Parts.{
  Node, regexp_constructor, regex_literal, string_literal, static_template_literal, identifier,
  binary_plus, other_node, Parts, push_literals, with_literals, find_with,
  find_in_string_concatenation, find_initializer, find_variable, find_regex_parts,
}

-- The name occurs among the operands of concatenations and the arguments of constructors.
pub data Mentions (name : String) : Node → Type 0 where
  itself : Mentions name (identifier name)
  argument : {n : Node} → Mentions name n → Mentions name (regexp_constructor n)
  left : {n m : Node} → Mentions name n → Mentions name (binary_plus n m)
  right : {n m : Node} → Mentions name m → Mentions name (binary_plus n m)

abbrev Found : {A : Type 0} → Option A → Type 0
Found {A = A} o = (a : A) × (o ≡ some a)

with_literals-Found :
    (literals : List ℕ) (o : Option Parts) → Found o → Found (with_literals literals o)
unfolding with_literals
with_literals-Found literals none (parts, e) = cc
with_literals-Found literals (some parts) h = ((literals, parts), refl)

module _ (variable : String → Parts → Option Parts) where
  -- each variable of the node is found
  abbrev AllFound : Node → Type 0
  AllFound node =
      (name : String) → Mentions name node → (parts : Parts) → Found (variable name parts)

  mutual
    unfolding find_with find_in_string_concatenation

    find_with-Found :
        (node : Node) (parts : Parts) → AllFound node → Found (find_with variable node parts)
    find_with-Found (regexp_constructor n) parts h =
        find_with-Found n parts (λ name m. h name (argument m))
    find_with-Found (regex_literal id) parts h = (_, refl)
    find_with-Found (string_literal id) parts h = (_, refl)
    find_with-Found (static_template_literal id) parts h = (_, refl)
    find_with-Found (identifier name) parts h = h name itself parts
    find_with-Found (binary_plus n m) parts h =
        let (first, e) = concatenation-Found n [] parts (λ name p. h name (left p)) in
        let (both, e') = concatenation-Found m first.0 first.1 (λ name p. h name (right p)) in
        (push_literals both, rw (e, e') refl)
    find_with-Found other_node parts h = (_, refl)

    concatenation-Found :
        (node : Node) (literals : List ℕ) (parts : Parts)
        → AllFound node
        → Found (find_in_string_concatenation variable node literals parts)
    concatenation-Found (string_literal id) literals parts h = (_, refl)
    concatenation-Found (binary_plus n m) literals parts h =
        let (first, e) = concatenation-Found n literals parts (λ name p. h name (left p)) in
        let (both, e') = concatenation-Found m first.0 first.1 (λ name p. h name (right p)) in
        (both, rw (e, e') refl)
    concatenation-Found (regexp_constructor n) literals parts h =
        with_literals-Found literals _ (find_with-Found n parts (λ name p. h name (argument p)))
    concatenation-Found (regex_literal id) literals parts h = (_, refl)
    concatenation-Found (static_template_literal id) literals parts h = (_, refl)
    concatenation-Found (identifier name) literals parts h =
        with_literals-Found literals _ (h name itself parts)
    concatenation-Found other_node literals parts h = (_, refl)

  module _ (name : String) (never : (parts : Parts) → variable name parts ≡ none) where
    mutual
      unfolding find_with find_in_string_concatenation with_literals

      find_with-none :
          {node : Node} (parts : Parts) → Mentions name node → find_with variable node parts ≡ none
      find_with-none parts itself = never parts
      find_with-none parts (argument m) = find_with-none parts m
      find_with-none parts (left m) = rw (concatenation-none [] parts m) refl
      find_with-none {node = binary_plus n k} parts (right m) =
          elim (Option-cases (find_in_string_concatenation variable n [] parts)) [
            | inl e ↦ rw (e) refl
            | inr (first, e) ↦ rw (e, concatenation-none first.0 first.1 m) refl
          ]

      concatenation-none :
          {node : Node} (literals : List ℕ) (parts : Parts)
          → Mentions name node
          → find_in_string_concatenation variable node literals parts ≡ none
      concatenation-none literals parts itself = rw (never parts) refl
      concatenation-none literals parts (argument m) = rw (find_with-none parts m) refl
      concatenation-none literals parts (left m) = rw (concatenation-none literals parts m) refl
      concatenation-none {node = binary_plus n k} literals parts (right m) =
          elim (Option-cases (find_in_string_concatenation variable n literals parts)) [
            | inl e ↦ rw (e) refl
            | inr (first, e) ↦ rw (e) (concatenation-none first.0 first.1 m)
          ]

module _ (unique_write_usage : String → Option Node) where
  -- The variables that a variable is written with have a smaller rank.
  abbrev pub Ranked : (String → ℕ) → Type 0
  Ranked rank =
      (name other : String) (written : Node)
      → unique_write_usage name ≡ some written
      → Mentions other written
      → rank other < rank name

  find_variable-Found :
      (rank : String → ℕ) (ranked : Ranked rank) (fuel : ℕ) (name : String) (parts : Parts)
      → rank name < fuel
      → Found (find_variable unique_write_usage fuel name parts)
  unfolding find_variable find_initializer
  find_variable-Found rank ranked zero name parts h = absurd (omega arith)
  find_variable-Found rank ranked (suc fuel) name parts h =
      elim (Option-cases (unique_write_usage name)) [
        | inl e ↦ rw (e) (parts, refl)
        | inr (written, e) ↦ rw (e) (
            find_with-Found (find_variable unique_write_usage fuel) written parts λ other m found.
              find_variable-Found rank ranked fuel other found
                (let below = ranked name other written e m in omega arith))
      ]

  -- If no variable is written with itself, directly or through others, so that the variables can be
  -- ranked, then the search ends within more rounds than the ranks of the variables in the node.
  pub find_regex_parts-terminates :
      (rank : String → ℕ) (fuel : ℕ) (node : Node)
      → Ranked rank
      → ((name : String) → Mentions name node → rank name < fuel)
      → (parts : Parts) × (find_regex_parts unique_write_usage fuel node ≡ some parts)
  unfolding find_regex_parts
  find_regex_parts-terminates rank fuel node ranked below =
      find_with-Found (find_variable unique_write_usage fuel) node []
        λ name m parts. find_variable-Found rank ranked fuel name parts (below name m)

  never_found :
      (name : String) (written : Node)
      → unique_write_usage name ≡ some written
      → Mentions name written
      → (fuel : ℕ) (parts : Parts) → find_variable unique_write_usage fuel name parts ≡ none
  unfolding find_variable find_initializer
  never_found name written e m zero parts = refl
  never_found name written e m (suc fuel) parts = rw (e) (
      find_with-none (find_variable unique_write_usage fuel) name
        (never_found name written e m fuel) parts m)

  -- On a variable that is written once, with itself, as in `p = '^' + p`, the search never ends: no
  -- number of rounds suffices for a node that mentions the variable.
  pub find_regex_parts-diverges :
      (name : String) (written node : Node)
      → unique_write_usage name ≡ some written
      → Mentions name written
      → Mentions name node
      → (fuel : ℕ) → find_regex_parts unique_write_usage fuel node ≡ none
  unfolding find_regex_parts
  find_regex_parts-diverges name written node e m n fuel =
      find_with-none (find_variable unique_write_usage fuel) name
        (never_found name written e m fuel) [] n
