-- ===== src/Regex/Parts/Tests.antt =====
-- `'^' + p` where p is written with a literal, and where it is written with itself.
use Prim.Native.String.{String}
use sonar_js.Prelude.{ℕ, ◌≡◌, refl, subst, Option, none, some, [], ◌∷◌, arith}
use sonar_js.Regex.Parts.{
  Node, string_literal, identifier, binary_plus, Parts, find_regex_parts, find_with,
  find_in_string_concatenation, find_variable, find_initializer, push_literals, with_literals,
}
use sonar_js.Regex.Parts.Laws.{
  Mentions, itself, argument, left, right, Ranked, find_regex_parts-terminates,
  find_regex_parts-diverges,
}

abbrev concatenation : Node
concatenation = binary_plus (string_literal 0) (identifier "p")

abbrev plain : String → Option Node
plain name = some (string_literal 1)

abbrev circular : String → Option Node
circular name = some concatenation

abbrev flat : String → ℕ
flat name = 0

abbrev IsLiteral : Option Node → Type 0
IsLiteral (some (string_literal id)) = Unit
IsLiteral _ = ⊥

literal-Mentions : {name : String} (n : Node) → IsLiteral (some n) → Mentions name n → ⊥
literal-Mentions n h itself = h
literal-Mentions n h (argument m) = h
literal-Mentions n h (left m) = h
literal-Mentions n h (right m) = h

plain-Ranked : Ranked plain flat
plain-Ranked name other written e m =
    absurd (literal-Mentions written (subst IsLiteral e (record {})) m)

literals_found : find_regex_parts plain 1 concatenation ≡ some ((1 ∷ []) ∷ (0 ∷ []) ∷ [])
unfolding find_regex_parts find_with find_in_string_concatenation find_variable find_initializer
    push_literals with_literals
literals_found = refl

find_regex_parts-terminates_example :
    (parts : Parts) × (find_regex_parts plain 1 concatenation ≡ some parts)
find_regex_parts-terminates_example =
    find_regex_parts-terminates plain flat 1 concatenation plain-Ranked (λ name m. omega arith)

find_regex_parts-diverges_example : find_regex_parts circular 1_000 concatenation ≡ none
find_regex_parts-diverges_example =
    find_regex_parts-diverges circular "p" concatenation concatenation refl (right itself)
      (right itself) 1_000
