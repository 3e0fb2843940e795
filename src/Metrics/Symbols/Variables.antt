-- ===== src/Metrics/Symbols/Variables.antt =====
-- The highlights of declared variables: the first loop of `Program:exit` in symbol-highlighting.ts.
use sonar_js.Prelude.{
  sym, subst, suc, ℕ, ◌≡◌, ◌≤◌, refl, ap, ◌∙◌, Option, none, some, List, [], ◌∷◌, ◌++◌, map,
  if◌then◌else◌, leb, ◌==◌, any, All, arith, length, Bool-cases, inl, inr,
}
use sonar_js.Metrics.Ast.{Position, SourceLocation}
use sonar_js.Metrics.Tokens.{Location, convert_location}
use sonar_js.Metrics.Symbols.{SymbolHighlight}

-- An identifier node. `annotation` is the offset at which its type annotation begins, if it is an
-- `Identifier` that has one.
pub record Identifier : Type 0 where
  pub id : ℕ
  pub loc : Option SourceLocation
  pub annotation : Option ℕ

-- `Scope.Variable`: the names of its definitions, and the identifiers of its references.
pub record Variable : Type 0 where
  pub defs : List Identifier
  pub references : List Identifier

-- A node that has a location, with the location.
pub record Located : Type 0 where
  pub loc : SourceLocation
  pub annotation : Option ℕ

-- `new Set([...])`: the first of the nodes with one identity stays
pub distinct_from : List ℕ → List Identifier → List Identifier
distinct_from seen [] = []
distinct_from seen (i ∷ is) =
    let again = distinct_from seen is in
    let rest = i ∷ distinct_from (i.id ∷ seen) is in
    if any (λ s. s == i.id) seen then again else rest

-- `.filter(i => !!i.loc)`
pub located : List Identifier → List Located
located [] = []
located (i ∷ is) = elim i.loc [
  | none ↦ located is
  | some loc ↦ record { loc = loc; annotation = i.annotation } ∷ located is
]

insert_by_line : Located → List Located → List Located
insert_by_line i [] = i ∷ []
insert_by_line i (j ∷ js) =
    let rest = insert_by_line i js in
    if leb i.loc.start.line j.loc.start.line then i ∷ j ∷ js else j ∷ rest

-- `.sort((a, b) => a.loc.start.line - b.loc.start.line)`, which is stable
pub sort_by_line : List Located → List Located
unfolding insert_by_line
sort_by_line [] = []
sort_by_line (i ∷ is) = insert_by_line i (sort_by_line is)

-- `getLocFromIndex` of the source code is the argument.
pub identifier_location : (ℕ → Position) → Located → Location
unfolding convert_location
identifier_location loc_from_index i = convert_location (record {
  start = i.loc.start;
  end = elim i.annotation [ none ↦ i.loc.end | some offset ↦ loc_from_index offset ];
})

pub all_ref : Variable → List Located
all_ref v = sort_by_line (located (distinct_from [] (v.defs ++ v.references)))

-- the highlight of a variable, if it has a located identifier
pub highlight_refs : (ℕ → Position) → List Located → Option SymbolHighlight
highlight_refs loc_from_index [] = none
highlight_refs loc_from_index (first ∷ rest) = some (record {
  declaration = identifier_location loc_from_index first;
  references = map (identifier_location loc_from_index) rest;
})

unfoldable pub highlight_variable : (ℕ → Position) → Variable → Option SymbolHighlight
unfolding highlight_refs all_ref identifier_location sort_by_line located distinct_from
    convert_location
highlight_variable loc_from_index v = highlight_refs loc_from_index (all_ref v)

abbrev Sorted : List Located → Type 0
Sorted [] = Unit
Sorted (i ∷ is) = All (λ j. i.loc.start.line ≤ j.loc.start.line) is × Sorted is

insert_by_line-All :
    (n : ℕ) (i : Located) (js : List Located)
    → n ≤ i.loc.start.line
    → All (λ j. n ≤ j.loc.start.line) js
    → All (λ j. n ≤ j.loc.start.line) (insert_by_line i js)
unfolding insert_by_line
insert_by_line-All n i [] h k = (h, tt)
insert_by_line-All n i (j ∷ js) h (p, k) =
    elim (Bool-cases (leb i.loc.start.line j.loc.start.line)) [
      | inl e ↦ rw (e, insert_by_line) (h, (p, k))
      | inr e ↦ rw (e, insert_by_line) (p, insert_by_line-All n i js h k)
    ]

lower :
    (m n : ℕ) (js : List Located)
    → m ≤ n
    → All (λ j. n ≤ j.loc.start.line) js
    → All (λ j. m ≤ j.loc.start.line) js
lower m n [] h k = tt
lower m n (j ∷ js) h (p, k) = (omega arith, lower m n js h k)

insert_by_line-Sorted : (i : Located) (js : List Located) → Sorted js → Sorted (insert_by_line i js)
unfolding insert_by_line
insert_by_line-Sorted i [] h = (tt, tt)
insert_by_line-Sorted i (j ∷ js) (p, h) =
    elim (Bool-cases (leb i.loc.start.line j.loc.start.line)) [
      | inl e ↦
          rw (e, insert_by_line)
            ((ground arith, lower i.loc.start.line j.loc.start.line js (ground arith) p), (p, h))
      | inr e ↦
          rw (e, insert_by_line)
            (
              insert_by_line-All j.loc.start.line i js (ground arith) p,
              insert_by_line-Sorted i js h,
            )
    ]

sort_by_line-Sorted : (is : List Located) → Sorted (sort_by_line is)
unfolding sort_by_line
sort_by_line-Sorted [] = tt
sort_by_line-Sorted (i ∷ is) = insert_by_line-Sorted i (sort_by_line is) (sort_by_line-Sorted is)

length-insert_by_line :
    (i : Located) (js : List Located) → length (insert_by_line i js) ≡ suc (length js)
unfolding insert_by_line
length-insert_by_line i [] = refl
length-insert_by_line i (j ∷ js) = ground (arith, length-insert_by_line i js)

length-sort_by_line : (is : List Located) → length (sort_by_line is) ≡ length is
unfolding sort_by_line
length-sort_by_line [] = refl
length-sort_by_line (i ∷ is) =
    length-insert_by_line i (sort_by_line is) ∙ ap suc (length-sort_by_line is)

length-map {ℓ κ} :
    {A : Type ℓ} {B : Type κ} (f : A → B) (xs : List A) → length (map f xs) ≡ length xs
length-map f [] = refl
length-map f (x ∷ xs) = ap suc (length-map f xs)

start_line-identifier_location :
    (f : ℕ → Position) (i : Located) → (identifier_location f i).start_line ≡ i.loc.start.line
unfolding identifier_location
start_line-identifier_location f i = refl

map-All :
    (f : ℕ → Position) (n : ℕ) (is : List Located)
    → All (λ j. n ≤ j.loc.start.line) is
    → All (λ l. n ≤ l.start_line) (map (identifier_location f) is)
map-All f n [] h = tt
map-All f n (i ∷ is) (p, h) = (omega (arith, start_line-identifier_location f i), map-All f n is h)

highlight_refs_lem :
    (f : ℕ → Position) (is : List Located) (h : SymbolHighlight)
    → Sorted is
    → highlight_refs f is ≡ some h
    → All (λ l. h.declaration.start_line ≤ l.start_line) h.references
      × (length is ≡ suc (length h.references))
unfolding highlight_refs
highlight_refs_lem f [] h s e = cc
highlight_refs_lem f (first ∷ rest) h (p, s) e =
    let of : SymbolHighlight = record {
      declaration = identifier_location f first;
      references = map (identifier_location f) rest;
    } in
    let is : of ≡ h = ground arith in
    subst
      (λ (g : SymbolHighlight).
        All (λ l. g.declaration.start_line ≤ l.start_line) g.references
        × (suc (length rest) ≡ suc (length g.references)))
      is
      (
        map-All f (identifier_location f first).start_line rest
            (rw (start_line-identifier_location f first) p),
        ap suc (sym (length-map (identifier_location f) rest)),
      )

-- The declaration of a highlight starts on the earliest line, and declaration and references
-- together are as many as the distinct identifiers of the variable that have a location.
pub highlight_variable_first :
    (loc_from_index : ℕ → Position) (v : Variable) (h : SymbolHighlight)
    → highlight_variable loc_from_index v ≡ some h
    → All (λ l. h.declaration.start_line ≤ l.start_line) h.references
      × (suc (length h.references) ≡ length (located (distinct_from [] (v.defs ++ v.references))))
unfolding highlight_variable all_ref
highlight_variable_first loc_from_index v h e =
    let is = located (distinct_from [] (v.defs ++ v.references)) in
    let (first, long) =
      highlight_refs_lem loc_from_index (sort_by_line is) h (sort_by_line-Sorted is) e in
    (first, sym long ∙ length-sort_by_line is)
