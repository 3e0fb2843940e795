-- ===== src/Dataflow/Lva.antt =====
-- Live variable analysis: src/linting/eslint/rules/helpers/lva.ts.
-- Variables, references and code path segments are objects that the code tells apart by identity
-- or by a unique id; a number stands for each. Reading a segment that has no entry in the map is a
-- TypeError of the program (`!` on `undefined`), the result `none`.
pub mod Graph
mod Sets
mod Invariant
mod Round
mod Termination
pub mod Correct
mod Tests
use mathlib.Core.List.{reverse_aux}
use sonar_js.Prelude.{
  ℕ, zero, suc, Bool, true, false, not, ◌&&◌, ◌||◌, Option, none, some, List, [], ◌∷◌, ◌++◌, map,
  if◌then◌else◌, ◌==◌, has, set_add, set_of, Keyed, get, put, any,
}

pub record Segment : Type 0 where
  pub id : ℕ
  pub next_segments : List ℕ
  pub prev_segments : List ℕ

-- A reference of the scope manager, as far as the analysis reads it.
pub record Reference : Type 0 where
  pub identifier : ℕ
  pub resolved : Option ℕ
  pub is_read : Bool
  pub is_write : Bool

pub record LiveVariables : Type 0 where
  pub segment : Segment
  pub gen : List ℕ
  pub kill : List ℕ
  pub live_in : List ℕ
  pub live_out : List ℕ
  pub references : List Reference

abbrev pub LiveVariablesMap : Type 0
LiveVariablesMap = Keyed LiveVariables

unfoldable pub new_live_variables : Segment → LiveVariables
new_live_variables segment = record {
  segment = segment;
  gen = [];
  kill = [];
  live_in = [];
  live_out = [];
  references = [];
}

unfoldable pub add_reference : List Reference → Reference → List Reference
add_reference refs ref =
    if any (λ r. r.identifier == ref.identifier) refs then refs else refs ++ ref ∷ []

-- `LiveVariables.add`
unfoldable pub add : LiveVariables → Reference → LiveVariables
unfolding add_reference
add lv ref = elim ref.resolved [
  | none ↦ lv
  | some variable ↦ record lv {
    gen = if ref.is_read then set_add lv.gen variable else lv.gen;
    kill = if ref.is_write then set_add lv.kill variable else lv.kill;
    references = add_reference lv.references ref;
  }
]

difference_from : List ℕ → List ℕ → List ℕ
difference_from [] b = []
difference_from (e ∷ a) b = let diff = difference_from a b in if has b e then diff else e ∷ diff

pub difference : List ℕ → List ℕ → List ℕ
unfolding difference_from
difference a [] = a
difference a (k ∷ b) = difference_from a (k ∷ b)

-- a loop of `shouldUpdate`
adds_to : List ℕ → List ℕ → Bool
adds_to in_set [] = false
adds_to in_set (e ∷ es) = not (has in_set e) || adds_to in_set es

pub should_update : List ℕ → List ℕ → List ℕ → Bool
unfolding adds_to
should_update in_set gen diff = adds_to in_set gen || adds_to in_set diff

-- the loop of `propagate` over the next segments
pub gather : LiveVariablesMap → List ℕ → Option (List ℕ)
gather m [] = some []
gather m (next ∷ nexts) = elim (get m next) [
  | none ↦ none
  | some lv ↦ elim (gather m nexts) [ none ↦ none | some out ↦ some (lv.live_in ++ out) ]
]

-- the body of `propagate` behind that loop: the changed object, and the result
pub update : LiveVariables → List ℕ → LiveVariables × Bool
update lv out =
    let diff = difference out lv.kill in
    if should_update lv.live_in lv.gen diff
    then (record lv { live_out = out; live_in = set_of (lv.gen ++ diff) }, true)
    else (record lv { live_out = out }, false)

pub data Outcome : Type 0 where
  done : LiveVariablesMap → Outcome
  type_error out_of_fuel : Outcome

-- One round of the `while` loop: `propagate` on the segment that left the worklist, and the
-- worklist of the next round. The top of the worklist is its head.
pub round : LiveVariablesMap → ℕ → List ℕ → Option (LiveVariablesMap × List ℕ)
unfolding update
round m current work = elim (get m current) [
  | none ↦ none
  | some lv ↦ elim (gather m lv.segment.next_segments) [
    | none ↦ none
    | some out ↦ some (
      put m current (update lv out).0,
      if (update lv out).1 then reverse_aux lv.segment.prev_segments work else work,
    )
  ]
]

pub loop : ℕ → LiveVariablesMap → List ℕ → Outcome
loop fuel m [] = done m
loop zero m (current ∷ work) = out_of_fuel
loop (suc fuel) m (current ∷ work) = elim (round m current work) [
  | none ↦ type_error
  | some (m', work') ↦ loop fuel m' work'
]

pub lva : ℕ → LiveVariablesMap → Outcome
unfolding loop
lva fuel m = loop fuel m (reverse_aux (map (λ (_, lv). lv.segment.id) m) [])
