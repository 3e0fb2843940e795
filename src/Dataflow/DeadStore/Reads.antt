-- ===== src/Dataflow/DeadStore/Reads.antt =====
-- What it means that a variable is read after a reference, and that a map of live variables has
-- been built by `LiveVariables.add`.
use sonar_js.Prelude.{
  ℕ, Bool, true, false, not, ◌&&◌, ◌||◌, none, some, List, [], ◌∷◌, ◌++◌, ◌≡◌, ◌⊎◌, inl, inr, arith,
  ◌==◌, has, get, any,
}
use sonar_js.Dataflow.Lva.{Reference, LiveVariables, LiveVariablesMap}
use sonar_js.Dataflow.Lva.Graph.{IsLive, used, passed}

abbrev pub is_of : ℕ → Reference → Bool
is_of x ref = elim ref.resolved [ none ↦ false | some v ↦ v == x ]

abbrev pub reads : ℕ → Reference → Bool
reads x ref = is_of x ref && ref.is_read

abbrev pub writes : ℕ → Reference → Bool
writes x ref = is_of x ref && ref.is_write

-- The value that `x` has before the references is read by one of them, or on a path into the next
-- segments: each of the references on the way before the reading one does not write it.
pub data Reads (m : LiveVariablesMap) (x : ℕ) : List Reference → List ℕ → Type 0 where
  here :
      (ref : Reference) (refs : List Reference) (nexts : List ℕ)
      → reads x ref ≡ true
      → Reads m x (ref ∷ refs) nexts
  later :
      (ref : Reference) (refs : List Reference) (nexts : List ℕ)
      → writes x ref ≡ false
      → Reads m x refs nexts
      → Reads m x (ref ∷ refs) nexts
  onward :
      (nexts : List ℕ) (j : ℕ) (lj : LiveVariables)
      → has nexts j ≡ true
      → get m j ≡ some lj
      → Reads m x lj.references lj.segment.next_segments
      → Reads m x [] nexts

-- `gen` and `kill` are the variables that the references read and write.
pub record IsBuilt (lv : LiveVariables) : Type 0 where
  pub gen_iff : (x : ℕ) → has lv.gen x ≡ any (reads x) lv.references
  pub kill_iff : (x : ℕ) → has lv.kill x ≡ any (writes x) lv.references

-- `x` is read by the references, or read in a next segment and not written by them.
abbrev pub Ahead : LiveVariablesMap → ℕ → List Reference → List ℕ → Type 0
Ahead m x refs nexts =
    (any (reads x) refs ≡ true)
    ⊎ ((any (writes x) refs ≡ false) × ((j : ℕ) × (has nexts j ≡ true) × IsLive m x j))

module _ (m : LiveVariablesMap) (x : ℕ)
    (built : (k : ℕ) (lv : LiveVariables) → get m k ≡ some lv → IsBuilt lv) where
  IsLive-Ahead :
      (j : ℕ) (lj : LiveVariables)
      → get m j ≡ some lj
      → Ahead m x lj.references lj.segment.next_segments
      → IsLive m x j
  IsLive-Ahead j lj e (inl h) = used lj e (ground (arith, (built j lj e).gen_iff x))
  IsLive-Ahead j lj e (inr (h, (i, n, live))) =
      passed lj i e (ground (arith, (built j lj e).kill_iff x)) n live

  pub Reads-Ahead :
      (refs : List Reference) (nexts : List ℕ) → Reads m x refs nexts → Ahead m x refs nexts
  Reads-Ahead _ _ (here ref refs nexts h) = inl (ground arith)
  Reads-Ahead _ _ (later ref refs nexts h rest) = elim (Reads-Ahead refs nexts rest) [
    | inl read ↦ inl (ground arith)
    | inr (clear, n) ↦ inr (ground arith, n)
  ]
  Reads-Ahead _ _ (onward nexts j lj n e rest) = inr (
    ground arith,
    (j, n, IsLive-Ahead j lj e (Reads-Ahead lj.references lj.segment.next_segments rest)),
  )

-- the variables that will be read, computed forwards
unfoldable pub read_first : List ℕ → List Reference → ℕ → Bool
read_first out [] x = has out x
read_first out (ref ∷ refs) x = reads x ref || (not (writes x ref) && read_first out refs x)

-- If the outflow has all that is live in the next segments, then what is not read first is not
-- read at all.
pub read_first-Reads :
    (m : LiveVariablesMap) (x : ℕ)
    → ((k : ℕ) (lv : LiveVariables) → get m k ≡ some lv → IsBuilt lv)
    → (out nexts : List ℕ) → ((j : ℕ) → has nexts j ≡ true → IsLive m x j → has out x ≡ true)
    → (refs : List Reference) → Reads m x refs nexts
    → read_first out refs x ≡ true
unfolding read_first
read_first-Reads m x built out nexts complete _ (here ref refs _ h) = ground arith
read_first-Reads m x built out nexts complete _ (later ref refs _ h rest) =
    ground (arith, read_first-Reads m x built out nexts complete refs rest)
read_first-Reads m x built out nexts complete _ (onward _ j lj n e rest) = complete j n (
    IsLive-Ahead m x built j lj e
      (Reads-Ahead m x built lj.references lj.segment.next_segments rest))

-- A reference of a segment whose variable has, after it, a value that is not read.
pub record IsUnread (m : LiveVariablesMap) (ref : Reference) : Type 0 where
  pub segment_id : ℕ
  pub lv : LiveVariables
  pub before : List Reference
  pub after : List Reference
  pub x : ℕ
  pub found : get m segment_id ≡ some lv
  pub split : before ++ ref ∷ after ≡ lv.references
  pub resolved : ref.resolved ≡ some x
  pub unread : Reads m x after lv.segment.next_segments → ⊥
