-- ===== src/Dataflow/DeadStore/Correct.antt =====
-- The rule on dead stores from its first event to its reports:
-- src/linting/eslint/rules/no-dead-store.ts.
use sonar_js.Prelude.{ℕ, true, none, some, List, ◌≡◌, ◌≢◌, subst, has, get, All, All_at}
use sonar_js.Dataflow.Lva.{Reference, LiveVariables, LiveVariablesMap}
use sonar_js.Dataflow.Lva.Graph.{IsGraph, enough}
use sonar_js.Dataflow.DeadStore.Scopes.{Variable, Occurrence}
use sonar_js.Dataflow.DeadStore.Events.{State, Event, run, initial}
use sonar_js.Dataflow.DeadStore.Events.Invariant.{Holds}
use sonar_js.Dataflow.DeadStore.Events.Steps.{Invariant}
use sonar_js.Dataflow.DeadStore.Events.Reached.{IsCoherent, run-Invariant, initial-Invariant}
use sonar_js.Dataflow.DeadStore.Known.{IsKnown, IsMet, IsEntry, IsRecorded, All_map}
use sonar_js.Dataflow.DeadStore.Reads.{IsUnread}
use sonar_js.Dataflow.DeadStore.Check.{program_exit}
use sonar_js.Dataflow.DeadStore.Check.Unread.{program_exit-IsUnread}

-- The segments of ESLint's code paths: each neighbour of a segment has been started, and the two
-- directions agree.
pub record IsLinked (m : LiveVariablesMap) : Type 0 where
  pub nexts :
      (k j : ℕ) (lv : LiveVariables)
      → get m k ≡ some lv
      → has lv.segment.next_segments j ≡ true
      → get m j ≢ none
  pub prevs :
      (k j : ℕ) (lv : LiveVariables)
      → get m k ≡ some lv
      → has lv.segment.prev_segments j ≡ true
      → get m j ≢ none
  pub agree :
      (k j : ℕ) (lv lj : LiveVariables)
      → get m k ≡ some lv
      → get m j ≡ some lj
      → has lv.segment.next_segments j ≡ true
      → has lj.segment.prev_segments k ≡ true

module _ (occurrence : ℕ → Occurrence) (object : ℕ → Reference) (s : State)
    (kept : Invariant occurrence object s) where
  lookup_found :
      (k : ℕ) (lv : LiveVariables) → get s.live_variables_map k ≡ some lv → IsEntry object s (k, lv)
  lookup_found k lv found =
      let (j, at, entry) = All_at (IsEntry object s) s.live_variables_map k lv kept.entries found in
      subst (λ i. IsEntry object s (i, lv)) at entry

  Invariant-IsGraph : IsLinked s.live_variables_map → IsGraph s.live_variables_map
  Invariant-IsGraph linked = record {
    distinct = kept.distinct;
    named =
        All_map (IsEntry object s) (λ (k, lv). lv.segment.id ≡ k) s.live_variables_map
          (λ (k, lv) entry. entry.named) kept.entries;
    nexts = linked.nexts;
    prevs = linked.prevs;
    agree = linked.agree;
    fresh = λ k lv found. (lookup_found k lv found).fresh;
  }

  Invariant-IsRecorded : IsRecorded s s.live_variables_map
  Invariant-IsRecorded = record {
    built = λ k lv found. (lookup_found k lv found).built;
    known = λ k lv found.
        All_map (IsMet object s) (IsKnown s) lv.references (λ ref met. met.known)
          (lookup_found k lv found).met;
  }

-- Let the handlers meet references that numbers tell apart, and let the segments be linked in both
-- directions. If no handler throws, then `Program:exit` ends without an exception, and each
-- reference that it reports stands in a segment, has a variable, and the value of that variable
-- after the reference is never read: not by a later reference of the segment, and not on any
-- path into the next segments, as long as it is not written again.
pub program_exit-reports :
    (occurrence : ℕ → Occurrence) (variable : ℕ → Variable) (object : ℕ → Reference)
    (events : List Event) (s : State)
    → All (IsCoherent occurrence object) events
    → run occurrence events initial ≡ some s
    → IsLinked s.live_variables_map
    → (reports : List Reference) × (program_exit occurrence variable s (enough s.live_variables_map)
        ≡ some reports)
      × All (IsUnread s.live_variables_map) reports
program_exit-reports occurrence variable object events s coherent reached linked =
    let kept : Invariant occurrence object s = subst (Holds (Invariant occurrence object)) reached (
      run-Invariant occurrence object events initial coherent
        (initial-Invariant occurrence object)) in
    program_exit-IsUnread occurrence variable s (Invariant-IsGraph occurrence object s kept linked)
      (Invariant-IsRecorded occurrence object s kept)
