-- ===== src/Dataflow/DeadStore/Check/Unread.antt =====
-- Live variable analysis and the loops of the rule together: what `Program:exit` reports
-- (src/linting/eslint/rules/no-dead-store.ts).
use mathlib.Core.Bool.{false≢true}
use sonar_js.Prelude.{
  ℕ, true, some, List, [], ◌∷◌, ◌++◌, ◌≡◌, refl, sym, ◌∙◌, subst, arith, has, has-set_of, set_of,
  get, All, All-append, All-get,
}
use sonar_js.Dataflow.Lva.{Reference, LiveVariables, LiveVariablesMap, lva, done}
use sonar_js.Dataflow.Lva.Graph.{IsGraph, enough}
use sonar_js.Dataflow.Lva.Correct.{lva_out, lva_decides, lva-IsDistinct}
use sonar_js.Dataflow.DeadStore.Scopes.{Variable, Occurrence}
use sonar_js.Dataflow.DeadStore.Events.{State}
use sonar_js.Dataflow.DeadStore.Known.{IsKnown, IsRecorded, All_map}
use sonar_js.Dataflow.DeadStore.Reads.{Reads, here, later, onward, IsUnread, read_first-Reads}
use sonar_js.Dataflow.DeadStore.Check.{
  check_segment, check_segments, report_never_read_variables, program_exit,
}
use sonar_js.Dataflow.DeadStore.Check.Laws.{
  Overwritten, Yields, Unnoted, check_segment-Overwritten, check_segment_total,
  report_never_read-Unnoted,
}

check_segments-step :
    (occurrence : ℕ → Occurrence) (variable : ℕ → Variable) (s : State) (k : ℕ) (lv : LiveVariables)
    (m : LiveVariablesMap) (stores others : List Reference)
    → check_segment occurrence variable s lv ≡ some stores
    → check_segments occurrence variable s m ≡ some others
    → check_segments occurrence variable s ((k, lv) ∷ m)
      ≡ some (stores ++ report_never_read_variables occurrence variable s lv.references ++ others)
unfolding check_segments
check_segments-step occurrence variable s k lv m stores others e f = ground arith

module _ (occurrence : ℕ → Occurrence) (variable : ℕ → Variable) (s : State) (m : LiveVariablesMap)
    (g : IsGraph m) (recorded : IsRecorded s m) where
  -- a variable that is read somewhere is noted
  Reads-noted :
      (x : ℕ) (refs : List Reference) (nexts : List ℕ)
      → Reads m x refs nexts
      → All (IsKnown s) refs
      → has s.read_variables x ≡ true
  Reads-noted x _ _ (here ref refs nexts r) (known, h) = known.noted x r
  Reads-noted x _ _ (later ref refs nexts w rest) (known, h) = Reads-noted x refs nexts rest h
  Reads-noted x _ _ (onward nexts j lj n e rest) h =
      Reads-noted x lj.references lj.segment.next_segments rest (recorded.known j lj e)

  All_suffix :
      (before : List Reference) (ref : Reference) (after refs : List Reference)
      → before ++ ref ∷ after ≡ refs
      → All (IsKnown s) refs
      → All (IsKnown s) after
  All_suffix before ref after refs e h = suffix before (subst (All (IsKnown s)) (sym e) h)
    where
      suffix : (xs : List Reference) → All (IsKnown s) (xs ++ ref ∷ after) → All (IsKnown s) after
      suffix [] (p, h) = h
      suffix (x ∷ xs) (p, h) = suffix xs h

  module _ (end : LiveVariablesMap) (ends : lva (enough m) m ≡ done end) (k : ℕ)
      (lv : LiveVariables) (found : get end k ≡ some lv) where
    Overwritten-IsUnread :
        (ref : Reference) → Overwritten (set_of lv.live_out) lv.references ref → IsUnread m ref
    Overwritten-IsUnread ref (before, after, x, split, resolved, written, unread) =
        let (lv0, e, seg, refs, outs) = lva_out m end g ends k lv found in
        record {
          segment_id = k;
          lv = lv0;
          before = before;
          after = after;
          x = x;
          found = e;
          split = split ∙ refs;
          resolved = resolved;
          unread = λ r. absurd (
              false≢true (
                sym unread
                ∙ read_first-Reads m x recorded.built (set_of lv.live_out) lv0.segment.next_segments
                    (λ j n live.
                      ground (arith, has-set_of lv.live_out x, outs x j (next_of lv0 seg j n) live))
                    after r));
        }
      where
        next_of :
            (lv0 : LiveVariables)
            → lv.segment ≡ lv0.segment
            → (j : ℕ) → has lv0.segment.next_segments j ≡ true
            → has lv.segment.next_segments j ≡ true
        next_of lv0 seg j n = ground (arith, seg)

    Unnoted-IsUnread : (ref : Reference) → Unnoted s lv.references ref → IsUnread m ref
    Unnoted-IsUnread ref (before, after, x, split, resolved, unnoted) =
        let (lv0, e, seg, refs, outs) = lva_out m end g ends k lv found in
        record {
          segment_id = k;
          lv = lv0;
          before = before;
          after = after;
          x = x;
          found = e;
          split = split ∙ refs;
          resolved = resolved;
          unread = λ r. absurd (
              ground (
                arith,
                Reads-noted x after lv0.segment.next_segments r (
                    All_suffix before ref after lv0.references (split ∙ refs)
                      (recorded.known k lv0 e)),
              ));
        }

  -- `Program:exit` ends without an exception, and all it reports is unread.
  check_segments-IsUnread :
      (end : LiveVariablesMap)
      → lva (enough m) m ≡ done end
      → (ms : LiveVariablesMap) → All (λ (k, lv). get end k ≡ some lv) ms
      → (reports : List Reference) × (check_segments occurrence variable s ms ≡ some reports)
        × All (IsUnread m) reports
  unfolding check_segments
  check_segments-IsUnread end ends [] h = ([], refl, tt)
  check_segments-IsUnread end ends ((k, lv) ∷ ms) (found, h) =
      let (lv0, e, seg, refs, outs) = lva_out m end g ends k lv found in
      let (stores, f) =
        check_segment_total occurrence variable s lv
          (subst (All (IsKnown s)) (sym refs) (recorded.known k lv0 e)) in
      let (others, f', unread) = check_segments-IsUnread end ends ms h in
      let never = report_never_read_variables occurrence variable s lv.references in
      (
        stores ++ never ++ others,
        check_segments-step occurrence variable s k lv ms stores others f f',
        All-append (IsUnread m) (stores ++ never) others
            (All-append (IsUnread m) stores never
              (All_map (Overwritten (set_of lv.live_out) lv.references) (IsUnread m) stores
                (Overwritten-IsUnread end ends k lv found)
                (subst (Yields (Overwritten (set_of lv.live_out) lv.references)) f
                  (check_segment-Overwritten occurrence variable s lv)))
              (All_map (Unnoted s lv.references) (IsUnread m) never
                (Unnoted-IsUnread end ends k lv found)
                (report_never_read-Unnoted occurrence variable s lv.references [] lv.references
                  refl)))
            unread,
      )

program_exit-done :
    (occurrence : ℕ → Occurrence) (variable : ℕ → Variable) (s : State) (fuel : ℕ)
    (end : LiveVariablesMap) (reports : List Reference)
    → lva fuel s.live_variables_map ≡ done end
    → check_segments occurrence variable s end ≡ some reports
    → program_exit occurrence variable s fuel ≡ some reports
unfolding program_exit
program_exit-done occurrence variable s fuel end reports ends e = ground arith

-- After all references are recorded `Program:exit` ends without an exception, and all it reports
-- is unread.
pub program_exit-IsUnread :
    (occurrence : ℕ → Occurrence) (variable : ℕ → Variable) (s : State)
    → IsGraph s.live_variables_map
    → IsRecorded s s.live_variables_map
    → (reports : List Reference) × (program_exit occurrence variable s (enough s.live_variables_map)
        ≡ some reports)
      × All (IsUnread s.live_variables_map) reports
program_exit-IsUnread occurrence variable s g recorded =
    let m = s.live_variables_map in
    let (end, ends, decides) = lva_decides m g in
    let (reports, e, unread) =
      check_segments-IsUnread occurrence variable s m g recorded end ends end
        (All-get (λ (k, lv). get end k ≡ some lv) end (lva-IsDistinct m end g ends) (λ k v f. f)) in
    (reports, program_exit-done occurrence variable s (enough m) end reports ends e, unread)
