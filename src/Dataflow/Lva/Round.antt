-- ===== src/Dataflow/Lva/Round.antt =====
-- One round of the worklist keeps the invariant.
use sonar_js.Prelude.{
  ℕ, true, false, none, some, List, ◌∷◌, ◌≡◌, ◌≢◌, sym, subst, ◌⊎◌, inl, inr, arith, Bool-cases,
  has, has-reverse_aux, get, get-put, put-IsDistinct,
}
use sonar_js.Dataflow.Lva.{LiveVariables, LiveVariablesMap, gather, update}
use sonar_js.Dataflow.Lva.Graph.{IsLive, IsGraph}
use sonar_js.Dataflow.Lva.Sets.{flow, has-flow, has-update, update-unchanged, gather_complete}
use sonar_js.Dataflow.Lva.Invariant.{
  Settled, Backed, Inv, update-static, update-references, update-live_out, next_map, next_work,
  cases_next, flow_sound, flow-Backed, grows_next,
}

module _ (m0 : LiveVariablesMap) (g : IsGraph m0) (m : LiveVariablesMap) (current : ℕ)
    (rest : List ℕ) (inv : Inv m0 m (current ∷ rest)) (lv : LiveVariables)
    (found : get m current ≡ some lv) (out : List ℕ)
    (gathered : gather m lv.segment.next_segments ≡ some out) where
  abbrev m' : LiveVariablesMap
  m' = next_map m0 g m current rest inv lv found out gathered

  abbrev work' : List ℕ
  work' = next_work m0 g m current rest inv lv found out gathered

  same_next :
      (k : ℕ) (lk : LiveVariables)
      → get m' k ≡ some lk
      → (lv0 : LiveVariables) × (get m0 k ≡ some lv0)
        × (lk.segment ≡ lv0.segment)
        × (lk.gen ≡ lv0.gen)
        × (lk.kill ≡ lv0.kill)
  same_next k lk e = elim (cases_next m0 g m current rest inv lv found out gathered k lk e) [
    | inl (at, is) ↦
        let (lv0, p, s, gs, ks) = inv.same current lv found in
        let (s', gs', ks') = update-static lv out in (lv0, cc, cc, cc, cc)
    | inr (off, old) ↦ inv.same k lk old
  ]

  same_references_next :
      (k : ℕ) (lk lv0 : LiveVariables)
      → get m' k ≡ some lk
      → get m0 k ≡ some lv0
      → lk.references ≡ lv0.references
  same_references_next k lk lv0 e e0 =
      elim (cases_next m0 g m current rest inv lv found out gathered k lk e) [
        | inl (at, is) ↦
            let old = inv.same_references current lv lv0 found (cc) in
            let kept = update-references lv out in cc
        | inr (off, old) ↦ inv.same_references k lk lv0 old e0
      ]

  kept_next : (k : ℕ) → get m0 k ≢ none → get m' k ≢ none
  kept_next k h = ground (arith, inv.kept k h, get-put m current k (update lv out).0)

  listed_next : (k : ℕ) → has work' k ≡ true → get m0 k ≢ none
  listed_next k h = elim (Bool-cases (has rest k)) [
    | inl old ↦ inv.listed k (ground arith)
    | inr new ↦
        let (lv0, p, s, gs, ks) = inv.same current lv found in
        g.prevs current k lv0 p (ground (arith, has-reverse_aux lv.segment.prev_segments rest k))
  ]

  sound_next :
      (k x : ℕ) (lk : LiveVariables) → get m' k ≡ some lk → has lk.live_in x ≡ true → IsLive m0 x k
  sound_next k x lk e h = elim (cases_next m0 g m current rest inv lv found out gathered k lk e) [
    | inl (at, is) ↦ elim (Bool-cases (update lv out).1) [
      | inl changed ↦ subst (IsLive m0 x) (sym at) (
          flow_sound m0 g m current rest inv lv found out gathered x
            (ground (arith, has-update lv out x)))
      | inr settled ↦
          subst (IsLive m0 x) (sym at)
            (inv.sound current x lv found (ground (arith, has-update lv out x)))
    ]
    | inr (off, old) ↦ inv.sound k x lk old h
  ]

  Backed-next :
      (k x : ℕ) (lk : LiveVariables) → get m' k ≡ some lk → has lk.live_in x ≡ true → Backed m' lk x
  Backed-next k x lk e h = elim (cases_next m0 g m current rest inv lv found out gathered k lk e) [
    | inl (at, is) ↦ lift lk (at_current at is)
    | inr (off, old) ↦ lift lk (inv.backed k x lk old h)
  ]
    where
      lift : (l : LiveVariables) → Backed m l x → Backed m' l x
      lift l (inl reads) = inl reads
      lift l (inr (clear, (j, lj, a, b, c))) =
          let (lj', p, q) = grows_next m0 g m current rest inv lv found out gathered j x lj b c in
          inr (clear, (j, lj', a, p, q))

      move : lk ≡ (update lv out).0 → Backed m lv x → Backed m lk x
      move is (inl reads) = inl (ground (arith, update-static lv out))
      move is (inr (clear, (j, lj, a, b, c))) = inr (
        ground (arith, update-static lv out),
        (j, lj, ground (arith, update-static lv out), b, c),
      )

      at_current : k ≡ current → lk ≡ (update lv out).0 → Backed m lk x
      at_current at is = elim (Bool-cases (update lv out).1) [
        | inl changed ↦ move is (
            flow-Backed m0 g m current rest inv lv found out gathered x
              (ground (arith, has-update lv out x)))
        | inr settled ↦
            move is (inv.backed current x lv found (ground (arith, has-update lv out x)))
      ]

  -- The next segments of the segment of the round flow into its new entry.
  in_next :
      (x j : ℕ) (lj : LiveVariables)
      → has lv.segment.next_segments j ≡ true
      → get m j ≡ some lj
      → has lj.live_in x ≡ true
      → has lv.kill x ≡ false
      → has (update lv out).0.live_in x ≡ true
  in_next x j lj n e h clear = ground (
    arith,
    has-update lv out x,
    update-unchanged lv out,
    has-flow lv out x,
    update-unchanged_at,
    gather_complete m lv.segment.next_segments out x j lj gathered n e h,
  )
    where
      update-unchanged_at :
          (update lv out).1 ≡ false → has (flow lv out) x ≡ true → has lv.live_in x ≡ true
      update-unchanged_at a b = update-unchanged lv out a x b

  -- A segment before the one of the round is queued if the inflow changed.
  queued_before :
      (k : ℕ) (lk : LiveVariables)
      → get m k ≡ some lk
      → has lk.segment.next_segments current ≡ true
      → has work' k ≡ false
      → (update lv out).1 ≡ false
  queued_before k lk e n off =
      let (lv0, p, s, gs, ks) = inv.same current lv found in
      let (lk0, p', s', gs', ks') = inv.same k lk e in
      let back = g.agree k current lk0 lv0 p' p (ground arith) in
      ground (arith, has-reverse_aux lv.segment.prev_segments rest k)

  -- The same for the outflow.
  out_next :
      (x j : ℕ) (lj : LiveVariables)
      → has lv.segment.next_segments j ≡ true
      → get m j ≡ some lj
      → has lj.live_in x ≡ true
      → has (update lv out).0.live_out x ≡ true
  out_next x j lj n e h =
      rw (update-live_out lv out)
        (gather_complete m lv.segment.next_segments out x j lj gathered n e h)

  Settled-current : has work' current ≡ false → Settled m' (update lv out).0
  Settled-current off = record {
    reads = λ x h.
        ground (arith, has-update lv out x, has-flow lv out x, update-static lv out, reads_at x);
    flows = λ x j lj n e h clear.
        let n' : has lv.segment.next_segments j ≡ true = ground (arith, update-static lv out) in
        let c' : has lv.kill x ≡ false = ground (arith, update-static lv out) in
        elim (cases_next m0 g m current rest inv lv found out gathered j lj e) [
          | inl (at, is) ↦
              let n'' : has lv.segment.next_segments current ≡ true = cc in
              in_next x current lv n'' found
                (ground (arith, has-update lv out x, queued_before current lv found n'' off)) c'
          | inr (away, old) ↦ in_next x j lj n' old h c'
        ];
    outs = λ x j lj n e h.
        let n' : has lv.segment.next_segments j ≡ true = ground (arith, update-static lv out) in
        elim (cases_next m0 g m current rest inv lv found out gathered j lj e) [
          | inl (at, is) ↦
              let n'' : has lv.segment.next_segments current ≡ true = cc in
              out_next x current lv n'' found
                (ground (arith, has-update lv out x, queued_before current lv found n'' off))
          | inr (away, old) ↦ out_next x j lj n' old h
        ];
  }
    where
      reads_at :
          (x : ℕ) → (update lv out).1 ≡ false → has (flow lv out) x ≡ true → has lv.live_in x ≡ true
      reads_at x a b = update-unchanged lv out a x b

  Settled-other :
      (k : ℕ) (lk : LiveVariables)
      → get m k ≡ some lk
      → has work' k ≡ false
      → Settled m lk
      → Settled m' lk
  Settled-other k lk old off s = record {
    reads = s.reads;
    flows = λ x j lj n e h clear.
        elim (cases_next m0 g m current rest inv lv found out gathered j lj e) [
          | inl (at, is) ↦
              let n' : has lk.segment.next_segments current ≡ true = cc in
              s.flows x current lv n' found
                (ground (arith, has-update lv out x, queued_before k lk old n' off)) clear
          | inr (away, before) ↦ s.flows x j lj n before h clear
        ];
    outs = λ x j lj n e h. elim (cases_next m0 g m current rest inv lv found out gathered j lj e) [
      | inl (at, is) ↦
          let n' : has lk.segment.next_segments current ≡ true = cc in
          s.outs x current lv n' found
            (ground (arith, has-update lv out x, queued_before k lk old n' off))
      | inr (away, before) ↦ s.outs x j lj n before h
    ];
  }

  Settled-next :
      (k : ℕ) (lk : LiveVariables) → get m' k ≡ some lk → (has work' k ≡ true) ⊎ Settled m' lk
  Settled-next k lk e = elim (Bool-cases (has work' k)) [
    | inl queued ↦ inl queued
    | inr off ↦ elim (cases_next m0 g m current rest inv lv found out gathered k lk e) [
      | inl (at, is) ↦ inr (subst (Settled m') (sym is) (Settled-current (cc)))
      | inr (away, old) ↦ elim (inv.settled k lk old) [
        | inl waiting ↦ absurd (ground (arith, has-reverse_aux lv.segment.prev_segments rest k))
        | inr s ↦ inr (Settled-other k lk old off s)
      ]
    ]
  ]

  pub Inv-next : Inv m0 m' work'
  Inv-next = record {
    same = same_next;
    same_references = same_references_next;
    distinct = put-IsDistinct m current (update lv out).0 inv.distinct;
    kept = kept_next;
    listed = listed_next;
    sound = sound_next;
    backed = Backed-next;
    settled = Settled-next;
  }
