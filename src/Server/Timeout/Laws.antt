-- ===== src/Server/Timeout/Laws.antt =====
-- When the function of the timeout of src/routing/timeout can run.
use sonar_js.Prelude.{
  ℕ, ◌≡◌, refl, ◌∙◌, ap, Bool, true, false, none, some, List, [], ◌∷◌, ◌⊎◌, inl, inr, has,
  set_delete, arith, Option-cases,
}
use sonar_js.Server.Timeout.{
  Timers, IsTimers, Timeout, stop, stop_timer, start, timeout_middleware, Reachable, built, request,
  finish, stopped, fires,
}

deleted : (xs : List ℕ) (x y : ℕ) → xs ≡ x ∷ [] → has xs y ≡ true → set_delete xs y ≡ []
deleted xs x y e h = rw (e) (ground (arith, rw (e) at h))

module _ {T : Type 0} (timers : Timers T) (laws : IsTimers timers) where
  -- Nothing is pending, or no request is being answered and just the timer that `stop` clears is.
  pub Single : Bool → Timeout T → Type 0
  Single answering s =
      (timers.pending s.node ≡ [])
      ⊎ ((answering ≡ false)
          × (timer : ℕ) × (s.timeout ≡ some timer)
          × (timers.pending s.node ≡ timer ∷ []))

  stop-clears :
      (answering : Bool) (s : Timeout T)
      → Single answering s
      → timers.pending (stop timers s).node ≡ []
  unfolding stop stop_timer Single
  stop-clears answering s (inl nothing) = elim (Option-cases s.timeout) [
    | inl no_timer ↦ rw (no_timer) nothing
    | inr (timer, e) ↦ rw (e) (laws.clears s.node timer ∙ ap (λ l. set_delete l timer) nothing)
  ]
  stop-clears answering s (inr (idle, timer, e, one)) =
      rw (e) (laws.clears s.node timer ∙ ap (λ l. set_delete l timer) one ∙ ground arith)

  start-Single :
      (s : Timeout T) → timers.pending (stop timers s).node ≡ [] → Single false (start timers s)
  unfolding start Single
  start-Single s nothing =
      let node = (stop timers s).node in
      inr (
        refl,
        (timers.set_timeout node).0,
        refl,
        laws.sets node ∙ ap (λ l. (timers.set_timeout node).0 ∷ l) nothing,
      )

  -- Whatever requests come, as long as they do not overlap: at most one timer is pending, it is the
  -- one that `stop` clears, and while a request is being answered none is. So the function never
  -- runs during a request.
  pub Reachable-Single :
      (answering : Bool) (s : Timeout T) → Reachable timers answering s → Single answering s
  unfolding timeout_middleware stop stop_timer Single
  Reachable-Single answering s (built node nothing) =
      start-Single (record { timeout = none; node = node }) nothing
  Reachable-Single answering s (request before r) =
      inl (stop-clears false before (Reachable-Single false before r))
  Reachable-Single answering s (finish before r) =
      start-Single before (stop-clears true before (Reachable-Single true before r))
  Reachable-Single answering s (stopped b before r) =
      inl (stop-clears b before (Reachable-Single b before r))
  Reachable-Single answering s (fires b before timer r h) = elim (Reachable-Single b before r) [
    | inl nothing ↦ inl (laws.expires before.node timer ∙ ap (λ l. set_delete l timer) nothing)
    | inr (idle, armed, e, one) ↦
        inl
          (laws.expires before.node timer ∙ deleted (timers.pending before.node) armed timer one h)
  ]
