-- ===== src/Server/Timeout.antt =====
-- The timeout of an idle server: src/routing/timeout/{timeout,middleware}.ts. The timers are those
-- of Node.js and an argument: `Timers`, with what is documented of them in `IsTimers`.
mod Laws
mod Tests
use sonar_js.Prelude.{
  ℕ, ◌≡◌, Bool, true, false, not, Option, none, some, List, [], ◌∷◌, has, set_delete, if◌then◌else◌,
}

-- `setTimeout` and `clearTimeout`, what happens when a timer expires, and the timers that will
-- still run their function
pub record Timers (T : Type 0) : Type 0 where
  pub set_timeout : T → ℕ × T
  pub clear_timeout : ℕ → T → T
  pub expire : ℕ → T → T
  pub pending : T → List ℕ

-- A new timer is pending beside the others; a timer that is cleared or has expired is not.
pub record IsTimers {T : Type 0} (timers : Timers T) : Type 0 where
  pub sets :
      (t : T)
      → timers.pending ((timers.set_timeout t).1) ≡ (timers.set_timeout t).0 ∷ timers.pending t
  pub clears :
      (t : T) (timer : ℕ)
      → timers.pending (timers.clear_timeout timer t) ≡ set_delete (timers.pending t) timer
  pub expires :
      (t : T) (timer : ℕ)
      → timers.pending (timers.expire timer t) ≡ set_delete (timers.pending t) timer

-- `Timeout`, with the state of the timers
pub record Timeout (T : Type 0) : Type 0 where
  pub timeout : Option ℕ
  pub node : T

module _ {T : Type 0} (timers : Timers T) where
  stop_timer : Option ℕ → T → Timeout T
  stop_timer none node = record { timeout = none; node = node }
  stop_timer (some timer) node = record { timeout = none; node = timers.clear_timeout timer node }

  -- `stop`
  pub stop : Timeout T → Timeout T
  unfolding stop_timer
  stop s = stop_timer s.timeout s.node

  -- `start`
  pub start : Timeout T → Timeout T
  unfolding stop
  start s =
      let stopped = stop s in
      let armed = timers.set_timeout stopped.node in
      record { timeout = some armed.0; node = armed.1 }

  -- the constructor, then the `start` of `timeoutMiddleware`
  pub timeout_middleware : T → Timeout T
  unfolding start
  timeout_middleware node = start (record { timeout = none; node = node })

  -- The states of a server whose requests do not overlap; the flag is that one is being answered.
  -- A timer that expires runs the function, and `timeout` keeps its number.
  pub data Reachable : Bool → Timeout T → Type 0 where
    built : (node : T) → timers.pending node ≡ [] → Reachable false (timeout_middleware node)
    request : (s : Timeout T) → Reachable false s → Reachable true (stop s)
    finish : (s : Timeout T) → Reachable true s → Reachable false (start s)
    stopped : (b : Bool) (s : Timeout T) → Reachable b s → Reachable b (stop s)
    fires :
        (b : Bool) (s : Timeout T) (timer : ℕ)
        → Reachable b s
        → has (timers.pending s.node) timer ≡ true
        → Reachable b (record s { node = timers.expire timer s.node })
