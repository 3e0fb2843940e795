-- ===== src/Server/Timeout/Tests.antt =====
-- A server that answers a request and is shut down when idle.
use sonar_js.Prelude.{ℕ, suc, refl, false, List, [], ◌∷◌, set_delete}
use sonar_js.Server.Timeout.{
  Timers, IsTimers, Timeout, stop, start, timeout_middleware, Reachable, built, request, finish,
}
use sonar_js.Server.Timeout.Laws.{Single, Reachable-Single}

-- Timers with consecutive numbers, and the list of those that are pending.
abbrev counted : Timers (ℕ × List ℕ)
counted = record {
  set_timeout = λ t. (t.0, (suc t.0, t.0 ∷ t.1));
  clear_timeout = λ timer t. (t.0, set_delete t.1 timer);
  expire = λ timer t. (t.0, set_delete t.1 timer);
  pending = λ t. t.1;
}

counted-IsTimers : IsTimers counted
counted-IsTimers = record { sets = λ t. refl; clears = λ t timer. refl; expires = λ t timer. refl }

abbrev idle : Timeout (ℕ × List ℕ)
idle = start counted (stop counted (timeout_middleware counted (0, [])))

idle_reachable : Reachable counted false idle
idle_reachable = finish _ (request _ (built (0, []) refl))

Reachable-Single_example : Single counted counted-IsTimers false idle
Reachable-Single_example = Reachable-Single counted counted-IsTimers false idle idle_reachable
