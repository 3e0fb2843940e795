-- ===== src/Dataflow/DeadStore/Events/Tests.antt =====
-- A run of the rule on dead stores: `x = f(); x = g(); x;` in one segment of a function.
use sonar_js.Prelude.{
  ℕ, false, none, some, List, [], ◌∷◌, ◌≡◌, refl, ltb, arith, All, subst, codes, inl, inr,
}
use sonar_js.Dataflow.Lva.{Segment, Reference, new_live_variables, add, add_reference}
use sonar_js.Dataflow.DeadStore.Scopes.{
  Variable, other_block, Occurrence, Scope, identifier_node, resolve_reference,
  resolve_reference_recursively, resolve_in, find_reference, find_declared, is_enum_constant,
}
use sonar_js.Dataflow.DeadStore.Events.{
  step, push_context, on_code_path_segment_start, push_assignment_context, pop_assignment_context,
  pop_from, process_references, process_reference, process_in, in_assignment, add_to_side,
  add_to_segments, lva_for_segment, check_identifier_usage, usage_of, read_of,
  update_read_variables, update_variable_usages, add_usage, pop_context, tail, State, Event,
  assignment_start, assignment_end, identifier_met, segment_start, path_start, path_end, run,
  initial,
}
use sonar_js.Dataflow.Lva.Graph.{enough}
use sonar_js.Dataflow.DeadStore.Reads.{IsUnread}
use sonar_js.Dataflow.DeadStore.Check.{program_exit}
use sonar_js.Dataflow.DeadStore.Events.Invariant.{Holds}
use sonar_js.Dataflow.DeadStore.Events.Steps.{Invariant}
use sonar_js.Dataflow.DeadStore.Events.Reached.{IsCoherent, run-Invariant, initial-Invariant}
use sonar_js.Dataflow.DeadStore.Events.Retained.{Held}
use sonar_js.Dataflow.DeadStore.Events.Arrivals.{AllOrderly, MeetsAny}
use sonar_js.Dataflow.DeadStore.Events.Lossless.{run-Held}
use sonar_js.Dataflow.DeadStore.Correct.{IsLinked, program_exit-reports}

abbrev segment : Segment
segment = record { id = 1; next_segments = []; prev_segments = [] }

-- references 10 and 11 write variable 3, the others read it
abbrev object : ℕ → Reference
object n = record { identifier = n; resolved = some 3; is_read = ltb 11 n; is_write = ltb n 12 }

abbrev occurrence : ℕ → Occurrence
occurrence n = record {
  init = false;
  write_expr = none;
  node = record { id = n; node_type = identifier_node };
  parents = [];
}

abbrev variable : ℕ → Variable
variable n = record { id = n; name = codes "x"; block = other_block; defs = [] }

abbrev scopes : List Scope
scopes =
    record { references = object 10 ∷ object 11 ∷ object 12 ∷ []; variables = variable 3 ∷ [] } ∷ []

abbrev events : List Event
events =
    path_start 5
    ∷ segment_start segment
    ∷ assignment_start 10 20
    ∷ identifier_met 10 [] scopes (segment ∷ [])
    ∷ assignment_end (segment ∷ [])
    ∷ assignment_start 11 21
    ∷ identifier_met 11 [] scopes (segment ∷ [])
    ∷ assignment_end (segment ∷ [])
    ∷ identifier_met 12 [] scopes (segment ∷ [])
    ∷ path_end
    ∷ []

abbrev last : State
last = record {
  code_path_stack = [];
  live_variables_map =
      (
        1,
        record {
          segment = segment;
          gen = 3 ∷ [];
          kill = 3 ∷ [];
          live_in = [];
          live_out = [];
          references = object 10 ∷ object 11 ∷ object 12 ∷ [];
        },
      )
      ∷ [];
  read_variables = 3 ∷ [];
  variable_usages = (3, 5 ∷ []) ∷ [];
  references_used_in_destructuring = [];
  destructuring_stack = [];
}

run_lem : run occurrence events initial ≡ some last
unfolding run step push_context on_code_path_segment_start push_assignment_context
    pop_assignment_context pop_from process_references process_reference process_in in_assignment
    add_to_side add_to_segments lva_for_segment check_identifier_usage usage_of read_of
    update_read_variables update_variable_usages add_usage pop_context tail initial
    resolve_reference resolve_reference_recursively resolve_in find_reference find_declared
    is_enum_constant new_live_variables add add_reference
run_lem = refl

named : (n : ℕ) (ref : Reference) → some (object n) ≡ some ref → object ref.identifier ≡ ref
named n ref e = let q : object n ≡ ref = cc in subst (λ r. object r.identifier ≡ r) q refl

coherent : All (IsCoherent occurrence object) events
unfolding resolve_reference resolve_reference_recursively resolve_in find_reference find_declared
coherent = (tt, (tt, (tt, (named 10, (tt, (tt, (named 11, (tt, (named 12, (tt, tt))))))))))

linked : IsLinked last.live_variables_map
linked = record {
  nexts = λ k j lv e h. ground arith;
  prevs = λ k j lv e h. ground arith;
  agree = λ k j lv lj e f h. ground arith;
}

program_exit-reports_example :
    (reports : List Reference) × (program_exit occurrence variable last
        (enough last.live_variables_map)
      ≡ some reports)
    × All (IsUnread last.live_variables_map) reports
program_exit-reports_example =
    program_exit-reports occurrence variable object events last coherent run_lem linked

run-Invariant_example : Holds (Invariant occurrence object) (run occurrence events initial)
run-Invariant_example =
    run-Invariant occurrence object events initial coherent (initial-Invariant occurrence object)

orderly : AllOrderly occurrence events initial
unfolding step push_context on_code_path_segment_start push_assignment_context
    pop_assignment_context pop_from process_references process_reference process_in in_assignment
    add_to_side add_to_segments lva_for_segment check_identifier_usage usage_of read_of
    update_read_variables update_variable_usages add_usage pop_context tail initial
    resolve_reference resolve_reference_recursively resolve_in find_reference find_declared
    is_enum_constant new_live_variables add add_reference
orderly = (tt, (refl, (tt, (tt, (tt, (tt, (tt, (tt, (tt, (refl, tt))))))))))

-- the third event behind the first meets the reference 10
met : MeetsAny 10 events
unfolding is_enum_constant resolve_reference resolve_reference_recursively resolve_in find_reference
    find_declared
met = inr (inr (inr (inl (refl, object 10, refl, refl))))

run-Held_example : Holds (Held 10) (run occurrence events initial)
run-Held_example =
    run-Held occurrence object 10 3 refl events initial coherent orderly
      (initial-Invariant occurrence object) (inr met)
