-- ===== src/Server/Programs/Tests.antt =====
-- A store where a program is deleted before the next one is created.
use sonar_js.Prelude.{ℕ, ◌≡◌, none, some, if◌then◌else◌, ◌==◌}
use sonar_js.Server.Programs.{
  Store, initial, get_program_by_id, create_program, delete_program, Reachable, loaded, created,
  deleted,
}
use sonar_js.Server.Programs.Laws.{programs_lem}

abbrev store : Store ℕ
store = delete_program ((create_program initial 7).1) 1

store_reachable : Reachable store
store_reachable = deleted _ 1 (created _ 7 loaded)

programs_lem_example :
    (get_program_by_id store (create_program store 8).0 ≡ none)
    × (get_program_by_id (create_program store 8).1 1
        ≡ (if (create_program store 8).0 == 1 then some 8 else get_program_by_id store 1))
    × (get_program_by_id (delete_program store 1) 1
        ≡ (if 1 == 1 then none else get_program_by_id store 1))
programs_lem_example = programs_lem store store_reachable 8 1 1
