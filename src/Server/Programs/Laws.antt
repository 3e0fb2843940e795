-- ===== src/Server/Programs/Laws.antt =====
-- Programs are found under their identifiers until they are deleted.
use sonar_js.Prelude.{
  ℕ, ◌+◌, ◌<◌, ◌≡◌, refl, ◌∙◌, Bool, true, false, Option, none, some, [], ◌∷◌, Keyed, get, get-put,
  if◌then◌else◌, ◌==◌, arith,
}
use sonar_js.Server.Programs.{
  Store, remove, initial, next_id, get_program_by_id, create_program, delete_program, Reachable,
  loaded, created, deleted,
}

module _ {P : Type 0} where
  get-remove : (m : Keyed P) (k j : ℕ) → get (remove m k) j ≡ (if k == j then none else get m j)
  unfolding remove
  get-remove [] k j = ground arith
  get-remove ((i, v) ∷ m) k j = ground (arith, get-remove m k j)

  -- Identifiers above the count are free.
  Counted : Store P → Type 0
  Counted s = (id : ℕ) → s.program_count < id → get s.programs id ≡ none

  Reachable-Counted : (s : Store P) → Reachable s → Counted s
  unfolding Counted initial create_program next_id delete_program
  Reachable-Counted s loaded id above = refl
  Reachable-Counted s (created before program r) id above =
      get-put before.programs (before.program_count + 1) id program
      ∙ rw (apart) (Reachable-Counted before r id (omega (arith, above)))
    where
      apart : (before.program_count + 1 == id) ≡ false
      apart = ground (arith, above)
  Reachable-Counted s (deleted before program_id r) id above =
      get-remove before.programs program_id id
      ∙ either (program_id == id) _ (Reachable-Counted before r id above)
    where
      either : (b : Bool) (o : Option P) → o ≡ none → (if b then none else o) ≡ none
      either true o e = refl
      either false o e = e

  -- Whatever programs were created and deleted before, a new program is found under the identifier
  -- that `createProgram` returns, the identifier was free, and every other identifier leads to what
  -- it led to; after `deleteProgram`, `getProgramById` throws on the identifier, and every other one
  -- leads to what it led to.
  pub programs_lem :
      (s : Store P)
      → Reachable s
      → (program : P) (id deleted_id : ℕ)
      → (get_program_by_id s (create_program s program).0 ≡ none)
        × (get_program_by_id (create_program s program).1 id
            ≡ (if (create_program s program).0 == id then some program else get_program_by_id s id))
        × (get_program_by_id (delete_program s deleted_id) id
            ≡ (if deleted_id == id then none else get_program_by_id s id))
  unfolding get_program_by_id create_program next_id delete_program Counted
  programs_lem s r program id deleted_id = (
    Reachable-Counted s r (s.program_count + 1) (omega arith),
    get-put s.programs (s.program_count + 1) id program,
    get-remove s.programs deleted_id id,
  )
