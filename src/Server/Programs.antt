-- ===== src/Server/Programs.antt =====
-- The store of TypeScript programs: src/services/program/program.ts. What a program is comes from
-- the compiler and is an argument. An identifier is the count that the code turns into a string.
mod Laws
mod Tests
use sonar_js.Prelude.{
  ℕ, ◌+◌, ◌≤◌, ◌≡◌, Option, none, some, List, [], ◌∷◌, Keyed, get, put, if◌then◌else◌, ◌==◌,
}

-- `programs` and `programCount`
pub record Store (P : Type 0) : Type 0 where
  pub programs : Keyed P
  pub program_count : ℕ

module _ {P : Type 0} where
  -- `Map.prototype.delete`, on a map that has no key twice
  pub remove : Keyed P → ℕ → Keyed P
  remove [] k = []
  remove ((j, v) ∷ m) k = let rest = remove m k in if j == k then rest else (j, v) ∷ rest

  -- the module when it is loaded
  pub initial : Store P
  initial = record { programs = []; program_count = 0 }

  -- `nextId`: the identifier, and the store with the count
  pub next_id : Store P → ℕ × Store P
  next_id s = (s.program_count + 1, record s { program_count = s.program_count + 1 })

  -- `getProgramById`; `none` where it throws
  unfoldable pub get_program_by_id : Store P → ℕ → Option P
  get_program_by_id s program_id = get s.programs program_id

  -- `createProgram` once the compiler has made the program: the identifier and the store
  pub create_program : Store P → P → ℕ × Store P
  unfolding next_id
  create_program s program =
      let next = next_id s in
      (next.0, record (next.1) { programs = put (next.1).programs next.0 program })

  -- `deleteProgram`
  pub delete_program : Store P → ℕ → Store P
  unfolding remove
  delete_program s program_id = record s { programs = remove s.programs program_id }

  -- the stores that requests lead to
  pub data Reachable : Store P → Type 0 where
    loaded : Reachable initial
    created : (s : Store P) (program : P) → Reachable s → Reachable (create_program s program).1
    deleted : (s : Store P) (program_id : ℕ) → Reachable s → Reachable (delete_program s program_id)
