-- ===== src/Server/Linters/Laws.antt =====
-- Which linter a request gets.
use Prim.Native.String.{String}
use text.Mathlib.Text.{◌==◌ as str_eq}
use sonar_js.Prelude.{
  ℕ, ◌≡◌, refl, ap, ◌∙◌, ◌⊎◌, inl, inr, Bool, true, false, Option, none, some, List, [], ◌∷◌, ◌++◌,
  codes, if◌then◌else◌, Option-cases,
}
use sonar_js.Linter.Properties.{get_property, get-set}
use sonar_js.Linter.Config.{Context, RuleConfig, create_config}
use sonar_js.Server.Errors.{api_error, linter_error}
use sonar_js.Server.Outcome.{returned, thrown, Finished}
use sonar_js.Server.Linters.{
  Eslint, LinterWrapper, Linters, or_default, or_empty, linter_wrapper, initialize_linter,
  linter_or_throw, get_linter,
}

-- the body of a request to initialize a linter
pub record InitRequest (V : Type 0) : Type 0 where
  pub input_rules : List (RuleConfig V)
  pub environments : Option (List String)
  pub globals : Option (List String)
  pub linter_id : Option String

module _ {V : Type 0} where
  later_or : Option (InitRequest V) → Option (InitRequest V) → Option (InitRequest V)
  later_or none first = first
  later_or (some later) first = some later

  -- the last of the requests for a linter
  pub last_for : String → List (InitRequest V) → Option (InitRequest V)
  unfolding later_or
  last_for id [] = none
  last_for id (r ∷ requests) =
      later_or (last_for id requests) (if str_eq (or_default r.linter_id) id then some r else none)

  linter_or_throw-Finished :
      (id : List ℕ) (found : Option (LinterWrapper V)) → Finished (linter_or_throw id found)
  unfolding linter_or_throw
  linter_or_throw-Finished id none = record {}
  linter_or_throw-Finished id (some wrapper) = record {}

  pub get_linter-Finished :
      (linters : Linters V) (id : Option String) → Finished (get_linter linters id)
  unfolding get_linter
  get_linter-Finished linters id =
      linter_or_throw-Finished (codes (or_default id)) (get_property linters (or_default id))

module _ {V : Type 0} (eslint : Eslint V) (context : Context) where
  pub initialize_all : Linters V → List (InitRequest V) → Linters V
  initialize_all linters [] = linters
  initialize_all linters (r ∷ requests) =
      initialize_all
        (initialize_linter eslint context linters r.input_rules r.environments r.globals
          r.linter_id)
        requests

  pub wrapper_for : InitRequest V → LinterWrapper V
  wrapper_for r = record {
    config =
        create_config context eslint.rules r.input_rules (or_empty r.environments)
          (or_empty r.globals);
  }

  found_after : Option (LinterWrapper V) → Option (InitRequest V) → Option (LinterWrapper V)
  found_after before none = before
  found_after before (some r) = some (wrapper_for r)

  found_after-later :
      (before : Option (LinterWrapper V)) (r : InitRequest V) (later : Option (InitRequest V))
      (b : Bool)
      → found_after (if b then some (wrapper_for r) else before) later
        ≡ found_after before (later_or later (if b then some r else none))
  unfolding found_after later_or
  found_after-later before r (some later) b = refl
  found_after-later before r none true = refl
  found_after-later before r none false = refl

  initialized :
      (linters : Linters V) (r : InitRequest V) (id : String)
      → get_property
          (initialize_linter eslint context linters r.input_rules r.environments r.globals
            r.linter_id)
          id
        ≡ (if str_eq (or_default r.linter_id) id
            then some (wrapper_for r)
            else get_property linters id)
  unfolding initialize_linter linter_wrapper wrapper_for
  initialized linters r id = get-set linters (or_default r.linter_id) (wrapper_for r) id

  initialize_all-found :
      (linters : Linters V) (requests : List (InitRequest V)) (id : String)
      → get_property (initialize_all linters requests) id
        ≡ found_after (get_property linters id) (last_for id requests)
  unfolding initialize_all last_for found_after
  initialize_all-found linters [] id = refl
  initialize_all-found linters (r ∷ requests) id =
      initialize_all-found
        (initialize_linter eslint context linters r.input_rules r.environments r.globals
          r.linter_id)
        requests id
      ∙ ap (λ before. found_after before (last_for id requests)) (initialized linters r id)
      ∙ found_after-later (get_property linters id) r (last_for id requests)
          (str_eq (or_default r.linter_id) id)

  -- After any requests for initialization a linter has the configuration that is made of the last
  -- request for its identifier, where a missing identifier is `default`; without a request for it,
  -- `getLinter` throws a linter error that names it.
  pub get_linter_lem :
      (requests : List (InitRequest V)) (id : Option String)
      → ((last_for (or_default id) requests ≡ none)
          × (get_linter (initialize_all [] requests) id
              ≡ thrown (
                  api_error (
                    linter_error (
                      codes "Linter "
                      ++ codes (or_default id)
                      ++ codes " does not exist. Did you call /init-linter?")))))
        ⊎ ((r : InitRequest V) × (last_for (or_default id) requests ≡ some r)
            × (get_linter (initialize_all [] requests) id ≡ returned (wrapper_for r)))
  unfolding get_linter found_after linter_or_throw
  get_linter_lem requests id =
      let found = initialize_all-found [] requests (or_default id) in
      elim (Option-cases (last_for (or_default id) requests)) [
        | inl e ↦ inl (e, rw (found, e) refl)
        | inr (r, e) ↦ inr (r, e, rw (found, e) refl)
      ]
