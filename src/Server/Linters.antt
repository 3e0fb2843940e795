-- ===== src/Server/Linters.antt =====
-- The ESLint wrapper and the linters of the server: src/linting/eslint/index.ts, and `lint` of
-- src/linting/eslint/linter/wrapper.ts. ESLint itself is an argument. A linter identifier is no name
-- of a member of `Object.prototype`, which JavaScript finds in each object.
pub mod Laws
mod Tests
use Prim.Native.String.{String}
use sonar_js.Prelude.{ℕ, Bool, true, false, Option, none, some, List, [], ◌++◌, Text, codes}
use sonar_js.Metrics.Ast.{Position}
use sonar_js.Metrics.Tokens.{SourceCode}
use sonar_js.Metrics.Symbols.{SymbolHighlight}
use sonar_js.Linter.Properties.{Properties, get_property, set_property}
use sonar_js.Linter.Config.{Context, FileType, RuleConfig, LinterConfig, create_config}
use sonar_js.Linter.Rules.{RuleModule}
use sonar_js.Linter.QuickFixes.{LintMessage}
use sonar_js.Linter.Results.{Result, ok, throw, Thrown}
use sonar_js.Linter.Issues.{EncodedMessage}
use sonar_js.Linter.Issues.Transform.{LintingResult, transform_messages}
use sonar_js.Linter.Issues.Transform
use sonar_js.Server.Errors.{Error, api_error, linter_error}
use sonar_js.Server.Outcome.{Outcome, returned, thrown, unfinished, ◌>>=◌}

-- an error with the text of its stack
pub record Exception : Type 0 where
  pub error : Error
  pub stack : Text

-- the configuration that is handed to ESLint, with the type of file among its settings
pub record FileConfig (V : Type 0) : Type 0 where
  pub config : LinterConfig V
  pub file_type : FileType

pub record VerifyOptions : Type 0 where
  pub filename : Text
  pub allow_inline_config : Bool

-- What ESLint and the engine provide: the rules that are defined, `verify`, the location of an
-- index, `JSON.parse`, `Number` and the exception that a failed step of the transformation raises.
pub record Eslint (V : Type 0) : Type 0 where
  pub rules : String → Option RuleModule
  pub verify : SourceCode → FileConfig V → VerifyOptions → Outcome Exception (List LintMessage)
  pub loc_from_index : SourceCode → ℕ → Position
  pub parse_encoded : Text → Option EncodedMessage
  pub parse_symbols : Text → Option (List SymbolHighlight)
  pub number : Text → Option ℕ
  pub exception_of : Thrown → Exception

-- `LinterWrapper`: its configuration for each type of file
pub record LinterWrapper (V : Type 0) : Type 0 where
  pub config : FileType → LinterConfig V

-- `linters`
abbrev pub Linters : Type 0 → Type 0
Linters V = Properties (LinterWrapper V)

unfoldable pub or_default : Option String → String
or_default none = "default"
or_default (some id) = id

pub or_empty : Option (List String) → List String
or_empty none = []
or_empty (some names) = names

unfoldable pub raised : {E A : Type 0} → (Thrown → E) → Result A → Outcome E A
raised exception_of (ok a) = returned a
raised exception_of (throw e) = thrown (exception_of e)

module _ {V : Type 0} (eslint : Eslint V) where
  -- the context of `transformMessages`
  pub transformation : SourceCode → Transform.Context ℕ
  transformation source = record {
    parse_encoded = eslint.parse_encoded;
    parse_symbols = eslint.parse_symbols;
    number = eslint.number;
    loc_from_index = eslint.loc_from_index source;
    rules = eslint.rules;
  }

  pub file_config : LinterWrapper V → FileType → FileConfig V
  file_config wrapper file_type = record {
    config = wrapper.config file_type;
    file_type = file_type;
  }

  -- `LinterWrapper.lint`
  unfoldable pub lint :
      LinterWrapper V → SourceCode → Text → FileType → Outcome Exception (LintingResult ℕ)
  unfolding raised file_config transformation
  lint wrapper source file_path file_type = do
    messages ←
        eslint.verify source (file_config wrapper file_type)
          (record { filename = file_path; allow_inline_config = false })
    raised eslint.exception_of (transform_messages (transformation source) messages)

  -- the constructor of `LinterWrapper`
  pub linter_wrapper : Context → List (RuleConfig V) → List String → List String → LinterWrapper V
  linter_wrapper context input_rules environments globs = record {
    config = create_config context eslint.rules input_rules environments globs;
  }

  -- `initializeLinter`
  pub initialize_linter :
      Context
      → Linters V
      → List (RuleConfig V)
      → Option (List String)
      → Option (List String)
      → Option String
      → Linters V
  unfolding or_default or_empty linter_wrapper
  initialize_linter context linters input_rules environments globs linter_id =
      set_property linters (or_default linter_id)
        (linter_wrapper context input_rules (or_empty environments) (or_empty globs))

module _ {V : Type 0} where
  -- `getLinter`, on what stands under the identifier
  unfoldable pub linter_or_throw : Text → Option (LinterWrapper V) → Outcome Error (LinterWrapper V)
  linter_or_throw id none = thrown (
      api_error (
        linter_error
          (codes "Linter " ++ id ++ codes " does not exist. Did you call /init-linter?")))
  linter_or_throw id (some wrapper) = returned wrapper

  -- `getLinter`
  unfoldable pub get_linter : Linters V → Option String → Outcome Error (LinterWrapper V)
  unfolding or_default linter_or_throw
  get_linter linters linter_id =
      linter_or_throw (codes (or_default linter_id)) (get_property linters (or_default linter_id))
