-- ===== src/Linter/QuickFixes.antt =====
-- Quick fixes: quickfixes/*.ts.
mod Laws
mod Tests
use Prim.Native.String.{String}
use text.Mathlib.Text.{◌==◌ as str_eq}
use sonar_js.Prelude.{
  ℕ, Bool, true, false, ◌||◌, ◌&&◌, not, Option, none, some, List, [], ◌∷◌, ◌++◌, map,
  if◌then◌else◌, Text,
}
use sonar_js.Metrics.Ast.{Position, includes}
use sonar_js.Linter.Results.{Result, ok, throw, ◌>>=◌, missing_quick_fix_message}

-- `quickFixMessages`
pub quick_fix_messages : List (String × String)
quick_fix_messages =
    ("comma-dangle", "Remove this trailing comma")
    ∷ ("eol-last", "Add a new line at the end of file")
    ∷ ("no-extra-semi", "Remove extra semicolon")
    ∷ ("no-trailing-spaces", "Remove trailing space")
    ∷ ("no-var", "Replace 'var' with 'let'")
    ∷ ("object-shorthand", "Use shorthand property")
    ∷ ("prefer-const", "Replace with 'const'")
    ∷ ("prefer-template", "Replace with template string literal")
    ∷ ("quotes", "Fix quotes")
    ∷ ("radix", "Add 10 as radix")
    ∷ ("semi", "Add semicolon")
    ∷ ("prefer-immediate-return", "Return value immediately")
    ∷ ("prefer-while", "Replace with 'while' loop")
    ∷ ("no-empty-interface", "Replace with type alias")
    ∷ ("no-inferrable-types", "Remove type declaration")
    ∷ ("no-unnecessary-type-arguments", "Remove type argument")
    ∷ ("no-unnecessary-type-assertion", "Remove type assertion")
    ∷ ("prefer-namespace-keyword", "Replace with 'namespace' keyword")
    ∷ ("prefer-readonly", "Add 'readonly'")
    ∷ ("no-non-null-assertion", "Replace with optional chaining '.?'")
    ∷ []

lookup : List (String × String) → String → Option String
lookup [] key = none
lookup ((k, v) ∷ entries) key = if str_eq k key then some v else lookup entries key

message_or_throw : Option String → Result String
message_or_throw none = throw missing_quick_fix_message
message_or_throw (some message) = ok message

-- `getQuickFixMessage`
pub get_quick_fix_message : String → Result String
unfolding message_or_throw
get_quick_fix_message rule_key = message_or_throw (lookup quick_fix_messages rule_key)

-- `quickFixRules`
pub quick_fix_rules : List String
quick_fix_rules =
    "comma-dangle" ∷ "eol-last" ∷ "no-extra-semi" ∷ "no-trailing-spaces" ∷ "no-unsafe-negation"
    ∷ "no-var" ∷ "object-shorthand" ∷ "prefer-const" ∷ "prefer-regex-literals" ∷ "prefer-template"
    ∷ "quotes" ∷ "radix" ∷ "semi" ∷ "no-dupe-keys" ∷ "no-duplicate-imports" ∷ "no-empty"
    ∷ "no-empty-function" ∷ "no-throw-literal" ∷ "no-unreachable" ∷ "use-isnan"
    ∷ "no-collection-size-mischeck" ∷ "no-inverted-boolean-check" ∷ "no-redundant-jump"
    ∷ "non-existent-operator" ∷ "prefer-immediate-return" ∷ "prefer-single-boolean-return"
    ∷ "prefer-while" ∷ "no-empty-interface" ∷ "no-explicit-any" ∷ "no-inferrable-types"
    ∷ "no-unnecessary-type-arguments" ∷ "no-unnecessary-type-assertion" ∷ "prefer-namespace-keyword"
    ∷ "prefer-readonly" ∷ "no-non-null-assertion" ∷ "prefer-for-of" ∷ "different-types-comparison"
    ∷ "inverted-assertion-arguments" ∷ "no-alphabetical-sort" ∷ "no-commented-code"
    ∷ "no-duplicate-in-composite" ∷ "no-exclusive-tests" ∷ "no-global-this" ∷ "no-in-misuse"
    ∷ "no-primitive-wrappers" ∷ "no-redundant-optional" ∷ "no-redundant-parentheses"
    ∷ "no-undefined-argument" ∷ "no-unthrown-error" ∷ "no-unused-function-argument"
    ∷ "prefer-promise-shorthand" ∷ "prefer-type-guard" ∷ "unused-import" ∷ []

-- the location of an edit
pub record EditLocation : Type 0 where
  pub line : ℕ
  pub column : ℕ
  pub end_line : ℕ
  pub end_column : ℕ

pub record QuickFixEdit : Type 0 where
  pub loc : EditLocation
  pub text : Text

pub record QuickFix : Type 0 where
  pub message : String
  pub edits : List QuickFixEdit

-- ESLint's `Rule.Fix`, its range from `start` to `end`
pub record Fix : Type 0 where
  pub start : ℕ
  pub end : ℕ
  pub text : Text

pub record Suggestion : Type 0 where
  pub desc : String
  pub fix : Fix

-- ESLint's `Linter.LintMessage`. An empty rule id is as falsy as a missing one.
pub record LintMessage : Type 0 where
  pub rule_id : Option String
  pub line : ℕ
  pub column : ℕ
  pub end_line : Option ℕ
  pub end_column : Option ℕ
  pub message : Text
  pub fix : Option Fix
  pub suggestions : Option (List Suggestion)

-- `message.ruleId`, if it is truthy
unfoldable pub truthy : Option String → Option String
truthy none = none
truthy (some id) = if str_eq id "" then none else some id

unfoldable pub suggested : Option (List Suggestion) → List Suggestion
suggested none = []
suggested (some suggestions) = suggestions

-- the first test of `hasQuickFix`
has_some : Option Fix → List Suggestion → Bool
has_some (some fix) suggestions = true
has_some none [] = false
has_some none (s ∷ suggestions) = true

-- `hasQuickFix`
unfoldable pub has_quick_fix : LintMessage → Bool
unfolding suggested truthy has_some
has_quick_fix m =
    has_some m.fix (suggested m.suggestions)
    && elim (truthy m.rule_id) [ none ↦ false | some id ↦ includes quick_fix_rules id ]

-- `fixToEdit`; `getLocFromIndex` of the source code is the argument
pub fix_to_edit : (ℕ → Position) → Fix → QuickFixEdit
fix_to_edit loc_from_index fix =
    let start_pos = loc_from_index fix.start in
    let end_pos = loc_from_index fix.end in
    record {
      loc = record {
        line = start_pos.line;
        column = start_pos.column;
        end_line = end_pos.line;
        end_column = end_pos.column;
      };
      text = fix.text;
    }

pub from_suggestion : (ℕ → Position) → Suggestion → QuickFix
from_suggestion loc_from_index s = record {
  message = s.desc;
  edits = fix_to_edit loc_from_index s.fix ∷ [];
}

-- the quick fix of `message.fix`, if there is one
from_fix : (ℕ → Position) → Option String → Option Fix → Result (List QuickFix)
from_fix loc_from_index rule_id none = ok []
from_fix loc_from_index none (some fix) = throw missing_quick_fix_message
from_fix loc_from_index (some id) (some fix) = do
  message ← get_quick_fix_message id
  ok (record { message = message; edits = fix_to_edit loc_from_index fix ∷ [] } ∷ [])

-- the body of `transformFixes` behind its guard
all_fixes : (ℕ → Position) → LintMessage → Result (List QuickFix)
unfolding from_fix
all_fixes loc_from_index m = do
  fixes ← from_fix loc_from_index m.rule_id m.fix
  ok (fixes ++ map (from_suggestion loc_from_index) (suggested m.suggestions))

-- `transformFixes`
unfoldable pub transform_fixes : (ℕ → Position) → LintMessage → Result (List QuickFix)
unfolding all_fixes
transform_fixes loc_from_index m = if has_quick_fix m then all_fixes loc_from_index m else ok []
