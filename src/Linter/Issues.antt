-- ===== src/Linter/Issues.antt =====
-- Issues from ESLint's messages: issues/{issue,message,decode,extract,transform}.ts and the
-- encoding of secondary locations in rules/helpers/location.ts. `JSON` and `Number` are arguments.
mod Laws
mod Encoding
mod EncodingTests
pub mod Transform
use Prim.Native.String.{String}
use text.Mathlib.Text.{◌==◌ as str_eq}
use sonar_js.Prelude.{
  ℕ, zero, suc, Bool, true, false, Option, none, some, List, [], ◌∷◌, ◌++◌, if◌then◌else◌, Text,
  get_elem?,
}
use sonar_js.Metrics.Ast.{Position, SourceLocation}
use sonar_js.Metrics.Symbols.{SymbolHighlight}
use sonar_js.Linter.Results.{
  Result, ok, throw, ◌>>=◌, bad_encoded_message, bad_symbols, no_location,
}
use sonar_js.Linter.Rules.{RuleModule, has_sonar_runtime_option}
use sonar_js.Linter.QuickFixes.{LintMessage, QuickFix, transform_fixes, truthy}

-- Columns can go below zero.
pub data ℤ : Type 0 where
  pos : ℕ → ℤ
  negsuc : ℕ → ℤ

pub minus_one : ℤ → ℤ
minus_one (pos zero) = negsuc zero
minus_one (pos (suc n)) = pos n
minus_one (negsuc n) = negsuc (suc n)

-- a secondary location
pub record IssueLocation : Type 0 where
  pub line : ℕ
  pub column : ℕ
  pub end_line : ℕ
  pub end_column : ℕ
  pub message : Option Text

pub record EncodedMessage : Type 0 where
  pub message : Text
  pub cost : Option ℕ
  pub secondary_locations : List IssueLocation

pub record Issue : Type 0 where
  pub rule_id : String
  pub line : ℕ
  pub column : ℤ
  pub end_line : Option ℕ
  pub end_column : Option ℤ
  pub message : Text
  pub cost : Option ℕ
  pub secondary_locations : List IssueLocation
  pub quick_fixes : List QuickFix

-- `toSecondaryLocation`; `none` is a holder without `loc`
pub to_secondary_location : Option SourceLocation → Option Text → Result IssueLocation
to_secondary_location none message = throw no_location
to_secondary_location (some loc) message = ok record {
  line = loc.start.line;
  column = loc.start.column;
  end_line = loc.end.line;
  end_column = loc.end.column;
  message = message;
}

-- `secondaryMessages[index]`, where there are secondary messages
message_at : Option (List (Option Text)) → ℕ → Option Text
message_at none i = none
message_at (some messages) i = elim (get_elem? messages i) [ none ↦ none | some message ↦ message ]

-- the `map` of `toEncodedMessage` from an index on
pub secondaries :
    List (Option SourceLocation) → Option (List (Option Text)) → ℕ → Result (List IssueLocation)
unfolding message_at to_secondary_location
secondaries [] messages i = ok []
secondaries (holder ∷ holders) messages i = do
  location ← to_secondary_location holder (message_at messages i)
  locations ← secondaries holders messages (suc i)
  ok (location ∷ locations)

-- `toEncodedMessage`; `JSON.stringify` is the first argument
pub to_encoded_message :
    (EncodedMessage → Text)
    → Text
    → List (Option SourceLocation)
    → Option (List (Option Text))
    → Option ℕ
    → Result Text
unfolding secondaries
to_encoded_message stringify message holders messages cost = do
  locations ← secondaries holders messages 0
  ok (stringify record { message = message; cost = cost; secondary_locations = locations })

some_column : Option ℕ → Option ℤ
some_column none = none
some_column (some c) = some (pos c)

-- the object that `convertMessage` returns
issue_with : LintMessage → String → List QuickFix → Issue
unfolding some_column
issue_with m rule_id fixes = record {
  rule_id = rule_id;
  line = m.line;
  column = pos m.column;
  end_line = m.end_line;
  end_column = some_column m.end_column;
  message = m.message;
  cost = none;
  secondary_locations = [];
  quick_fixes = fixes;
}

convert_with : (ℕ → Position) → LintMessage → Option String → Result (Option Issue)
unfolding transform_fixes issue_with
convert_with loc_from_index m none = ok none
convert_with loc_from_index m (some rule_id) = do
  fixes ← transform_fixes loc_from_index m
  ok (some (issue_with m rule_id fixes))

-- `convertMessage`
pub convert_message : (ℕ → Position) → LintMessage → Result (Option Issue)
unfolding convert_with truthy
convert_message loc_from_index m = convert_with loc_from_index m (truthy m.rule_id)

-- `{ ...issue, ...encodedMessage }`; an absent cost leaves the issue's
spread : Issue → EncodedMessage → Issue
spread issue encoded = record issue {
  message = encoded.message;
  cost = elim encoded.cost [ none ↦ issue.cost | some cost ↦ some cost ];
  secondary_locations = encoded.secondary_locations;
}

parsed : Issue → Option EncodedMessage → Result Issue
unfolding spread
parsed issue none = throw bad_encoded_message
parsed issue (some encoded) = ok (spread issue encoded)

-- `decodeSonarRuntime`; `JSON.parse` is the first argument, `none` where it throws
pub decode_sonar_runtime : (Text → Option EncodedMessage) → Option RuleModule → Issue → Result Issue
unfolding parsed has_sonar_runtime_option
decode_sonar_runtime parse rule_module issue =
    if has_sonar_runtime_option rule_module then parsed issue (parse issue.message) else ok issue

-- a column that is falsy stays
normalize_end : Option ℤ → Option ℤ
unfolding minus_one
normalize_end none = none
normalize_end (some (pos zero)) = some (pos zero)
normalize_end (some (pos (suc n))) = some (minus_one (pos (suc n)))
normalize_end (some (negsuc n)) = some (minus_one (negsuc n))

-- `normalizeLocation`
pub normalize_location : Issue → Issue
unfolding normalize_end minus_one
normalize_location issue = record issue {
  column = minus_one issue.column;
  end_column = normalize_end issue.end_column;
}

-- `findAndRemoveFirstIssue`: the issue, and the issues that are left
pub find_and_remove_first_issue : List Issue → String → Option Issue × List Issue
find_and_remove_first_issue [] rule_id = (none, [])
find_and_remove_first_issue (issue ∷ issues) rule_id =
    let rest = find_and_remove_first_issue issues rule_id in
    if str_eq issue.rule_id rule_id then (some issue, issues) else (rest.0, issue ∷ rest.1)
