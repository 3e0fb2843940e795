-- ===== src/Linter/Issues/Transform.antt =====
-- `transformMessages` of issues/transform.ts with the extractions of issues/extract.ts.
pub mod Laws
mod Outcome
mod Tests
use Prim.Native.String.{String}
use text.Mathlib.Text.{◌==◌ as str_eq}
use sonar_js.Prelude.{
  ℕ, Bool, true, false, Option, none, some, List, [], ◌∷◌, ◌++◌, if◌then◌else◌, Text,
}
use sonar_js.Metrics.Ast.{Position}
use sonar_js.Metrics.Symbols.{SymbolHighlight}
use sonar_js.Linter.Results.{Result, ok, throw, ◌>>=◌, bad_symbols}
use sonar_js.Linter.Rules.{RuleModule}
use sonar_js.Linter.QuickFixes.{LintMessage}
use sonar_js.Linter.Issues.{
  Issue, EncodedMessage, convert_message, decode_sonar_runtime, normalize_location,
  find_and_remove_first_issue,
}

-- `ruleId` of the two internal rules
abbrev pub symbol_highlighting_rule : String
symbol_highlighting_rule = "internal-symbol-highlighting"

abbrev pub cognitive_complexity_rule : String
cognitive_complexity_rule = "internal-cognitive-complexity"

-- What the transformation is given: `JSON.parse` at its two types, where `none` is that it throws,
-- `Number` with `none` for NaN, the source code and the rules.
pub record Context (N : Type 0) : Type 0 where
  pub parse_encoded : Text → Option EncodedMessage
  pub parse_symbols : Text → Option (List SymbolHighlight)
  pub number : Text → Option N
  pub loc_from_index : ℕ → Position
  pub rules : String → Option RuleModule

pub record LintingResult (N : Type 0) : Type 0 where
  pub issues : List Issue
  pub ucfg_paths : List Text
  pub highlighted_symbols : List SymbolHighlight
  pub cognitive_complexity : Option N

-- the arrays that the loop fills
pub record Collected : Type 0 where
  pub issues : List Issue
  pub ucfg_paths : List Text

push_issue : Collected → Option Issue → Collected
push_issue acc none = acc
push_issue acc (some issue) = record {
  issues = acc.issues ++ issue ∷ [];
  ucfg_paths = acc.ucfg_paths;
}

pub is_ucfg : Option String → Bool
is_ucfg none = false
is_ucfg (some rule_id) = str_eq rule_id "ucfg"

module _ {N : Type 0} (ctx : Context N) where
  symbols_in : Option Issue → Result (List SymbolHighlight)
  symbols_in none = ok []
  symbols_in (some issue) = elim (ctx.parse_symbols issue.message) [
    | none ↦ throw bad_symbols
    | some symbols ↦ ok symbols
  ]

  with_symbols : Option Issue × List Issue → Result (List SymbolHighlight × List Issue)
  unfolding symbols_in
  with_symbols found = do symbols ← symbols_in found.0; ok (symbols, found.1)

  -- `extractHighlightedSymbols`: the symbols, and the issues that are left
  pub extract_highlighted_symbols : List Issue → Result (List SymbolHighlight × List Issue)
  unfolding with_symbols
  extract_highlighted_symbols issues =
      with_symbols (find_and_remove_first_issue issues symbol_highlighting_rule)

  complexity_in : Option Issue → Option N
  complexity_in none = none
  complexity_in (some issue) = ctx.number issue.message

  -- `extractCognitiveComplexity`: the complexity, and the issues that are left
  pub extract_cognitive_complexity : List Issue → Option N × List Issue
  unfolding complexity_in
  extract_cognitive_complexity issues =
      let found = find_and_remove_first_issue issues cognitive_complexity_rule in
      (complexity_in found.0, found.1)

  finish : Option Issue → Result (Option Issue)
  finish none = ok none
  finish (some issue) = do
    decoded ← decode_sonar_runtime ctx.parse_encoded (ctx.rules issue.rule_id) issue
    ok (some (normalize_location decoded))

  -- the issue that the loop makes of a message
  pub issue_of : LintMessage → Result (Option Issue)
  unfolding finish
  issue_of m = do converted ← convert_message ctx.loc_from_index m; finish converted

  -- one round of the loop
  pub collect_message : Collected → LintMessage → Result Collected
  unfolding is_ucfg issue_of push_issue
  collect_message acc m =
      if is_ucfg m.rule_id
      then ok (record { issues = acc.issues; ucfg_paths = acc.ucfg_paths ++ m.message ∷ [] })
      else issue_of m >>= λ found. ok (push_issue acc found)

  -- the loop over the messages
  pub collect_messages : Collected → List LintMessage → Result Collected
  unfolding collect_message
  collect_messages acc [] = ok acc
  collect_messages acc (m ∷ messages) = do
    next ← collect_message acc m
    collect_messages next messages

  -- the object that `transformMessages` returns
  result_of : Collected → List SymbolHighlight × List Issue → LintingResult N
  result_of collected found = record {
    issues = (extract_cognitive_complexity found.1).1;
    ucfg_paths = collected.ucfg_paths;
    highlighted_symbols = found.0;
    cognitive_complexity = (extract_cognitive_complexity found.1).0;
  }

  -- `transformMessages`
  pub transform_messages : List LintMessage → Result (LintingResult N)
  unfolding collect_messages extract_highlighted_symbols result_of
  transform_messages messages = do
    collected ← collect_messages (record { issues = []; ucfg_paths = [] }) messages
    found ← extract_highlighted_symbols collected.issues
    ok (result_of collected found)
