-- ===== src/Metrics/Tests.antt =====
-- Runs of the metrics, the copy-paste tokens and the highlighting on small files.
use Prim.Native.String.{String}
use sonar_js.Prelude.{
  map, ℕ, suc, ◌≤◌, ◌≡◌, refl, true, none, some, [], ◌∷◌, ◌++◌, Text, codes, has, arith, keep, All,
  inl, inr, length,
}
use sonar_js.Metrics.Ast.{
  Position, SourceLocation, Node, node, no_props, prop, array, item, no_nodes, children_of, height,
  VisitorKeys,
}
use sonar_js.Metrics.Tokens.{Token, TemplateBody, SourceCode, Location}
use sonar_js.Metrics.Visitor.{visit}
use sonar_js.Metrics.Visitor.Preorder.{preorder}
use sonar_js.Metrics.Visitor.Laws.{run, visit-preorder}
use sonar_js.Metrics.Lines.Laws.{Increasing}
use sonar_js.Metrics.Comments.{selected, find_comment_lines}
use sonar_js.Metrics.Comments.Laws.{marks, speaks, find_comment_lines_lem}
use sonar_js.Metrics.Ncloc.{find_ncloc, ncloc_tokens}
use sonar_js.Metrics.Ncloc.Laws.{covered, find_ncloc_lem}
use sonar_js.Metrics.Cpd.{is_string_literal_token, ExtractedTokens, get_cpd_tokens, extract_tokens}
use sonar_js.Metrics.Cpd.Laws.{get_cpd_tokens-same}
use sonar_js.Metrics.Cpd.Visible.{masked, visible, get_cpd_tokens-visible}
use sonar_js.Metrics.Highlighting.{get_syntax_highlighting}
use sonar_js.Metrics.Highlighting.Laws.{highlights_with, get_syntax_highlighting_lem}
use sonar_js.Metrics.Symbols.{
  SymbolHighlight, Matching, match_tokens, kind_of, curly_open, curly_close,
}
use sonar_js.Metrics.Symbols.Laws.{Nested, empty, block, pairs, match_tokens-pairs}
use sonar_js.Metrics.Symbols.Variables.{
  Variable, highlight_variable, highlight_variable_first, located, distinct_from,
}
use sonar_js.Metrics.Counts.{function_nodes, statement_nodes, class_nodes, complexity_nodes}
use sonar_js.Metrics.Counts.Laws.{of_types, starts_on}
use sonar_js.Metrics.Compute.{Metrics, compute_metrics}
use sonar_js.Metrics.Compute.Laws.{compute_metrics_lem}

abbrev at : ℕ → ℕ → ℕ → ℕ → SourceLocation
at a b c d = record {
  start = record { line = a; column = b };
  end = record { line = c; column = d };
}

abbrev keys : VisitorKeys
keys type = some ("body" ∷ "value" ∷ [])

abbrev function_node : Node
function_node = node "FunctionDeclaration" (some (at 2 0 4 1)) no_props

abbrev program : Node
program = node "Program" (some (at 1 0 4 1)) (
    prop "body"
      (array (
        item (node "ExpressionStatement" (some (at 1 0 1 9)) no_props)
          (item function_node no_nodes)))
      no_props)

abbrev quote : ℕ → Text → Token
quote id text = record { id = id; type = "String"; value = text; loc = at 1 0 1 9 }

abbrev brace : ℕ → Text → ℕ → Token
brace id text line = record { id = id; type = "Punctuator"; value = text; loc = at line 0 line 1 }

abbrev sample : SourceCode
sample = record {
  ast = program;
  tokens = quote 1 (codes "'a'") ∷ brace 2 (codes "{") 2 ∷ brace 3 (codes "}") 4 ∷ [];
  comments =
      record { type = "Line"; value = codes " NOSONAR"; loc = some (at 3 0 3 9) }
      ∷ record { type = "Line"; value = codes " text"; loc = some (at 4 0 5 9) }
      ∷ [];
  template_body = none;
  visitor_keys = keys;
  first_token = some (quote 1 (codes "'a'"));
  header = [];
  get_tokens = λ n. [];
}

-- the case mapping of ASCII letters does for the sample
abbrev upper : Text → Text
upper t = t

program_size : length (preorder keys program) ≤ 3
unfolding preorder children_of height
program_size = omega arith

find_comment_lines-sample :
    ((find_comment_lines upper sample true).nosonar_lines ≡ 3 ∷ [])
    × ((find_comment_lines upper sample true).comment_lines ≡ 4 ∷ 5 ∷ [])
unfolding find_comment_lines
find_comment_lines-sample = (refl, refl)

visit-preorder_example :
    visit keys (λ (n : Node) (k : ℕ). suc k) 3 program 0
    ≡ some (run (λ (n : Node) (k : ℕ). suc k) (preorder keys program) 0)
visit-preorder_example = visit-preorder keys (λ (n : Node) (k : ℕ). suc k) 3 program 0 program_size

find_comment_lines_lem_example :
    Increasing (find_comment_lines upper sample true).nosonar_lines
    × Increasing (find_comment_lines upper sample true).comment_lines
    × ((x : ℕ)
        → (has (find_comment_lines upper sample true).nosonar_lines x
            ≡ marks upper (selected sample true) x)
          × (has (find_comment_lines upper sample true).comment_lines x
              ≡ speaks upper (selected sample true) x))
find_comment_lines_lem_example = find_comment_lines_lem upper sample true

find_ncloc_lem_example :
    Increasing (find_ncloc sample)
    × ((x : ℕ) → has (find_ncloc sample) x ≡ covered (ncloc_tokens sample) x)
find_ncloc_lem_example = find_ncloc_lem sample

abbrev tag : String → Text → Token
tag type value = record { id = 1; type = type; value = value; loc = at 1 0 1 9 }

abbrev template : TemplateBody
template = record {
  tokens = tag "HTMLTagOpen" (codes "p") ∷ tag "HTMLWhitespace" (codes " ") ∷ [];
  comments = [];
}

abbrev nothing_found : ExtractedTokens
nothing_found = record { jsx_tokens = []; import_tokens = []; require_tokens = [] }

extract_tokens-sample : extract_tokens 3 sample ≡ some nothing_found
unfolding extract_tokens
extract_tokens-sample = refl

get_cpd_tokens-same_example :
    get_cpd_tokens 3 (record sample {
      tokens = quote 1 (codes "'other'") ∷ brace 2 (codes "{") 2 ∷ brace 3 (codes "}") 4 ∷ [];
    })
    ≡ get_cpd_tokens 3 sample
unfolding is_string_literal_token
get_cpd_tokens-same_example =
    get_cpd_tokens-same 3 sample
      (quote 1 (codes "'other'") ∷ brace 2 (codes "{") 2 ∷ brace 3 (codes "}") 4 ∷ []) nothing_found
      extract_tokens-sample (inr (refl, refl, refl, refl, refl), (inl refl, (inl refl, tt)))

get_cpd_tokens-visible_example :
    get_cpd_tokens 3 sample ≡ some (map (masked sample) (keep (visible sample) sample.tokens))
get_cpd_tokens-visible_example = get_cpd_tokens-visible 3 sample program_size

abbrev sample_body : TemplateBody
sample_body = record { tokens = sample.tokens; comments = sample.comments }

abbrev sample_in_template : SourceCode
sample_in_template = record sample { template_body = some sample_body }

get_syntax_highlighting_lem_example :
    get_syntax_highlighting sample_in_template
    ≡ highlights_with sample_in_template (some sample_body)
get_syntax_highlighting_lem_example =
    get_syntax_highlighting_lem sample_in_template (some sample_body) refl

open_brace_kind : kind_of (brace 2 (codes "{") 2) ≡ curly_open
unfolding kind_of
open_brace_kind = refl

close_brace_kind : kind_of (brace 3 (codes "}") 4) ≡ curly_close
unfolding kind_of
close_brace_kind = refl

abbrev braces : Nested (brace 2 (codes "{") 2 ∷ brace 3 (codes "}") 4 ∷ [])
braces =
    block (brace 2 (codes "{") 2) (brace 3 (codes "}") 4) {body = []} {rest = []} open_brace_kind
      close_brace_kind empty empty

abbrev no_matching : Matching
no_matching = record { open_curly_braces = []; open_html_tags = []; result = [] }

match_tokens-pairs_example :
    match_tokens no_matching (brace 2 (codes "{") 2 ∷ brace 3 (codes "}") 4 ∷ [])
    ≡ some (record no_matching { result = [] ++ pairs braces })
match_tokens-pairs_example = match_tokens-pairs braces no_matching

abbrev variable : Variable
variable = record {
  defs = record { id = 1; loc = some (at 3 4 3 5); annotation = none } ∷ [];
  references =
      record { id = 1; loc = some (at 3 4 3 5); annotation = none }
      ∷ record { id = 2; loc = some (at 2 0 2 1); annotation = none }
      ∷ [];
}

abbrev location : ℕ → ℕ → ℕ → ℕ → Location
location a b c d = record { start_line = a; start_col = b; end_line = c; end_col = d }

abbrev variable_highlight : SymbolHighlight
variable_highlight = record { declaration = location 2 0 2 1; references = location 3 4 3 5 ∷ [] }

abbrev loc_from_index : ℕ → Position
loc_from_index i = record { line = 1; column = i }

highlight_variable_sample : highlight_variable loc_from_index variable ≡ some variable_highlight
unfolding highlight_variable
highlight_variable_sample = refl

highlight_variable_first_example :
    All (λ l. 2 ≤ l.start_line) variable_highlight.references
    × (suc (length variable_highlight.references)
        ≡ length (located (distinct_from [] (variable.defs ++ variable.references))))
highlight_variable_first_example =
    highlight_variable_first loc_from_index variable variable_highlight highlight_variable_sample

compute_metrics_lem_example :
    (m : Metrics) × (compute_metrics upper 3 sample true 7 ≡ some m)
    × (m.functions ≡ of_types sample function_nodes)
    × (m.statements ≡ of_types sample statement_nodes)
    × (m.classes ≡ of_types sample class_nodes)
    × (m.complexity ≡ of_types sample complexity_nodes)
    × (m.functions ≤ m.complexity)
    × (m.cognitive_complexity ≡ 7)
    × (m.ncloc ≡ find_ncloc sample)
    × (m.comment_lines ≡ (find_comment_lines upper sample true).comment_lines)
    × (m.nosonar_lines ≡ (find_comment_lines upper sample true).nosonar_lines)
    × Increasing m.executable_lines
    × ((x : ℕ) → has m.executable_lines x ≡ starts_on (preorder sample.visitor_keys sample.ast) x)
compute_metrics_lem_example = compute_metrics_lem upper 3 sample true 7 program_size
