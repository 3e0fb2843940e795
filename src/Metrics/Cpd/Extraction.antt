-- ===== src/Metrics/Cpd/Extraction.antt =====
-- What `extractTokens` of cpd.ts finds in a file, node by node.
use Prim.Native.String.{String}
use text.Mathlib.Text.{◌==◌ as str_eq}
use text.Mathlib.TextEquality.{eq_iff}
use mathlib.Core.List.{append_assoc, append-nil}
use sonar_js.Prelude.{
  ℕ, ◌≡◌, refl, sym, subst, ◌∙◌, Bool, true, false, ◌&&◌, Option, none, some, List, [], ◌∷◌, ◌++◌,
  map, any, inl, inr, arith, Bool-cases, Option-cases, keep, if◌then◌else◌,
}
use sonar_js.Metrics.Ast.{Node, Child, absent, single, array, type_of, child_at, text_at, props_of}
use sonar_js.Metrics.Visitor.Preorder.{flat_map, flat_map-append}
use sonar_js.Metrics.Visitor.Laws.{run}
use sonar_js.Metrics.Tokens.{Token}
use sonar_js.Metrics.Cpd.{ExtractedTokens, child_has_type, name_is, tokens_of_child, extract_at}

-- a child that is one node
nodes_at : Child → List Node
nodes_at (single n) = n ∷ []
nodes_at absent = []
nodes_at (array ns) = []

pub is_import : Node → Bool
is_import n = str_eq (type_of n) "ImportDeclaration"

is_text : String → Option String → Bool
is_text text none = false
is_text text (some other) = str_eq other text

is_require_name : Node → Bool
unfolding is_text
is_require_name n =
    str_eq (type_of n) "Identifier" && is_text "require" (text_at (props_of n) "name")

-- a call of `require` itself
pub is_call_of_require : Node → Bool
unfolding is_require_name nodes_at
is_call_of_require n =
    str_eq (type_of n) "CallExpression"
    && any is_require_name (nodes_at (child_at (props_of n) "callee"))

is_literal : Node → Bool
is_literal n = str_eq (type_of n) "Literal"

-- the literal that is the value of a JSX attribute
pub literal_values : Node → List Node
unfolding is_literal nodes_at
literal_values n =
    if str_eq (type_of n) "JSXAttribute"
    then keep is_literal (nodes_at (child_at (props_of n) "value"))
    else []

-- the tokens of nodes
pub ids : (Node → List Token) → List Node → List ℕ
ids get_tokens ns = flat_map (λ n. map (λ t. t.id) (get_tokens n)) ns

other_type : (type a b : String) → str_eq type a ≡ true → str_eq a b ≡ false → str_eq type b ≡ false
other_type type a b h differ = subst (λ t. str_eq t b ≡ false) (sym ((eq_iff type a).0 h)) differ

ids-append :
    (get_tokens : Node → List Token) (ns ms : List Node)
    → ids get_tokens (ns ++ ms) ≡ ids get_tokens ns ++ ids get_tokens ms
unfolding ids
ids-append get_tokens ns ms = flat_map-append (λ n. map (λ t. t.id) (get_tokens n)) ns ms

keep-append :
    (test : Node → Bool) (n : Node) (ns : List Node)
    → keep test (n ∷ ns) ≡ keep test (n ∷ []) ++ keep test ns
keep-append test n ns = elim (Bool-cases (test n)) [
  | inl good ↦ rw (good) refl
  | inr bad ↦ rw (bad) refl
]

module _ (get_tokens : Node → List Token) where
  -- what is found in nodes, behind what was found
  abbrev pub with_nodes : ExtractedTokens → List Node → ExtractedTokens
  with_nodes found ns = record {
    jsx_tokens = found.jsx_tokens ++ ids get_tokens (flat_map literal_values ns);
    import_tokens = found.import_tokens ++ ids get_tokens (keep is_import ns);
    require_tokens = found.require_tokens ++ ids get_tokens (keep is_call_of_require ns);
  }

  abbrev pub extracted : List ℕ → List ℕ → List ℕ → ExtractedTokens
  extracted jsx imports requires = record {
    jsx_tokens = jsx;
    import_tokens = imports;
    require_tokens = requires;
  }

  nothing_more : (found : ExtractedTokens) → found ≡ with_nodes found []
  unfolding ids
  nothing_more found =
      rw
        (
          append-nil found.jsx_tokens,
          append-nil found.import_tokens,
          append-nil found.require_tokens,
        )
        refl

  value_found :
      (value : Child) (found : ExtractedTokens)
      → (if child_has_type value "Literal"
          then record found { jsx_tokens = found.jsx_tokens ++ tokens_of_child get_tokens value }
          else found)
        ≡ extracted
            (found.jsx_tokens ++ ids get_tokens (keep is_literal (nodes_at value)))
            found.import_tokens
            found.require_tokens
  unfolding child_has_type tokens_of_child is_literal nodes_at ids
  value_found absent found = rw (append-nil found.jsx_tokens) refl
  value_found (array ns) found = rw (append-nil found.jsx_tokens) refl
  value_found (single n) found = elim (Bool-cases (str_eq (type_of n) "Literal")) [
    | inl literal ↦ rw (literal, append-nil (map (λ t. t.id) (get_tokens n))) refl
    | inr other ↦ rw (other, append-nil found.jsx_tokens) refl
  ]

  callee_lem :
      (callee : Child)
      → (child_has_type callee "Identifier" && name_is callee "require")
        ≡ any is_require_name (nodes_at callee)
  unfolding child_has_type name_is is_require_name is_text nodes_at
  callee_lem absent = refl
  callee_lem (array ns) = refl
  callee_lem (single n) = elim (Option-cases (text_at (props_of n) "name")) [
    | inl missing ↦ rw (missing) (ground arith)
    | inr (name, there) ↦ rw (there) (ground arith)
  ]

  extract_at_lem :
      (n : Node) (found : ExtractedTokens)
      → extract_at get_tokens n found ≡ with_nodes found (n ∷ [])
  unfolding extract_at is_import is_call_of_require literal_values ids
  extract_at_lem n found = elim (Bool-cases (str_eq (type_of n) "JSXAttribute")) [
    | inl jsx ↦
        let no_import = other_type (type_of n) "JSXAttribute" "ImportDeclaration" jsx refl in
        let no_call = other_type (type_of n) "JSXAttribute" "CallExpression" jsx refl in
        rw
          (
            jsx,
            no_import,
            no_call,
            value_found (child_at (props_of n) "value") found,
            append-nil (keep is_literal (nodes_at (child_at (props_of n) "value"))),
            append-nil found.import_tokens,
            append-nil found.require_tokens,
          )
          refl
    | inr not_jsx ↦ elim (Bool-cases (str_eq (type_of n) "ImportDeclaration")) [
      | inl imports ↦
          let no_call = other_type (type_of n) "ImportDeclaration" "CallExpression" imports refl in
          rw
            (
              not_jsx,
              imports,
              no_call,
              append-nil found.jsx_tokens,
              append-nil found.require_tokens,
              append-nil (map (λ t. t.id) (get_tokens n)),
            )
            refl
      | inr not_import ↦ elim (Bool-cases (str_eq (type_of n) "CallExpression")) [
        | inr not_call ↦
            rw
              (
                not_jsx,
                not_import,
                not_call,
                append-nil found.jsx_tokens,
                append-nil found.import_tokens,
                append-nil found.require_tokens,
              )
              refl
        | inl calls ↦
            rw (not_jsx, not_import, calls, callee_lem (child_at (props_of n) "callee"))
              (elim (Bool-cases (any is_require_name (nodes_at (child_at (props_of n) "callee")))) [
                | inl requires ↦
                    rw
                      (
                        requires,
                        append-nil found.jsx_tokens,
                        append-nil found.import_tokens,
                        append-nil (map (λ t. t.id) (get_tokens n)),
                      )
                      refl
                | inr others ↦
                    rw
                      (
                        others,
                        append-nil found.jsx_tokens,
                        append-nil found.import_tokens,
                        append-nil found.require_tokens,
                      )
                      refl
              ])
      ]
    ]
  ]

  pub run-extract_at :
      (ns : List Node) (found : ExtractedTokens)
      → run (extract_at get_tokens) ns found ≡ with_nodes found ns
  run-extract_at [] found = nothing_more found
  run-extract_at (n ∷ ns) found =
      run-extract_at ns (extract_at get_tokens n found)
      ∙ rw
          (
            extract_at_lem n found,
            keep-append is_import n ns,
            keep-append is_call_of_require n ns,
            flat_map-append literal_values (n ∷ []) ns,
            ids-append get_tokens (flat_map literal_values (n ∷ [])) (flat_map literal_values ns),
            ids-append get_tokens (keep is_import (n ∷ [])) (keep is_import ns),
            ids-append get_tokens (keep is_call_of_require (n ∷ [])) (keep is_call_of_require ns),
          )
          (rw
            (
              append_assoc found.jsx_tokens (ids get_tokens (flat_map literal_values (n ∷ [])))
                  (ids get_tokens (flat_map literal_values ns)),
              append_assoc found.import_tokens (ids get_tokens (keep is_import (n ∷ [])))
                  (ids get_tokens (keep is_import ns)),
              append_assoc found.require_tokens (ids get_tokens (keep is_call_of_require (n ∷ [])))
                  (ids get_tokens (keep is_call_of_require ns)),
            )
            refl)
