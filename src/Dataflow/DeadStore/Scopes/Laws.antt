-- ===== src/Dataflow/DeadStore/Scopes/Laws.antt =====
-- Identifiers and what they resolve to: src/linting/eslint/rules/no-dead-store.ts.
use sonar_js.Prelude.{
  ℕ, suc, Option, none, some, List, [], ◌∷◌, ◌≡◌, inl, inr, arith, Bool-cases, ltb, Text,
}
use sonar_js.Dataflow.Lva.{Reference}
use sonar_js.Dataflow.DeadStore.Scopes.{
  Node, Variable, Scope, Resolved, resolve_in, resolve_reference_recursively, resolve_reference,
  resolve_jsx_reference, find_reference, find_declared, is_jsx_attribute_name,
}

-- With a reference comes its variable.
abbrev pub Agrees : Resolved → Type 0
Agrees r = (ref : Reference) → r.ref ≡ some ref → r.variable ≡ ref.resolved

resolve_in-Agrees :
    (found : Option Reference) (declared : Option Variable) (upper : Resolved)
    → Agrees upper
    → Agrees (resolve_in found declared upper)
unfolding resolve_in
resolve_in-Agrees (some r) declared upper h ref e = ground arith
resolve_in-Agrees none (some v) upper h ref e = cc
resolve_in-Agrees none none upper h ref e = h ref e

resolve_reference_recursively-Agrees :
    (node : ℕ) (scopes : List Scope) (depth : ℕ)
    → Agrees (resolve_reference_recursively node scopes depth)
unfolding resolve_reference_recursively
resolve_reference_recursively-Agrees node [] depth = λ ref e. absurd (ground arith)
resolve_reference_recursively-Agrees node (scope ∷ upper) depth = elim (Bool-cases (ltb 2 depth)) [
  | inl deep ↦ rw (deep) (λ ref e. absurd (ground arith))
  | inr here ↦ rw (here) (
      resolve_in-Agrees (find_reference node scope.references) (find_declared node scope.variables)
        (resolve_reference_recursively node upper (suc depth))
        (resolve_reference_recursively-Agrees node upper (suc depth)))
]

pub resolve_reference-Agrees :
    (node : ℕ) (scopes : List Scope) → Agrees (resolve_reference node scopes)
unfolding resolve_reference
resolve_reference-Agrees node scopes = resolve_reference_recursively-Agrees node scopes 0

pub resolve_jsx_reference-Agrees :
    (node : ℕ) (name : Text) (parents : List Node) (scopes : List Scope)
    → Agrees (resolve_jsx_reference node name parents scopes)
unfolding resolve_jsx_reference
resolve_jsx_reference-Agrees node name parents scopes ref e =
    elim (Bool-cases (is_jsx_attribute_name node parents)) [
      | inl attribute ↦ absurd (ground arith)
      | inr used ↦ ground arith
    ]
