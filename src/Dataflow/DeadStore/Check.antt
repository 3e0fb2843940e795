-- ===== src/Dataflow/DeadStore/Check.antt =====
-- What the rule on dead stores reports: src/linting/eslint/rules/no-dead-store.ts.
-- A report is the reference whose assignment is to be removed; `none` is a TypeError.
pub mod Laws
pub mod Unread
use sonar_js.Prelude.{
  ℕ, Bool, true, false, not, ◌&&◌, ◌||◌, Option, none, some, List, [], ◌∷◌, ◌++◌, reverse, ◌==◌,
  leb, ltb, if◌then◌else◌, Text, codes, text_eq, starts_with, is_empty, has, set_add, set_delete,
  set_of, get, Keyed, length,
}
use sonar_js.Dataflow.Lva.{
  Reference, LiveVariables, LiveVariablesMap, Outcome, done, type_error, out_of_fuel, lva,
}
use sonar_js.Dataflow.DeadStore.Scopes.{
  Value, text, natural, boolean, null, other_value, Expression, literal, identifier,
  unary_expression, object_expression, array_expression, other_expression, Node, NodeType,
  identifier_node, update_expression, assignment_pattern, assignment_expression, Variable, Block,
  program, ts_module_declaration, other_block, Occurrence,
}
use sonar_js.Dataflow.DeadStore.Events.{State}

-- `value === ''` or one of 0, 1, null, true and false
is_basic_literal : Value → Bool
is_basic_literal (text s) = is_empty s
is_basic_literal (natural n) = n == 0 || n == 1
is_basic_literal (boolean b) = true
is_basic_literal null = true
is_basic_literal other_value = false

is_basic_value : Expression → Bool
unfolding is_basic_literal
is_basic_value (literal value) = is_basic_literal value
is_basic_value (identifier name) = text_eq name (codes "undefined")
is_basic_value (unary_expression argument) = is_basic_value argument
is_basic_value (object_expression properties) = properties == 0
is_basic_value (array_expression elements) = elements == 0
is_basic_value other_expression = false

is_null_literal : Expression → Bool
is_null_literal e = elim e [ literal value ↦ elim value [ null ↦ true | _ ↦ false ] | _ ↦ false ]

-- a test of the type of the parent of an identifier, false without a parent
parent_is : (NodeType → Bool) → List Node → Bool
parent_is test [] = false
parent_is test (parent ∷ _) = test parent.node_type

unfoldable pub is_increment_or_decrement : Occurrence → Bool
unfolding parent_is
is_increment_or_decrement o =
    parent_is (λ t. elim t [ update_expression ↦ true | _ ↦ false ]) o.parents

unfoldable pub is_null_assignment : Occurrence → Bool
unfolding parent_is is_null_literal
is_null_assignment o =
    parent_is (λ t. elim t [ assignment_expression right ↦ is_null_literal right | _ ↦ false ])
      o.parents

unfoldable pub is_default_parameter : Occurrence → Bool
unfolding parent_is
is_default_parameter o = elim o.node.node_type [
  | identifier_node ↦ parent_is (λ t. elim t [ assignment_pattern ↦ true | _ ↦ false ]) o.parents
  | _ ↦ false
]

unfoldable pub is_local_var : Variable → Bool
is_local_var v = elim v.block [ other_block ↦ true | _ ↦ false ]

unfoldable pub is_reference_with_basic_value : Occurrence → Bool
unfolding is_basic_value
is_reference_with_basic_value o =
    o.init && (elim o.write_expr [ none ↦ false | some e ↦ is_basic_value e ])

-- the change of the set by a reference, from its end to its start
before_reference : List ℕ → Reference → ℕ → List ℕ
before_reference will_be_read ref v =
    let unwritten = if ref.is_write then set_delete will_be_read v else will_be_read in
    if ref.is_read then set_add unwritten v else unwritten

module _ (occurrence : ℕ → Occurrence) (variable : ℕ → Variable) (s : State) where
  may_report : ℕ → Variable → Occurrence → Bool
  unfolding is_increment_or_decrement is_null_assignment is_default_parameter is_local_var
      is_reference_with_basic_value
  may_report node v o =
      is_local_var v
      && not (is_reference_with_basic_value o)
      && not (is_default_parameter o)
      && not (has s.references_used_in_destructuring node)
      && not (starts_with v.name (codes "_"))
      && not (is_increment_or_decrement o)
      && not (is_null_assignment o)

  pub should_report_reference : Reference → Bool
  unfolding may_report
  should_report_reference ref = elim ref.resolved [
    | none ↦ false
    | some v ↦ may_report ref.identifier (variable v) (occurrence ref.identifier)
  ]

  variable_used_outside_of_code_path : ℕ → Option Bool
  variable_used_outside_of_code_path v = elim (get s.variable_usages v) [
    | none ↦ none
    | some usages ↦ some (ltb 1 (length usages))
  ]

  -- `shouldReport`, for a reference with variable `v`
  should_report : Reference → ℕ → Option Bool
  unfolding should_report_reference variable_used_outside_of_code_path
  should_report ref v =
      if should_report_reference ref
      then elim (variable_used_outside_of_code_path v) [
        | none ↦ none
        | some outside ↦ some (not outside && has s.read_variables v)
      ]
      else some false

  -- whether a reference is reported as dead store, given the variables that will be read
  reports_store : List ℕ → Reference → ℕ → Option Bool
  unfolding should_report
  reports_store will_be_read ref v =
      if ref.is_write && not (has will_be_read v) then should_report ref v else some false

  -- the loop of `checkSegment` over the reversed references
  check_references : List ℕ → List Reference → Option (List Reference)
  unfolding reports_store before_reference
  check_references will_be_read [] = some []
  check_references will_be_read (ref ∷ refs) = elim ref.resolved [
    | none ↦ check_references will_be_read refs
    | some v ↦ elim (reports_store will_be_read ref v) [
      | none ↦ none
      | some reported ↦ elim (check_references (before_reference will_be_read ref v) refs) [
        | none ↦ none
        | some reports ↦ some (if reported then ref ∷ reports else reports)
      ]
    ]
  ]

  pub check_segment : LiveVariables → Option (List Reference)
  unfolding check_references
  check_segment lv = check_references (set_of lv.live_out) (reverse lv.references)

  is_never_read : Reference → Bool
  unfolding should_report_reference
  is_never_read ref = elim ref.resolved [
    | none ↦ false
    | some v ↦ should_report_reference ref && not (has s.read_variables v)
  ]

  pub report_never_read_variables : List Reference → List Reference
  unfolding is_never_read
  report_never_read_variables [] = []
  report_never_read_variables (ref ∷ refs) =
      let rest = report_never_read_variables refs in if is_never_read ref then ref ∷ rest else rest

  pub check_segments : LiveVariablesMap → Option (List Reference)
  unfolding check_segment report_never_read_variables
  check_segments [] = some []
  check_segments ((k, lv) ∷ m) = elim (check_segment lv) [
    | none ↦ none
    | some stores ↦ elim (check_segments m) [
      | none ↦ none
      | some later ↦ some (stores ++ report_never_read_variables lv.references ++ later)
    ]
  ]

  -- `Program:exit`, with fuel for the analysis
  pub program_exit : ℕ → Option (List Reference)
  unfolding check_segments
  program_exit fuel = elim (lva fuel s.live_variables_map) [
    | done m ↦ check_segments m
    | type_error ↦ none
    | out_of_fuel ↦ none
  ]
