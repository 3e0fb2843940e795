-- ===== src/Metrics/Counts/Laws.antt =====
-- The counts are counts over the preorder of the tree, and they bound one another.
use Prim.Native.String.{String}
use mathlib.Core.Option
use sonar_js.Prelude.{
  ℕ, ◌≤◌, ◌≡◌, refl, ap, ◌∙◌, Bool, true, false, ◌||◌, ◌&&◌, Option, none, some, List, [], ◌∷◌,
  ◌++◌, has, has-set_add, length, arith, ◌==◌,
}
use sonar_js.Metrics.Ast.{SourceLocation, Node, type_of, loc_of, includes}
use sonar_js.Metrics.Visitor.{visit_and_count_if}
use sonar_js.Metrics.Visitor.Preorder.{preorder}
use sonar_js.Metrics.Visitor.Laws.{run, count_if, visit-preorder, visit_and_count_if-preorder}
use sonar_js.Metrics.Tokens.{SourceCode}
use sonar_js.Metrics.Lines.{sort}
use sonar_js.Metrics.Lines.Laws.{Distinct, Increasing, has-sort, set_add-Distinct, sort-Increasing}
use sonar_js.Metrics.Counts.{
  class_nodes, function_nodes, statement_nodes, complexity_nodes, loop_nodes, conditional_nodes,
  count_classes, count_functions, count_statements, compute_cyclomatic_complexity, add_start,
  add_executable, find_executable_lines, executable_nodes,
}

-- the nodes of the tree whose type is listed
pub of_types : SourceCode → List String → ℕ
of_types source types =
    count_if (λ n. includes types (type_of n)) (preorder source.visitor_keys source.ast)

-- rounds that are enough for the traversal
abbrev pub tree_size : SourceCode → ℕ
tree_size source = length (preorder source.visitor_keys source.ast)

includes-append :
    (xs ys : List String) (t : String) → includes (xs ++ ys) t ≡ (includes xs t || includes ys t)
includes-append [] ys t = refl
includes-append (x ∷ xs) ys t = ground (arith, includes-append xs ys t)

count_if_mono :
    (p q : Node → Bool) (ns : List Node)
    → ((n : Node) → p n ≡ true → q n ≡ true)
    → count_if p ns ≤ count_if q ns
unfolding count_if
count_if_mono p q [] h = omega arith
count_if_mono p q (n ∷ ns) h = ground (arith, count_if_mono p q ns h, h n)

or_true : (b : Bool) → (b || true) ≡ true
or_true true = refl
or_true false = refl

-- Every kind of function counts towards the complexity.
functions-le-complexity :
    (source : SourceCode) → of_types source function_nodes ≤ of_types source complexity_nodes
unfolding of_types
functions-le-complexity source =
    count_if_mono (λ n. includes function_nodes (type_of n))
      (λ n. includes complexity_nodes (type_of n)) (preorder source.visitor_keys source.ast)
      (λ n e. wider (type_of n) e)
  where
    wider : (t : String) → includes function_nodes t ≡ true → includes complexity_nodes t ≡ true
    wider t e =
        let rest = loop_nodes ++ "LogicalExpression" ∷ [] in
        includes-append conditional_nodes (function_nodes ++ rest) t
        ∙ ap (λ b. includes conditional_nodes t || b)
            (includes-append function_nodes rest t ∙ ap (λ b. b || includes rest t) e)
        ∙ or_true (includes conditional_nodes t)

abbrev starts_at : Option SourceLocation → ℕ → Bool
starts_at none x = false
starts_at (some loc) x = loc.start.line == x

-- some node of the list is executable and starts on the line
abbrev pub starts_on : List Node → ℕ → Bool
starts_on [] x = false
starts_on (n ∷ ns) x =
    (includes executable_nodes (type_of n) && starts_at (loc_of n) x) || starts_on ns x

or_assoc : (a b c : Bool) → ((a || b) || c) ≡ (a || (b || c))
or_assoc true b c = refl
or_assoc false b c = refl

has-add_start :
    (executable : Bool) (at : Option SourceLocation) (lines : List ℕ) (x : ℕ)
    → has (add_start executable at lines) x ≡ (has lines x || (executable && starts_at at x))
unfolding add_start
has-add_start executable none lines x = ground arith
has-add_start executable (some loc) lines x = ground (arith, has-set_add lines loc.start.line x)

has-add_executable :
    (n : Node) (lines : List ℕ) (x : ℕ)
    → has (add_executable n lines) x
      ≡ (has lines x || (includes executable_nodes (type_of n) && starts_at (loc_of n) x))
unfolding add_executable
has-add_executable n lines x =
    has-add_start (includes executable_nodes (type_of n)) (loc_of n) lines x

add_start-Distinct :
    (executable : Bool) (at : Option SourceLocation) (lines : List ℕ)
    → Distinct lines
    → Distinct (add_start executable at lines)
unfolding add_start
add_start-Distinct executable none lines h = h
add_start-Distinct true (some loc) lines h = set_add-Distinct lines loc.start.line h
add_start-Distinct false (some loc) lines h = h

run-Distinct :
    (ns : List Node) (lines : List ℕ) → Distinct lines → Distinct (run add_executable ns lines)
unfolding add_executable
run-Distinct [] lines h = h
run-Distinct (n ∷ ns) lines h =
    run-Distinct ns (add_executable n lines)
      (add_start-Distinct (includes executable_nodes (type_of n)) (loc_of n) lines h)

run-add_executable :
    (ns : List Node) (lines : List ℕ) (x : ℕ)
    → has (run add_executable ns lines) x ≡ (has lines x || starts_on ns x)
unfolding add_executable
run-add_executable [] lines x = ground arith
run-add_executable (n ∷ ns) lines x =
    run-add_executable ns (add_executable n lines) x
    ∙ ap (λ b. b || starts_on ns x) (has-add_executable n lines x)
    ∙ or_assoc (has lines x) (includes executable_nodes (type_of n) && starts_at (loc_of n) x)
        (starts_on ns x)

-- Given a round for each node of the tree, each metric is computed: the four counts are the
-- numbers of nodes of the listed types in the tree, and the complexity is at least the number of
-- functions.
pub counts_lem :
    (source : SourceCode) (fuel : ℕ)
    → tree_size source ≤ fuel
    → (count_classes fuel source ≡ some (of_types source class_nodes))
      × (count_functions fuel source ≡ some (of_types source function_nodes))
      × (count_statements fuel source ≡ some (of_types source statement_nodes))
      × (compute_cyclomatic_complexity fuel source ≡ some (of_types source complexity_nodes))
      × (of_types source function_nodes ≤ of_types source complexity_nodes)
unfolding count_classes count_functions count_statements compute_cyclomatic_complexity of_types
    visit_and_count_if
counts_lem source fuel h = (
  counted class_nodes,
  counted function_nodes,
  counted statement_nodes,
  counted complexity_nodes,
  functions-le-complexity source,
)
  where
    counted :
        (types : List String)
        → visit_and_count_if source.visitor_keys fuel source.ast (λ n. includes types (type_of n))
          ≡ some
              (count_if (λ n. includes types (type_of n)) (preorder source.visitor_keys source.ast))
    counted types =
        visit_and_count_if-preorder source.visitor_keys fuel source.ast
          (λ n. includes types (type_of n)) h

-- Given a round for each node, `findExecutableLines` returns a strictly increasing array that has
-- a line exactly if a node of an executable type starts on it.
pub find_executable_lines_lem :
    (source : SourceCode) (fuel : ℕ)
    → tree_size source ≤ fuel
    → (lines : List ℕ) × (find_executable_lines fuel source ≡ some lines)
      × Increasing lines
      × ((x : ℕ) → has lines x ≡ starts_on (preorder source.visitor_keys source.ast) x)
unfolding find_executable_lines
find_executable_lines_lem source fuel h =
    let nodes = preorder source.visitor_keys source.ast in
    (
      sort (run add_executable nodes []),
      ap (Option.map sort) (visit-preorder source.visitor_keys add_executable fuel source.ast [] h),
      sort-Increasing (run add_executable nodes []) (run-Distinct nodes [] tt),
      λ x. has-sort (run add_executable nodes []) x ∙ run-add_executable nodes [] x,
    )
