-- ===== src/Rules/Traversal.antt =====
-- ESLint's documented traversal of a syntax tree: a node is entered, then come its children in
-- order, then it is left. `N` is what a rule reads of a node; an event has the parent as well.
use sonar_js.Prelude.{◌≡◌, refl, List, [], ◌∷◌, ◌++◌}

mutual
  pub data Tree (N : Type 0) : Type 0 where
    tree : N → Trees N → Tree N

  pub data Trees (N : Type 0) : Type 0 where
    no_trees : Trees N
    more_trees : Tree N → Trees N → Trees N

pub data Event (N : Type 0) : Type 0 where
  enter leave : (parent : N) → N → Event N

unfoldable mutual
  pub events : {N : Type 0} → N → Tree N → List (Event N)
  events parent (tree n ts) = enter parent n ∷ (events_of n ts ++ leave parent n ∷ [])

  pub events_of : {N : Type 0} → N → Trees N → List (Event N)
  events_of parent no_trees = []
  events_of parent (more_trees t ts) = events parent t ++ events_of parent ts

module _ {N S : Type 0} (handle : Event N → S → S) where
  -- the handlers of a rule, called for one event after the other
  unfoldable pub run : List (Event N) → S → S
  run [] s = s
  run (e ∷ es) s = run es (handle e s)

  run-append : (es fs : List (Event N)) (s : S) → run (es ++ fs) s ≡ run fs (run es s)
  unfolding run
  run-append [] fs s = refl
  run-append (e ∷ es) fs s = run-append es fs (handle e s)

  -- A node is entered, its children are traversed, and it is left.
  pub run-node :
      (parent n : N) (ts : Trees N) (s : S)
      → run (events parent (tree n ts)) s
        ≡ handle (leave parent n) (run (events_of n ts) (handle (enter parent n) s))
  unfolding run events
  run-node parent n ts s =
      run-append (events_of n ts) (leave parent n ∷ []) (handle (enter parent n) s)

  pub run-siblings :
      (parent : N) (t : Tree N) (ts : Trees N) (s : S)
      → run (events_of parent (more_trees t ts)) s
        ≡ run (events_of parent ts) (run (events parent t) s)
  unfolding run events
  run-siblings parent t ts s = run-append (events parent t) (events_of parent ts) s
