-- ===== src/Dataflow/DeadStore/Known.antt =====
-- What the state of the rule knows of the references that it has met
-- (src/linting/eslint/rules/no-dead-store.ts).
use sonar_js.Prelude.{
  ℕ, Bool, true, ◌||◌, none, some, List, [], ◌∷◌, ◌++◌, ◌≡◌, ◌≢◌, sym, subst, inl, inr, arith,
  Option-cases, Bool-cases, ◌==◌, ==_iff, if◌then◌else◌, has, get, any, All, All-append, IsDistinct,
  set_add, has-set_add,
}
use sonar_js.Dataflow.Lva.{Reference, LiveVariables, LiveVariablesMap, add, add_reference}
use sonar_js.Dataflow.DeadStore.Events.{State, CodePathContext, AssignmentContext}
use sonar_js.Dataflow.DeadStore.Reads.{reads, writes, IsBuilt}

-- A reference that is known to the state: its variable has usages, and has been noted as read if
-- the reference reads it.
pub record IsKnown (s : State) (ref : Reference) : Type 0 where
  pub noted : (x : ℕ) → reads x ref ≡ true → has s.read_variables x ≡ true
  pub used : (x : ℕ) → ref.resolved ≡ some x → get s.variable_usages x ≢ none

-- The segments of a map hold what references have been added to them, all known to the state.
pub record IsRecorded (s : State) (m : LiveVariablesMap) : Type 0 where
  pub built : (k : ℕ) (lv : LiveVariables) → get m k ≡ some lv → IsBuilt lv
  pub known : (k : ℕ) (lv : LiveVariables) → get m k ≡ some lv → All (IsKnown s) lv.references

pub All_map :
    {A : Type 0} (P Q : A → Type 0) (xs : List A) → ((r : A) → P r → Q r) → All P xs → All Q xs
All_map P Q [] f h = tt
All_map P Q (x ∷ xs) f (p, h) = (f x p, All_map P Q xs f h)

-- the later state knows what the earlier one knows
pub record Knows (s s' : State) : Type 0 where
  pub notes : (x : ℕ) → has s.read_variables x ≡ true → has s'.read_variables x ≡ true
  pub uses : (x : ℕ) → get s.variable_usages x ≢ none → get s'.variable_usages x ≢ none

pub Knows-IsKnown : (s s' : State) (ref : Reference) → Knows s s' → IsKnown s ref → IsKnown s' ref
Knows-IsKnown s s' ref k h = record {
  noted = λ x r. k.notes x (h.noted x r);
  used = λ x r. k.uses x (h.used x r);
}

pub add-none : (lv : LiveVariables) (ref : Reference) → ref.resolved ≡ none → add lv ref ≡ lv
unfolding add
add-none lv ref e = ground arith

pub add-some :
    (lv : LiveVariables) (ref : Reference) (v : ℕ)
    → ref.resolved ≡ some v
    → add lv ref ≡ record lv {
      gen = if ref.is_read then set_add lv.gen v else lv.gen;
      kill = if ref.is_write then set_add lv.kill v else lv.kill;
      references = add_reference lv.references ref;
    }
unfolding add
add-some lv ref v e = ground arith

is_read-set_add :
    (ref : Reference) (lv : LiveVariables) (x v : ℕ)
    → ref.resolved ≡ some v
    → has (if ref.is_read then set_add lv.gen v else lv.gen) x ≡ (has lv.gen x || reads x ref)
is_read-set_add ref lv x v e = rw (e) (ground (arith, has-set_add lv.gen v x))

is_write-set_add :
    (ref : Reference) (lv : LiveVariables) (x v : ℕ)
    → ref.resolved ≡ some v
    → has (if ref.is_write then set_add lv.kill v else lv.kill) x ≡ (has lv.kill x || writes x ref)
is_write-set_add ref lv x v e = rw (e) (ground (arith, has-set_add lv.kill v x))

-- `object` tells the reference that a number stands for.
module _ (object : ℕ → Reference) where
  pub record IsMet (s : State) (ref : Reference) : Type 0 where
    pub known : IsKnown s ref
    pub same : object ref.identifier ≡ ref

  pub record IsEntry (s : State) (entry : ℕ × LiveVariables) : Type 0 where
    pub named : entry.1.segment.id ≡ entry.0
    pub fresh : entry.1.live_in ≡ []
    pub built : IsBuilt entry.1
    pub met : All (IsMet s) entry.1.references

  abbrev pub Pending : State → AssignmentContext → Type 0
  Pending s a = All (IsMet s) a.lhs × All (IsMet s) a.rhs

  abbrev pub Stacked : State → CodePathContext → Type 0
  Stacked s path = All (Pending s) path.assignment_stack

  -- All references of state `s` are known by state `t`.
  pub record Kept (t s : State) : Type 0 where
    pub distinct : IsDistinct s.live_variables_map
    pub entries : All (IsEntry t) s.live_variables_map
    pub stacked : All (Stacked t) s.code_path_stack

  Knows-IsMet : (s s' : State) → Knows s s' → (ref : Reference) → IsMet s ref → IsMet s' ref
  Knows-IsMet s s' k ref h = record { known = Knows-IsKnown s s' ref k h.known; same = h.same }

  pub Knows-Kept : (t t' s : State) → Knows t t' → Kept t s → Kept t' s
  Knows-Kept t t' s k h = record {
    distinct = h.distinct;
    entries =
        All_map (IsEntry t) (IsEntry t') s.live_variables_map
          (λ e i. record {
            named = i.named;
            fresh = i.fresh;
            built = i.built;
            met = more e.1.references i.met;
          })
          h.entries;
    stacked =
        All_map (Stacked t) (Stacked t') s.code_path_stack
          (λ path.
            All_map (Pending t) (Pending t') path.assignment_stack
              (λ a (l, r). (more a.lhs l, more a.rhs r)))
          h.stacked;
  }
    where
      more : (refs : List Reference) → All (IsMet t) refs → All (IsMet t') refs
      more refs = All_map (IsMet t) (IsMet t') refs (Knows-IsMet t t' k)

  module _ (t : State) (ref : Reference) (met : IsMet t ref) where
    pub add_reference-IsMet :
        (refs : List Reference) → All (IsMet t) refs → All (IsMet t) (add_reference refs ref)
    unfolding add_reference
    add_reference-IsMet refs h =
        elim (Bool-cases (any (λ r. r.identifier == ref.identifier) refs)) [
          | inl old ↦ rw (old) h
          | inr new ↦ rw (new) (All-append (IsMet t) refs (ref ∷ []) h (met, tt))
        ]

    -- a reference that is there already has been counted
    any_there :
        (p : Reference → Bool) (refs : List Reference)
        → All (IsMet t) refs
        → any (λ r. r.identifier == ref.identifier) refs ≡ true
        → p ref ≡ true
        → any p refs ≡ true
    any_there p [] h there e = cc
    any_there p (r ∷ refs) (here, h) there e = elim (Bool-cases (r.identifier == ref.identifier)) [
      | inl is ↦ ground (arith, same_test ((==_iff r.identifier ref.identifier).0 is))
      | inr other ↦ ground (arith, any_there p refs h)
    ]
      where
        same_test : r.identifier ≡ ref.identifier → p r ≡ p ref
        same_test q = let a = here.same in let b = met.same in cc

    any_append :
        (p : Reference → Bool) (xs : List Reference) (y : Reference)
        → any p (xs ++ y ∷ []) ≡ (any p xs || p y)
    any_append p [] y = ground arith
    any_append p (x ∷ xs) y = ground (arith, any_append p xs y)

    any-add_reference :
        (p : Reference → Bool) (refs : List Reference)
        → All (IsMet t) refs
        → any p (add_reference refs ref) ≡ (any p refs || p ref)
    unfolding add_reference
    any-add_reference p refs h =
        elim (Bool-cases (any (λ r. r.identifier == ref.identifier) refs)) [
          | inl old ↦ rw (old) (ground (arith, any_there p refs h old))
          | inr new ↦ rw (new) (any_append p refs ref)
        ]

    -- `LiveVariables.add` keeps an entry
    pub add-IsEntry : (k : ℕ) (lv : LiveVariables) → IsEntry t (k, lv) → IsEntry t (k, add lv ref)
    add-IsEntry k lv h = elim (Option-cases ref.resolved) [
      | inl unresolved ↦ subst (λ l. IsEntry t (k, l)) (sym (add-none lv ref unresolved)) h
      | inr (v, resolved) ↦
          subst (λ l. IsEntry t (k, l)) (sym (add-some lv ref v resolved))
            (record {
              named = h.named;
              fresh = h.fresh;
              met = add_reference-IsMet lv.references h.met;
              built = record {
                gen_iff = λ x.
                    sym (grown (reads x) (h.built.gen_iff x) (is_read-set_add ref lv x v resolved));
                kill_iff = λ x.
                    sym (
                      grown (writes x) (h.built.kill_iff x) (is_write-set_add ref lv x v resolved));
              };
            })
    ]
      where
        grown :
            (p : Reference → Bool) {b c : Bool}
            → b ≡ any p lv.references
            → c ≡ (b || p ref)
            → any p (add_reference lv.references ref) ≡ c
        grown p e f = ground (arith, any-add_reference p lv.references h.met)
