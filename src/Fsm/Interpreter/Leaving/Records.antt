-- ===== src/Fsm/Interpreter/Leaving/Records.antt =====
-- What `exitStates` of src/fsm.rs records for the history states of the states to exit.
use r_fsm.Prelude.{
  ℕ, List, [], ◌∷◌, Bool, true, false, ◌||◌, done, contains, All, ◌==◌, ◌≡◌, refl, sym, ap, ◌∙◌,
  arith, Bool-cases, inl, inr, ◌↔◌,
}
use mathlib.Core.Path.{subst}
use r_fsm.Collections.SeqList.Deciding.{Decides}
use r_fsm.Collections.SeqList.Filtering.{keys, keys-id, filter_by-Decides}
use r_fsm.Collections.OrderedSet
use r_fsm.Collections.OrderedSet.{OrderedSet}
use r_fsm.Collections.OrderedSet.Laws.{contains-add, contains-to_set, to_list_lem}
use r_fsm.Fsm.Types.{State, Fsm, get_state_by_id}
use r_fsm.Fsm.Tree.{is_descendant, is_atomic_state, is_atomic_state_id, not_none}
use r_fsm.Fsm.Tree.Chain.{Chain-state, done-injective}
use r_fsm.Fsm.Tree.Order.{IsTree, IsStateId, is_descendant-ancestors}
use r_fsm.Fsm.Interpreter.Leaving.{
  set_to_state_list, state_list_to_id_set, atomic_below, is_child, recorded_value,
}

-- Each state has its own id, and the history states that it lists are its children.
pub record HasHistories (m : Fsm) : Type 0 where
  pub own_id : (s : ℕ) (st : State) → get_state_by_id m s ≡ done st → st.id ≡ s
  pub histories :
      (s : ℕ) (st : State)
      → get_state_by_id m s ≡ done st
      → (hid : ℕ) → contains hid st.history ≡ true
      → (ht : State) × (get_state_by_id m hid ≡ done ht)
        × (not_none ht.history_type ≡ true)
        × (ht.parent ≡ s)

-- What a history state of `s` keeps of a configuration: the active atomic states below `s` if it is
-- deep, else the active children of `s`.
abbrev pub Kept : Fsm → OrderedSet → ℕ → Bool → ℕ → Type 0
Kept m configuration s true x =
    (contains x configuration ≡ true)
    × (is_atomic_state_id m x ≡ done true)
    × (is_descendant m x s ≡ done true)
Kept m configuration s false x =
    (contains x configuration ≡ true)
    × ((xt : State) × (get_state_by_id m x ≡ done xt) × (xt.parent ≡ s))

-- The states of the ids, one by one.
abbrev pub Stated : Fsm → List ℕ → List State → Type 0
Stated m [] [] = Unit
Stated m [] (s ∷ states) = ⊥
Stated m (x ∷ l) [] = ⊥
Stated m (x ∷ l) (s ∷ states) = IsStateId m x × (get_state_by_id m x ≡ done s) × Stated m l states

contains-id_set :
    (x : ℕ) (l : List State) (acc : OrderedSet)
    → contains x (state_list_to_id_set l acc)
      ≡ (contains x acc || contains x (keys (λ (s : State). s.id) l))
unfolding state_list_to_id_set
contains-id_set x [] acc = ground arith
contains-id_set x (s ∷ l) acc =
    ground (arith, contains-id_set x l (OrderedSet.add acc s.id), contains-add x s.id acc)

module _ {m : Fsm} (t : IsTree m) (has : HasHistories m) where
  pub set_to_state_list-Stated :
      (l : List ℕ)
      → All (IsStateId m) l
      → (states : List State) × (set_to_state_list m l ≡ done states) × Stated m l states
  unfolding set_to_state_list
  set_to_state_list-Stated [] i = ([], refl, tt)
  set_to_state_list-Stated (x ∷ l) (i, j) =
      let (st, g, above) = Chain-state (t.line x i) refl in
      let (states, run, stated) = set_to_state_list-Stated l j in
      (st ∷ states, rw (g, run) refl, (i, g, stated))

  keys-Stated :
      (l : List ℕ) (states : List State) → Stated m l states → keys (λ (s : State). s.id) states ≡ l
  keys-Stated [] [] h = refl
  keys-Stated [] (s ∷ states) h = absurd h
  keys-Stated (x ∷ l) [] h = absurd h
  keys-Stated (x ∷ l) (s ∷ states) (i, g, h) = rw (has.own_id x s g, keys-Stated l states h) refl

  -- Atomic and below `s`.
  abbrev AtomicBelow : ℕ → ℕ → Type 0
  AtomicBelow s x = (is_atomic_state_id m x ≡ done true) × (is_descendant m x s ≡ done true)

  atomic_below-Decides :
      (s x : ℕ) (st : State)
      → IsStateId m x
      → get_state_by_id m x ≡ done st
      → Decides (atomic_below m s st) (AtomicBelow s st.id)
  unfolding atomic_below is_atomic_state_id
  atomic_below-Decides s x st i g =
      let own : st.id ≡ x = has.own_id x st g in
      let known : get_state_by_id m st.id ≡ done st = ap (get_state_by_id m) own ∙ g in
      let below = is_descendant-ancestors t st.id s (subst (IsStateId m) (sym own) i) in
      elim (Bool-cases (is_atomic_state st)) [
        | inl atomic ↦ record {
          answer = contains s (t.ancestors st.id);
          returns = rw atomic below;
          means = (
            λ h. (rw known (ap done atomic), below ∙ ap done h),
            λ h. done-injective (sym below ∙ h.1),
          );
        }
        | inr compound ↦ record {
          answer = false;
          returns = rw compound refl;
          means = (
            λ h. cc,
            λ h.
                let wrong : is_atomic_state st ≡ true = done-injective (rw known at h.0) in
                sym compound ∙ wrong,
          );
        }
      ]

  all_atomic_below :
      (s : ℕ) (l : List ℕ) (states : List State)
      → Stated m l states
      → All (λ (a : State). Decides (atomic_below m s a) (AtomicBelow s a.id)) states
  all_atomic_below s [] [] h = tt
  all_atomic_below s [] (a ∷ states) h = absurd h
  all_atomic_below s (x ∷ l) [] h = tt
  all_atomic_below s (x ∷ l) (a ∷ states) (i, g, h) =
      (atomic_below-Decides s x a i g, all_atomic_below s l states h)

  abbrev ChildOf : ℕ → ℕ → Type 0
  ChildOf s x = (xt : State) × (get_state_by_id m x ≡ done xt) × (xt.parent ≡ s)

  is_child-Decides : (s x : ℕ) → IsStateId m x → Decides (is_child m s x) (ChildOf s x)
  unfolding is_child
  is_child-Decides s x i =
      let (st, g, above) = Chain-state (t.line x i) refl in
      record {
        answer = st.parent == s;
        returns = rw g refl;
        means = (
          λ h. (st, g, ground (arith, h)),
          λ (xt, g', p).
              let same : xt.parent ≡ st.parent =
                ap (λ (q : State). q.parent) (done-injective (sym g' ∙ g)) in
              ground (arith, same, p),
        );
      }

  all_is_child :
      (s : ℕ) (l : List ℕ)
      → All (IsStateId m) l
      → All (λ x. Decides (is_child m s x) (ChildOf s x)) l
  all_is_child s [] i = tt
  all_is_child s (x ∷ l) (i, j) = (is_child-Decides s x i, all_is_child s l j)

  -- The value that is recorded is what the history state keeps.
  pub recorded_value-Kept :
      (configuration : OrderedSet) (states : List State) (s : ℕ) (deep : Bool)
      → All (IsStateId m) configuration
      → Stated m configuration states
      → (r : OrderedSet) × (recorded_value m configuration states s deep ≡ done r)
        × ((x : ℕ) → (contains x r ≡ true) ↔ Kept m configuration s deep x)
  unfolding recorded_value
  recorded_value-Kept configuration states s true i h =
      let (l, run, means) =
        filter_by-Decides (λ (a : State). a.id) (atomic_below m s) (AtomicBelow s) states
          (all_atomic_below s configuration states h) in
      let same = keys-Stated configuration states h in
      (
        state_list_to_id_set l [],
        rw run refl,
        λ x.
            let member = contains-id_set x l [] in
            (
              λ k.
                  let (c, p) = (means x).0 (sym member ∙ k) in
                  (subst (λ z. contains x z ≡ true) same c, p.0, p.1),
              λ (c, p, q).
                  member ∙ (means x).1 (subst (λ z. contains x z ≡ true) (sym same) c, (p, q)),
            ),
      )
  recorded_value-Kept configuration states s false i h =
      let (l, run, means) =
        filter_by-Decides (λ x. x) (is_child m s) (ChildOf s) configuration
          (all_is_child s configuration i) in
      (
        OrderedSet.to_set l,
        rw (to_list_lem configuration, run) refl,
        λ x.
            let member = contains-to_set x l in
            let means' = rw (keys-id l, keys-id configuration) at means x in
            (λ k. means'.0 (sym member ∙ k), λ q. member ∙ means'.1 q),
      )
