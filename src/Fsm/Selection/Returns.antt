-- ===== src/Fsm/Selection/Returns.antt =====
-- The selection of transitions in src/fsm.rs returns, and what it selects passes its test.
use Prim.Native.Nat.{Ordering}
use r_fsm.Prelude.{
  ℕ, List, [], ◌∷◌, ◌++◌, Bool, true, not, ◌&&◌, done, if◌then◌else◌, contains, All, ◌≡◌, ◌≢◌, refl,
  ap, ◌∙◌, arith, inl, inr, Bool-cases,
}
use r_fsm.Collections.OrderedSet
use r_fsm.Collections.OrderedSet.{OrderedSet}
use r_fsm.Collections.OrderedSet.Laws.{IsSetOf, to_list_lem, add-IsSetOf}
use r_fsm.Collections.SeqList.Deciding.{filter_by-returns}
use r_fsm.Collections.SeqList.Laws.{push_set_lem, append_lem}
use r_fsm.Collections.Sort.Laws.{sort-returns}
use r_fsm.Fsm.Types.{
  Text, State, Transition, Fsm, by_doc_id, get_state_by_id, get_transition_by_id,
  state_document_order, transition_document_order,
}
use r_fsm.Fsm.Tree.{is_atomic_state_id, is_atomic_state, no_ids}
use r_fsm.Fsm.Tree.Chain.{Chain-state}
use r_fsm.Fsm.Tree.Walks.{zero_below}
use r_fsm.Fsm.Tree.Order.{
  IsStateId, All-member, All-of_members, All-weaken, get_proper_ancestors-member,
  ancestor-IsStateId,
}
use r_fsm.Fsm.WellFormed.{IsWellFormed, IsHistoryOf}
use r_fsm.Fsm.Domain.{HistoryTable}
use r_fsm.Fsm.Exit.Members.{IsTransitionId}
use r_fsm.Fsm.Conflicts.Disjoint.{remove_conflicting_transitions-apart}
use r_fsm.Fsm.Conflicts.Verdicts.{Conflict}
use r_fsm.Fsm.Selection.{
  Conditions, no_texts, name_match, to_transition_list, passing, joined, candidates,
  condition_match, condition_result, first_match, select_loop, select_by,
  select_eventless_transitions, select_transitions,
}

-- The transitions of each state are in the table, each under its own id.
pub record HasTransitions (m : Fsm) : Type 0 where
  pub listed :
      (s : ℕ) (st : State) → get_state_by_id m s ≡ done st → All (IsTransitionId m) st.transitions
  pub own_id : (tid : ℕ) (t : Transition) → get_transition_by_id m tid ≡ done t → t.id ≡ tid

-- The transition of an id passes a test.
pub record Passes (m : Fsm) (p : Transition → Bool) (tid : ℕ) : Type 0 where
  pub transition : Transition
  pub found : get_transition_by_id m tid ≡ done transition
  pub holds : p transition ≡ true

module _ (P : ℕ → Type 0) where
  All-append : (xs ys : List ℕ) → All P xs → All P ys → All P (xs ++ ys)
  All-append [] ys i j = j
  All-append (x ∷ xs) ys (a, i) j = (a, All-append xs ys i j)

  All-add : (x : ℕ) (s : OrderedSet) → P x → All P s → All P (OrderedSet.add s x)
  unfolding OrderedSet.add
  All-add x s a i = elim (Bool-cases (contains x s)) [
    | inl old ↦ rw old i
    | inr new ↦ rw new (All-append s (x ∷ []) i (a, tt))
  ]

-- What is proved of a selection: its transitions pass the test, and no two different ones leave a
-- common state.
pub record Selected (m : Fsm) (hist : HistoryTable) (configuration : OrderedSet)
    (p : Transition → Bool) (r : OrderedSet) : Type 0 where
  pub distinct : IsSetOf r
  pub passes : (tid : ℕ) → contains tid r ≡ true → Passes m p tid
  pub apart :
      (x y : ℕ)
      → contains x r ≡ true
      → contains y r ≡ true
      → x ≢ y
      → ¬ Conflict m hist configuration x y

module _ {m : Fsm} (w : IsWellFormed m) (has : HasTransitions m) (p : Transition → Bool) where
  -- A transition that is found under its own id.
  Owned : Transition → Type 0
  Owned t = get_transition_by_id m t.id ≡ done t

  to_transition_list-returns :
      (l : List ℕ)
      → All (IsTransitionId m) l
      → (r : List Transition) × (to_transition_list m l ≡ done r) × All Owned r
  unfolding to_transition_list Owned
  to_transition_list-returns [] i = ([], refl, tt)
  to_transition_list-returns (tid ∷ l) ((t, e), j) =
      let (r, run, k) = to_transition_list-returns l j in
      (t ∷ r, rw (e, run), (ap (get_transition_by_id m) (has.own_id tid t e) ∙ e, k))

  passing-Passes : (l : List Transition) → All Owned l → All (Passes m p) (passing p l)
  unfolding passing Owned
  passing-Passes [] i = tt
  passing-Passes (t ∷ l) (a, i) = elim (Bool-cases (p t)) [
    | inl holds ↦ rw holds (record { transition = t; found = a; holds = holds }, passing-Passes l i)
    | inr fails ↦ rw fails (passing-Passes l i)
  ]

  transitions_ordered :
      (x y : Transition) → (o : Ordering) × (transition_document_order x y ≡ done o)
  unfolding transition_document_order
  transitions_ordered x y = (_, refl)

  states_ordered :
      (x y : ℕ)
      → IsStateId m x
      → IsStateId m y
      → (o : Ordering) × (state_document_order m x y ≡ done o)
  unfolding state_document_order
  states_ordered x y i j =
      let (sx, gx, ax) = Chain-state (w.tree.line x i) refl in
      let (sy, gy, ay) = Chain-state (w.tree.line y j) refl in
      (by_doc_id sx.doc_id sy.doc_id, rw (gx, gy) refl)

  atomic_returns : (x : ℕ) → IsStateId m x → (b : Bool) × (is_atomic_state_id m x ≡ done b)
  unfolding is_atomic_state_id
  atomic_returns x i =
      let (st, g, above) = Chain-state (w.tree.line x i) refl in (is_atomic_state st, rw g refl)

  candidates-returns :
      (l : List ℕ)
      → All (IsStateId m) l
      → (r : List ℕ) × (candidates m p l ≡ done r) × All (Passes m p) r
  unfolding candidates
  candidates-returns [] i = ([], refl, tt)
  candidates-returns (s ∷ l) (a, i) =
      let (st, g, above) = Chain-state (w.tree.line s a) refl in
      let (ts, run, owned) = to_transition_list-returns st.transitions (has.listed s st g) in
      let (sorted, run', owned') =
        sort-returns Owned transition_document_order (λ x y _ _. transitions_ordered x y) ts
          owned in
      let (r, run'', all) = candidates-returns l i in
      (
        joined (passing p sorted) r,
        rw (g, run, run', run''),
        rw (append_lem (passing p sorted) r)
            (All-append (Passes m p) (passing p sorted) r (passing-Passes sorted owned') all),
      )

  module _ (c : Conditions) where
    condition_match-returns :
        (d : c.Model) (tid : ℕ)
        → Passes m p tid
        → (b : Bool) × (d' : c.Model) × (condition_match c m d tid ≡ done (b, d'))
    unfolding condition_match
    condition_match-returns d tid h =
        let cond = h.transition.cond in
        let r =
          if no_ids cond then (true, d) else condition_result c m (c.execute_condition d cond) in
        (r.0, r.1, rw h.found refl)

    -- The transitions that were selected so far: each once, and with the property.
    abbrev Collected : OrderedSet → Type 0
    Collected r = All (Passes m p) r × IsSetOf r

    first_match-returns :
        (l : List ℕ) (d : c.Model) (enabled : OrderedSet)
        → All (Passes m p) l
        → Collected enabled
        → (r : OrderedSet) × (d' : c.Model) × (first_match c m l d enabled ≡ done (r, d'))
          × Collected r
    unfolding first_match
    first_match-returns [] d enabled i j = (enabled, d, refl, j)
    first_match-returns (ct ∷ l) d enabled (a, i) j =
        let (b, d', run) = condition_match-returns d ct a in
        elim (Bool-cases b) [
          | inl hit ↦ (
            OrderedSet.add enabled ct,
            d',
            rw (run, hit) refl,
            (All-add (Passes m p) ct enabled a j.0, add-IsSetOf ct enabled j.1),
          )
          | inr miss ↦
              let (r, d'', run', k) = first_match-returns l d' enabled i j in
              (r, d'', rw (run, miss) run', k)
        ]

    select_loop-returns :
        (l : List ℕ) (d : c.Model) (enabled : OrderedSet)
        → All (IsStateId m) l
        → Collected enabled
        → (r : OrderedSet) × (d' : c.Model) × (select_loop c m p l d enabled ≡ done (r, d'))
          × Collected r
    unfolding select_loop
    select_loop-returns [] d enabled i j = (enabled, d, refl, j)
    select_loop-returns (s ∷ l) d enabled (a, i) j =
        let (above, e, member) = get_proper_ancestors-member w.tree s 0 a (zero_below m s) in
        let states : All (IsStateId m) above =
          All-of_members (IsStateId m) above
            (λ x h. ancestor-IsStateId w.tree s x a (ground (arith, member x, h))) in
        let (cond_t, run, found) = candidates-returns (s ∷ above) (a, states) in
        let (r, d', run', k) = first_match-returns cond_t d enabled found j in
        let (r', d'', run'', k') = select_loop-returns l d' r i k in
        (r', d'', rw (e, push_set_lem (s ∷ []) above, run, run') run'', k')

    select_by-Selected :
        (hist : HistoryTable) (configuration : OrderedSet) (d : c.Model)
        → IsHistoryOf m hist
        → All (IsStateId m) configuration
        → (r : OrderedSet) × (d' : c.Model) × (select_by c m p hist configuration d ≡ done (r, d'))
          × Selected m hist configuration p r
    unfolding select_by
    select_by-Selected hist configuration d v i =
        let (atomic, run, j) =
          filter_by-returns (IsStateId m) (is_atomic_state_id m) atomic_returns configuration i in
        let (sorted, run', k) =
          sort-returns (IsStateId m) (state_document_order m) states_ordered atomic j in
        let (enabled, d', run'', (passed, once)) = select_loop-returns sorted d [] k (tt, refl) in
        let ids =
          All-weaken (Passes m p) (IsTransitionId m) enabled (λ x h. (h.transition, h.found))
            passed in
        let (r, kept, distinct, chosen, apart, dropped, some_kept) =
          remove_conflicting_transitions-apart w hist v configuration i enabled once ids in
        (
          r,
          d',
          rw (to_list_lem configuration, run, run', run'', kept) refl,
          record {
            distinct = distinct;
            passes = λ tid h. All-member (Passes m p) tid enabled passed (chosen tid h);
            apart = apart;
          },
        )

module _ {m : Fsm} (w : IsWellFormed m) (has : HasTransitions m) (c : Conditions)
    (hist : HistoryTable) (configuration : OrderedSet) (d : c.Model) where
  -- In a well-formed machine whose states list transitions of the table, `selectTransitions`
  -- returns for every event, data model, recorded history and active states. Each selected
  -- transition has descriptors and `nameMatch` accepts the event for it; no two different ones
  -- leave a common state.
  pub select_transitions-Selected :
      (name : Text)
      → IsHistoryOf m hist
      → All (IsStateId m) configuration
      → (r : OrderedSet) × (d' : c.Model) × (select_transitions c m name hist configuration d
          ≡ done (r, d'))
        × Selected m hist configuration (λ t. not (no_texts t.events) && name_match t name) r
  unfolding select_transitions
  select_transitions-Selected name v i =
      select_by-Selected w has (λ t. not (no_texts t.events) && name_match t name) c hist
        configuration d v i

  -- Under the same conditions `selectEventlessTransitions` returns, and selects transitions without
  -- descriptors, no two of which leave a common state.
  pub select_eventless_transitions-Selected :
      IsHistoryOf m hist
      → All (IsStateId m) configuration
      → (r : OrderedSet) × (d' : c.Model) × (select_eventless_transitions c m hist configuration d
          ≡ done (r, d'))
        × Selected m hist configuration (λ t. no_texts t.events) r
  unfolding select_eventless_transitions
  select_eventless_transitions-Selected v i =
      select_by-Selected w has (λ t. no_texts t.events) c hist configuration d v i
