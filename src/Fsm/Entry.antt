-- ===== src/Fsm/Entry.antt =====
-- `computeEntrySet`, `addDescendantStatesToEnter` and `addAncestorStatesToEnter` of src/fsm.rs: the
-- states that the transitions enter. The two procedures call each other, on fuel.
pub mod Enterable
pub mod Steps
pub mod Returns
pub mod Computes
use r_fsm.Prelude.{
  ◌+◌, ◌*◌, length, ℕ, suc, zero, List, [], ◌∷◌, Bool, Run, done, stuck, ◌>>=◌, if◌then◌else◌, ◌==◌,
}
use r_fsm.Collections.OrderedSet
use r_fsm.Collections.OrderedSet.{OrderedSet}
use r_fsm.Collections.SeqList
use r_fsm.Collections.HashTable
use r_fsm.Fsm.Types.{State, Fsm, get_state_by_id, get_transition_by_id}
use r_fsm.Fsm.Tree.{
  is_descendant, get_proper_ancestors, get_child_states, is_compound_state, is_parallel_state,
  is_history_state,
}
use r_fsm.Fsm.Domain.{HistoryTable, get_effective_target_states, get_transition_domain}

-- The three tables that the procedures fill.
pub record EntrySets : Type 0 where
  pub states_to_enter : OrderedSet
  pub states_for_default_entry : OrderedSet
  pub default_history_content : List (ℕ × ℕ)

-- One call for each state of a list, in order.
pub each : (ℕ → EntrySets → Run EntrySets) → List ℕ → EntrySets → Run EntrySets
each f [] e = done e
each f (s ∷ l) e = f s e >>= λ e'. each f l e'

module _ (m : Fsm) (hist : HistoryTable) where
  -- A child of a parallel state, without a descendant that is entered already.
  pub enter_child : (ℕ → EntrySets → Run EntrySets) → ℕ → EntrySets → Run EntrySets
  enter_child rec child e = do
    inside ← SeqList.some (λ s. is_descendant m s child) e.states_to_enter
    if inside then done e else rec child e

  pub fill_children : (ℕ → EntrySets → Run EntrySets) → ℕ → EntrySets → Run EntrySets
  unfolding each enter_child
  fill_children rec state e = do
    children ← get_child_states m state
    each (enter_child rec) children e

  pub enter_ancestor : (ℕ → EntrySets → Run EntrySets) → ℕ → EntrySets → Run EntrySets
  unfolding fill_children
  enter_ancestor rec anc e =
      let e' = record e { states_to_enter = OrderedSet.add e.states_to_enter anc } in
      do parallel ← is_parallel_state m anc; if parallel then fill_children rec anc e' else done e'

  pub add_ancestor_states_to_enter :
      (ℕ → EntrySets → Run EntrySets) → ℕ → ℕ → EntrySets → Run EntrySets
  unfolding each enter_ancestor
  add_ancestor_states_to_enter rec state ancestor e = do
    above ← get_proper_ancestors m state ancestor
    each (enter_ancestor rec) above e

  -- The two loops over a list of targets: their descendants, and the ancestors below a state.
  pub enter_targets : (ℕ → EntrySets → Run EntrySets) → ℕ → List ℕ → EntrySets → Run EntrySets
  unfolding each add_ancestor_states_to_enter
  enter_targets rec ancestor targets e = do
    e' ← each rec targets e
    each (λ s f. add_ancestor_states_to_enter rec s ancestor f) targets e'

  -- The branch of a history state.
  enter_history : (ℕ → EntrySets → Run EntrySets) → ℕ → State → EntrySets → Run EntrySets
  unfolding enter_targets
  enter_history rec sid state e =
      if HashTable.has hist sid
      then (HashTable.get hist sid >>= λ stored. enter_targets rec state.parent stored e)
      else do
        tid ← SeqList.head state.transitions
        t ← get_transition_by_id m tid
        enter_targets rec state.parent t.target (record e {
          default_history_content = HashTable.put e.default_history_content state.parent t.content;
        })

  -- A compound state is entered with the targets of its initial transition, if it has one.
  enter_initial : (ℕ → EntrySets → Run EntrySets) → ℕ → State → EntrySets → Run EntrySets
  unfolding enter_targets
  enter_initial rec sid state e =
      let e' = record e {
        states_for_default_entry = OrderedSet.add e.states_for_default_entry sid;
      } in
      if state.initial == 0
      then done e'
      else do t ← get_transition_by_id m state.initial; enter_targets rec sid t.target e'

  -- The branch of any other state.
  enter_state : (ℕ → EntrySets → Run EntrySets) → ℕ → State → EntrySets → Run EntrySets
  unfolding enter_initial fill_children
  enter_state rec sid state e =
      let e' = record e { states_to_enter = OrderedSet.add e.states_to_enter sid } in
      do
        compound ← is_compound_state m sid
        if compound then enter_initial rec sid state e' else do
          parallel ← is_parallel_state m sid
          if parallel then fill_children rec sid e' else done e'

  enter_kind : (ℕ → EntrySets → Run EntrySets) → Bool → ℕ → State → EntrySets → Run EntrySets
  unfolding enter_history enter_state
  enter_kind rec history sid state e =
      if history then enter_history rec sid state e else enter_state rec sid state e

  unfoldable pub add_descendant_states_to_enter : ℕ → ℕ → EntrySets → Run EntrySets
  unfolding enter_kind
  add_descendant_states_to_enter zero sid e = stuck
  add_descendant_states_to_enter (suc fuel) sid e = do
    state ← get_state_by_id m sid
    history ← is_history_state m sid
    enter_kind (add_descendant_states_to_enter fuel) history sid state e

  pub enter_transition : ℕ → ℕ → EntrySets → Run EntrySets
  unfolding add_descendant_states_to_enter add_ancestor_states_to_enter
  enter_transition fuel tid e = do
    t ← get_transition_by_id m tid
    e' ← each (add_descendant_states_to_enter fuel) t.target e
    ancestor ← get_transition_domain m hist t
    effective ← get_effective_target_states m hist t
    each (λ s f. add_ancestor_states_to_enter (add_descendant_states_to_enter fuel) s ancestor f)
        effective e'

  -- The rounds given to the descent: for each depth of the tree, more than there are states.
  unfoldable pub entry_rounds : ℕ
  entry_rounds = let n = length m.states in suc (suc n * (n + 2))

  unfoldable pub compute_entry_set : List ℕ → EntrySets → Run EntrySets
  unfolding enter_transition
  compute_entry_set transitions e = each (enter_transition entry_rounds) transitions e
