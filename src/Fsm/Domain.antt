-- ===== src/Fsm/Domain.antt =====
-- The domain of a transition in src/fsm.rs: `findLCCA`, `getEffectiveTargetStates` and
-- `getTransitionDomain`. `hist` is the table `historyValue` of the global data.
pub mod Lcca
pub mod Resolved
pub mod Targets
pub mod Scope
use r_fsm.Prelude.{
  ℕ, suc, zero, List, [], ◌∷◌, Bool, true, false, not, Run, done, panic, stuck, ◌>>=◌,
  if◌then◌else◌, length,
}
use r_fsm.Collections.OrderedSet
use r_fsm.Collections.OrderedSet.{OrderedSet}
use r_fsm.Collections.SeqList
use r_fsm.Collections.HashTable
use r_fsm.Fsm.Types.{State, Transition, TransitionType, Fsm, get_state_by_id, get_transition_by_id}
use r_fsm.Fsm.Tree.{
  is_descendant, get_proper_ancestors, is_compound_state, is_compound_state_or_scxml_element,
  is_history_state, rounds,
}

abbrev pub HistoryTable : Type 0
HistoryTable = List (ℕ × OrderedSet)

-- The loop of `findLCCA` over the compound ancestors of the head.
lcca_loop : Fsm → List ℕ → List ℕ → Run ℕ
lcca_loop m state_list [] = done 0
lcca_loop m state_list (anc ∷ r) =
    let rest = lcca_loop m state_list r in
    do
      others ← SeqList.tail state_list
      below ← SeqList.every (λ s. is_descendant m s anc) others
      if below then done anc else rest

unfoldable pub find_lcca : Fsm → List ℕ → Run ℕ
unfolding lcca_loop
find_lcca m state_list = do
  first ← SeqList.head state_list
  above ← get_proper_ancestors m first 0
  compound ← SeqList.filter_by (is_compound_state_or_scxml_element m) (OrderedSet.to_list above)
  lcca_loop m state_list compound

-- A history state stands for its recorded value, or for the targets of its default transition,
-- which `rec` computes.
history_targets :
    (Transition → Run OrderedSet) → Fsm → HistoryTable → ℕ → OrderedSet → Run OrderedSet
history_targets rec m hist sid targets =
    if HashTable.has hist sid
    then (HashTable.get hist sid >>= λ stored. done (OrderedSet.union targets stored))
    else do
      s ← get_state_by_id m sid
      tid ← SeqList.head s.transitions
      t ← get_transition_by_id m tid
      defaults ← rec t
      done (OrderedSet.union targets defaults)

target_loop :
    (Transition → Run OrderedSet) → Fsm → HistoryTable → List ℕ → OrderedSet → Run OrderedSet
target_loop rec m hist [] targets = done targets
target_loop rec m hist (sid ∷ l) targets = do
  is_history ← is_history_state m sid
  targets' ←
      (if is_history
        then history_targets rec m hist sid targets
        else done (OrderedSet.add targets sid))
  target_loop rec m hist l targets'

-- The recursion through default transitions of history states is on fuel.
effective_targets : Fsm → HistoryTable → ℕ → Transition → Run OrderedSet
unfolding target_loop history_targets
effective_targets m hist zero t = stuck
effective_targets m hist (suc fuel) t =
    target_loop (effective_targets m hist fuel) m hist t.target []

unfoldable pub get_effective_target_states : Fsm → HistoryTable → Transition → Run OrderedSet
unfolding effective_targets
get_effective_target_states m hist t = effective_targets m hist (rounds m) t

abbrev is_internal : TransitionType → Bool
is_internal TransitionType.internal = true
is_internal TransitionType.external = false

-- The guard of the second branch of `getTransitionDomain`, evaluated from left to right.
stays_inside : Fsm → Transition → OrderedSet → Run Bool
stays_inside m t tstates = if not (is_internal t.transition_type) then done false else do
  compound ← is_compound_state m t.source
  if compound then SeqList.every (λ s. is_descendant m s t.source) tstates else done false

unfoldable pub get_transition_domain : Fsm → HistoryTable → Transition → Run ℕ
unfolding stays_inside
get_transition_domain m hist t = do
  tstates ← get_effective_target_states m hist t
  if OrderedSet.is_empty tstates then done 0 else do
    inside ← stays_inside m t tstates
    if inside then done t.source else find_lcca m (SeqList.append (t.source ∷ []) tstates)
