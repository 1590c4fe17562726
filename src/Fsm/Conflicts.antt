-- ===== src/Fsm/Conflicts.antt =====
-- `removeConflictingTransitions` of src/fsm.rs.
pub mod Verdicts
pub mod Disjoint
use r_fsm.Prelude.{
  ℕ, List, [], ◌∷◌, Bool, true, false, Option, none, some, Run, done, panic, stuck, ◌>>=◌,
  if◌then◌else◌,
}
use r_fsm.Collections.OrderedSet
use r_fsm.Collections.OrderedSet.{OrderedSet}
use r_fsm.Fsm.Types.{Transition, Fsm, get_transition_by_id}
use r_fsm.Fsm.Tree.{is_descendant}
use r_fsm.Fsm.Domain.{HistoryTable}
use r_fsm.Fsm.Exit.{compute_exit_set}

-- The inner loop over the transitions that are kept so far: `none` if one of them preempts `tid1`,
-- else the ones that `tid1` preempts.
pub preempt_loop :
    (Fsm × HistoryTable × OrderedSet)
    → ℕ
    → Transition
    → List ℕ
    → OrderedSet
    → Run (Option OrderedSet)
preempt_loop env tid1 t1 [] to_remove = done (some to_remove)
preempt_loop (m, hist, configuration) tid1 t1 (tid2 ∷ l) to_remove =
    let removing =
      preempt_loop (m, hist, configuration) tid1 t1 l (OrderedSet.add to_remove tid2) in
    let passing = preempt_loop (m, hist, configuration) tid1 t1 l to_remove in
    do
      exit1 ← compute_exit_set m hist configuration (tid1 ∷ [])
      exit2 ← compute_exit_set m hist configuration (tid2 ∷ [])
      if OrderedSet.has_intersection exit1 exit2
          then (do
            t2 ← get_transition_by_id m tid2
            below ← is_descendant m t1.source t2.source
            if below then removing else done none)
          else passing

delete_all : OrderedSet → List ℕ → OrderedSet
delete_all filtered [] = filtered
delete_all filtered (t3 ∷ l) = delete_all (OrderedSet.delete filtered t3) l

-- `if !t1Preempted { … }`
settle : OrderedSet → ℕ → Option OrderedSet → OrderedSet
unfolding delete_all
settle filtered tid1 none = filtered
settle filtered tid1 (some to_remove) =
    OrderedSet.add (delete_all filtered (OrderedSet.to_list to_remove)) tid1

conflict_loop : Fsm → HistoryTable → OrderedSet → List ℕ → OrderedSet → Run OrderedSet
unfolding preempt_loop settle
conflict_loop m hist configuration [] filtered = done filtered
conflict_loop m hist configuration (tid1 ∷ l) filtered = do
  t1 ← get_transition_by_id m tid1
  verdict ← preempt_loop (m, hist, configuration) tid1 t1 (OrderedSet.to_list filtered) []
  conflict_loop m hist configuration l (settle filtered tid1 verdict)

unfoldable pub remove_conflicting_transitions :
    Fsm → HistoryTable → OrderedSet → OrderedSet → Run OrderedSet
unfolding conflict_loop
remove_conflicting_transitions m hist configuration enabled =
    conflict_loop m hist configuration (OrderedSet.to_list enabled) []
