-- ===== src/Fsm/Exit.antt =====
-- `computeExitSet` of src/fsm.rs: the active states below the domains of the transitions.
pub mod Members
use r_fsm.Prelude.{
  ℕ, List, [], ◌∷◌, Bool, true, false, not, Run, done, panic, stuck, ◌>>=◌, if◌then◌else◌,
}
use r_fsm.Collections.OrderedSet
use r_fsm.Collections.OrderedSet.{OrderedSet}
use r_fsm.Fsm.Types.{Transition, Fsm, get_transition_by_id}
use r_fsm.Fsm.Tree.{is_descendant, no_ids}
use r_fsm.Fsm.Domain.{HistoryTable, get_transition_domain}

-- The inner loop, over the configuration.
exit_loop : Fsm → ℕ → List ℕ → OrderedSet → Run OrderedSet
exit_loop m domain [] states_to_exit = done states_to_exit
exit_loop m domain (s ∷ configuration) states_to_exit = do
  below ← is_descendant m s domain
  exit_loop m domain configuration
      (if below then OrderedSet.add states_to_exit s else states_to_exit)

-- One round of the outer loop.
exit_one : Fsm → HistoryTable → OrderedSet → ℕ → OrderedSet → Run OrderedSet
unfolding exit_loop
exit_one m hist configuration tid states_to_exit = do
  t ← get_transition_by_id m tid
  if no_ids t.target then done states_to_exit else do
    domain ← get_transition_domain m hist t
    exit_loop m domain configuration states_to_exit

exit_all : Fsm → HistoryTable → OrderedSet → List ℕ → OrderedSet → Run OrderedSet
unfolding exit_one
exit_all m hist configuration [] states_to_exit = done states_to_exit
exit_all m hist configuration (tid ∷ l) states_to_exit =
    exit_one m hist configuration tid states_to_exit >>= λ s. exit_all m hist configuration l s

unfoldable pub compute_exit_set : Fsm → HistoryTable → OrderedSet → List ℕ → Run OrderedSet
unfolding exit_all
compute_exit_set m hist configuration transitions = exit_all m hist configuration transitions []
