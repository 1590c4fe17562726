-- ===== src/Fsm/Final.antt =====
-- `isInFinalState` of src/fsm.rs, on fuel for the recursion through parallel states.
pub mod Decided
use r_fsm.Prelude.{
  ℕ, suc, zero, List, [], ◌∷◌, Bool, true, false, ◌&&◌, Run, done, stuck, ◌>>=◌, if◌then◌else◌,
}
use r_fsm.Collections.OrderedSet
use r_fsm.Collections.OrderedSet.{OrderedSet}
use r_fsm.Collections.SeqList
use r_fsm.Fsm.Types.{Fsm}
use r_fsm.Fsm.Tree.{
  get_child_states, is_compound_state, is_parallel_state, is_final_state_id, rounds,
}

final_and_active : Fsm → OrderedSet → ℕ → Run Bool
final_and_active m configuration cs = do
  final ← is_final_state_id m cs
  done (final && OrderedSet.is_member configuration cs)

in_final_state : Fsm → OrderedSet → ℕ → ℕ → Run Bool
unfolding final_and_active
in_final_state m configuration zero s = stuck
in_final_state m configuration (suc fuel) s =
    let all_children =
      get_child_states m s >>= λ l. SeqList.every (in_final_state m configuration fuel) l in
    let some_child =
      get_child_states m s >>= λ l. SeqList.some (final_and_active m configuration) l in
    do
      compound ← is_compound_state m s
      if compound
          then some_child
          else do parallel ← is_parallel_state m s; if parallel then all_children else done false

unfoldable pub is_in_final_state : Fsm → OrderedSet → ℕ → Run Bool
unfolding in_final_state
is_in_final_state m configuration s = in_final_state m configuration (rounds m) s
