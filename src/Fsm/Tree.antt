-- ===== src/Fsm/Tree.antt =====
-- The predicates and walks on the tree of states of src/fsm.rs: `isDescendant`,
-- `getProperAncestors`, `isCompoundState` and their neighbours.
pub mod Chain
pub mod Walks
pub mod Order
pub mod Ancestry
use r_fsm.Prelude.{
  ℕ, suc, zero, List, [], ◌∷◌, Bool, true, false, not, ◌&&◌, ◌||◌, Run, done, panic, stuck, ◌>>=◌,
  if◌then◌else◌, ◌==◌, length,
}
use r_fsm.Collections.OrderedSet
use r_fsm.Collections.OrderedSet.{OrderedSet}
use r_fsm.Collections.SeqList
use r_fsm.Fsm.Types.{State, Fsm, HistoryType, get_state_by_id}

-- The rounds given to a walk along the parents: one more than there are states.
unfoldable pub rounds : Fsm → ℕ
rounds m = suc (length m.states)

-- `while currState != 0 && currState != state2 { currState = parent }`
climb : Fsm → ℕ → ℕ → ℕ → Run ℕ
climb m zero state2 curr = stuck
climb m (suc fuel) state2 curr =
    let next = get_state_by_id m curr >>= λ s. climb m fuel state2 s.parent in
    if not (curr == 0) && not (curr == state2) then next else done curr

unfoldable pub is_descendant : Fsm → ℕ → ℕ → Run Bool
unfolding climb
is_descendant m state1 state2 =
    if state1 == 0 || state2 == 0 || state1 == state2 then done false else do
      s ← get_state_by_id m state1
      curr ← climb m (rounds m) state2 s.parent
      done (curr == state2)

-- The same walk, which collects the states that it passes.
collect : Fsm → ℕ → ℕ → ℕ → OrderedSet → Run OrderedSet
collect m zero state2 curr acc = stuck
collect m (suc fuel) state2 curr acc =
    let next =
      get_state_by_id m curr >>= λ s. collect m fuel state2 s.parent (OrderedSet.add acc curr) in
    if not (curr == 0) && not (curr == state2) then next else done acc

unfoldable pub get_proper_ancestors : Fsm → ℕ → ℕ → Run OrderedSet
unfolding collect
get_proper_ancestors m state1 state2 = do
  below ← is_descendant m state2 state1
  if below
      then done []
      else do s ← get_state_by_id m state1; collect m (rounds m) state2 s.parent []

unfoldable pub is_parallel_state : Fsm → ℕ → Run Bool
is_parallel_state m state =
    if state == 0 then done false else (get_state_by_id m state >>= λ s. done s.is_parallel)

unfoldable pub is_scxml_element : Fsm → ℕ → Bool
is_scxml_element m state = state == m.pseudo_root

unfoldable pub is_final_state_id : Fsm → ℕ → Run Bool
is_final_state_id m state = get_state_by_id m state >>= λ s. done s.is_final

abbrev pub no_ids : List ℕ → Bool
no_ids [] = true
no_ids (x ∷ l) = false

unfoldable pub is_atomic_state : State → Bool
is_atomic_state s = no_ids s.states

unfoldable pub is_atomic_state_id : Fsm → ℕ → Run Bool
unfolding is_atomic_state
is_atomic_state_id m sid = get_state_by_id m sid >>= λ s. done (is_atomic_state s)

unfoldable pub is_compound_state : Fsm → ℕ → Run Bool
is_compound_state m state =
    if not (state == 0)
    then (get_state_by_id m state >>= λ s.
        done (not (s.is_final || s.is_parallel || no_ids s.states)))
    else done false

unfoldable pub is_compound_state_or_scxml_element : Fsm → ℕ → Run Bool
is_compound_state_or_scxml_element m sid =
    if sid == m.pseudo_root then done true else is_compound_state m sid

abbrev pub not_none : HistoryType → Bool
not_none HistoryType.none = false
not_none _ = true

unfoldable pub is_history_state : Fsm → ℕ → Run Bool
is_history_state m state = get_state_by_id m state >>= λ s. done (not_none s.history_type)

-- The loop pushes each child.
unfoldable pub get_child_states : Fsm → ℕ → Run (List ℕ)
get_child_states m state1 = get_state_by_id m state1 >>= λ s. done (SeqList.push_set [] s.states)
