-- ===== src/Fsm/Interpreter/Leaving.antt =====
-- `exitStates` of src/fsm.rs: the histories are recorded, then the states are left.
pub mod Records
pub mod Tables
pub mod Leaves
use r_fsm.Prelude.{ℕ, List, [], ◌∷◌, Bool, true, false, Run, done, ◌>>=◌, if◌then◌else◌, ◌==◌}
use r_fsm.Collections.HashTable
use r_fsm.Collections.OrderedSet
use r_fsm.Collections.OrderedSet.{OrderedSet}
use r_fsm.Collections.SeqList
use r_fsm.Collections.Sort
use r_fsm.Fsm.Types.{State, HistoryType, Fsm, get_state_by_id, state_exit_order}
use r_fsm.Fsm.Tree.{is_descendant, is_atomic_state}
use r_fsm.Fsm.Domain.{HistoryTable}
use r_fsm.Fsm.Exit.{compute_exit_set}
use r_fsm.Fsm.Interpreter.{Host, Global, execute_all, cancel_all, sessions_of, invoke_doc_ids}

unfoldable pub delete_all : List ℕ → OrderedSet → OrderedSet
delete_all [] s = s
delete_all (x ∷ l) s = delete_all l (OrderedSet.delete s x)

pub set_to_state_list : Fsm → List ℕ → Run (List State)
set_to_state_list m [] = done []
set_to_state_list m (sid ∷ l) = do
  s ← get_state_by_id m sid
  states ← set_to_state_list m l
  done (s ∷ states)

-- The ids are added one by one.
pub state_list_to_id_set : List State → OrderedSet → OrderedSet
state_list_to_id_set [] acc = acc
state_list_to_id_set (s ∷ l) acc = state_list_to_id_set l (OrderedSet.add acc s.id)

abbrev pub is_deep : HistoryType → Bool
is_deep HistoryType.deep = true
is_deep _ = false

-- The two filters on the configuration.
pub atomic_below : Fsm → ℕ → State → Run Bool
atomic_below m sid s0 = if is_atomic_state s0 then is_descendant m s0.id sid else done false

pub is_child : Fsm → ℕ → ℕ → Run Bool
is_child m sid s0 = get_state_by_id m s0 >>= λ s. done (s.parent == sid)

-- What a history state of `sid` records.
pub recorded_value : Fsm → OrderedSet → List State → ℕ → Bool → Run OrderedSet
unfolding atomic_below is_child state_list_to_id_set
recorded_value m configuration config_states sid deep =
    if deep
    then (SeqList.filter_by (atomic_below m sid) config_states >>= λ l.
        done (state_list_to_id_set l []))
    else (SeqList.filter_by (is_child m sid) (OrderedSet.to_list configuration) >>= λ l.
        done (OrderedSet.to_set l))

-- The loop over the history states of a state.
pub record_histories : Fsm → OrderedSet → List State → ℕ → List ℕ → HistoryTable → Run HistoryTable
unfolding recorded_value
record_histories m configuration config_states sid [] ahistory = done ahistory
record_histories m configuration config_states sid (hid ∷ l) ahistory = do
  h ← get_state_by_id m hid
  value ← recorded_value m configuration config_states sid (is_deep h.history_type)
  record_histories m configuration config_states sid l (HashTable.put ahistory h.id value)

-- The loop over the states to exit.
pub record_all : Fsm → OrderedSet → List State → List ℕ → HistoryTable → Run HistoryTable
unfolding record_histories
record_all m configuration config_states [] ahistory = done ahistory
record_all m configuration config_states (sid ∷ l) ahistory = do
  s ← get_state_by_id m sid
  ahistory' ← record_histories m configuration config_states s.id s.history ahistory
  record_all m configuration config_states l ahistory'

module _ {h : Host} (m : Fsm) where
  -- A state is left: its sessions are cancelled, its `onexit` runs, and it is not active any more.
  pub leave_state : ℕ → State → Global h → Global h
  unfolding cancel_all execute_all
  leave_state sid s g =
      let g' =
        execute_all s.onexit
          (cancel_all (sessions_of (invoke_doc_ids s.invoke) g.child_sessions) g) in
      record g' { configuration = OrderedSet.delete g'.configuration sid }

  pub leave_all : List ℕ → Global h → Run (Global h)
  unfolding leave_state
  leave_all [] g = done g
  leave_all (sid ∷ l) g = get_state_by_id m sid >>= λ s. leave_all l (leave_state sid s g)

  unfoldable pub exit_states : List ℕ → Global h → Run (Global h)
  unfolding delete_all set_to_state_list record_all leave_all
  exit_states enabled_transitions g = do
    states_to_exit ← compute_exit_set m g.history_value g.configuration enabled_transitions
    sorted ← Sort.sort (state_exit_order m) states_to_exit
    config_states ← set_to_state_list m g.configuration
    ahistory ← record_all m g.configuration config_states sorted HashTable.new
    leave_all sorted (record g {
      states_to_invoke = delete_all states_to_exit g.states_to_invoke;
      history_value = HashTable.put_all g.history_value ahistory;
    })
