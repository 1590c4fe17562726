-- ===== src/Fsm/Interpreter/Arriving.antt =====
-- `enterStates` of src/fsm.rs: the states of the entry set are entered in document order.
pub mod Arrives
use r_fsm.Prelude.{
  ℕ, List, [], ◌∷◌, ◌++◌, Bool, true, false, not, ◌&&◌, none, Option, Run, done, ◌>>=◌,
  if◌then◌else◌, ◌==◌,
}
use r_fsm.Collections.HashTable
use r_fsm.Collections.OrderedSet
use r_fsm.Collections.OrderedSet.{OrderedSet}
use r_fsm.Collections.SeqList
use r_fsm.Collections.Sort
use r_fsm.Fsm.Types.{
  Text, State, BindingType, Fsm, get_state_by_id, get_transition_by_id, state_entry_order,
}
use r_fsm.Fsm.Tree.{is_parallel_state, is_scxml_element, get_child_states}
use r_fsm.Fsm.Final.{is_in_final_state}
use r_fsm.Fsm.Entry.{EntrySets, compute_entry_set}
use r_fsm.Fsm.Interpreter.{
  Host, Global, EventType, new_event, done_state_prefix, enqueue_internal, absorb, execute_all,
}

abbrev pub is_late : BindingType → Bool
is_late BindingType.late = true
is_late BindingType.early = false

-- The content of the initial transition, if the state is entered by default.
pub initial_content : Fsm → EntrySets → ℕ → State → Run (List ℕ)
initial_content m e sid s =
    if OrderedSet.is_member e.states_for_default_entry sid && not (s.initial == 0)
    then (get_transition_by_id m s.initial >>= λ t. done (t.content ∷ []))
    else done []

pub history_content : EntrySets → ℕ → Run (List ℕ)
history_content e sid =
    if HashTable.has e.default_history_content sid
    then (HashTable.get e.default_history_content sid >>= λ c. done (c ∷ []))
    else done []

module _ {h : Host} (m : Fsm) where
  -- The data of a state that is entered for the first time, with late binding.
  pub first_entry : ℕ → State → Global h → Global h
  unfolding absorb
  first_entry sid s g =
      if is_late m.binding && s.is_first_entry && not (OrderedSet.is_member g.entered sid)
      then absorb (record g { entered = OrderedSet.add g.entered sid })
          (h.initialize_data_model g.model sid)
      else g

  -- The event "done.state." and a name.
  pub enqueue_done : Text → Option (List (Text × h.Value)) → Option h.Value → Global h → Global h
  unfolding enqueue_internal new_event
  enqueue_done name params content g =
      enqueue_internal g (new_event done_state_prefix name params content EventType.external)

  -- The grandparent of a final state is done if all its regions are.
  grandparent_done : ℕ → Global h → Run (Global h)
  unfolding enqueue_done
  grandparent_done grandparent g =
      let all = get_child_states m grandparent >>= λ l.
      SeqList.every (is_in_final_state m g.configuration) l in
      do
        parallel ← is_parallel_state m grandparent
        finished ← if parallel then all else done false
        if finished
            then (get_state_by_id m grandparent >>= λ p. done (enqueue_done p.name none none g))
            else done g

  -- A final state stops the session, if its parent is the root, or finishes its parent.
  pub final_entry : ℕ → State → Global h → Run (Global h)
  unfolding grandparent_done
  final_entry sid s g =
      if is_scxml_element m s.parent then done (record g { running = false }) else do
        p ← get_state_by_id m s.parent
        (d, events, (params, content)) ← done (h.done_data g.model sid)
        grandparent_done p.parent (enqueue_done p.name params content (absorb g (d, events)))

  pub enter_state : EntrySets → ℕ → Global h → Run (Global h)
  unfolding first_entry initial_content history_content execute_all final_entry
  enter_state e sid g = do
    s ← get_state_by_id m sid
    by_default ← initial_content m e sid s
    by_history ← history_content e sid
    let g' : Global h = first_entry sid s (record g {
      configuration = OrderedSet.add g.configuration sid;
      states_to_invoke = OrderedSet.add g.states_to_invoke sid;
    })
    let entered = execute_all (s.onentry ++ by_default ++ by_history) g'
    if s.is_final then final_entry sid s entered else done entered

  pub enter_all : EntrySets → List ℕ → Global h → Run (Global h)
  unfolding enter_state
  enter_all e [] g = done g
  enter_all e (sid ∷ l) g = enter_state e sid g >>= λ g'. enter_all e l g'

  unfoldable pub enter_states : List ℕ → Global h → Run (Global h)
  unfolding enter_all
  enter_states enabled_transitions g = do
    e ← compute_entry_set m g.history_value enabled_transitions (record {
      states_to_enter = [];
      states_for_default_entry = [];
      default_history_content = [];
    })
    sorted ← Sort.sort (state_entry_order m) (OrderedSet.to_list e.states_to_enter)
    enter_all e sorted g
