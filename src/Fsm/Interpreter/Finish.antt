-- ===== src/Fsm/Interpreter/Finish.antt =====
-- `exitInterpreter` and `returnDoneEvent` of src/fsm.rs.
pub mod Ends
use r_fsm.Prelude.{
  ℕ, List, [], ◌∷◌, Bool, true, false, ◌&&◌, Option, none, some, Run, done, panic, ◌>>=◌,
  if◌then◌else◌,
}
use r_fsm.Collections.OrderedSet
use r_fsm.Collections.Sort
use r_fsm.Fsm.Types.{Text, State, Fsm, get_state_by_id, state_exit_order}
use r_fsm.Fsm.Tree.{is_scxml_element}
use r_fsm.Fsm.Interpreter.{
  Event, EventType, Session, Host, Global, absorb, execute_all, new_simple, new_event,
  event_cancel_session, event_done_invoke_prefix,
}

pub state_names : Fsm → List ℕ → Run (List Text)
state_names m [] = done []
state_names m (sid ∷ l) = do
  s ← get_state_by_id m sid
  names ← state_names m l
  done (s.name ∷ names)

abbrev pub is_wanted : Option (List Text) → Bool
is_wanted none = false
is_wanted (some l) = true

module _ {h : Host} (m : Fsm) where
  -- The names of the active states, if they are asked for.
  pub keep_configuration : Global h → Run (Global h)
  unfolding state_names
  keep_configuration g =
      let names = state_names m (OrderedSet.to_list g.configuration) in
      if is_wanted g.final_configuration
      then (names >>= λ l. done (record g { final_configuration = some l }))
      else done g

  pub cancel_sessions : List (Text × Session) → Global h → Global h
  unfolding absorb new_simple
  cancel_sessions [] g = g
  cancel_sessions ((id, s) ∷ l) g =
      cancel_sessions l (absorb g (h.send g.model s.session_id (new_simple event_cancel_session)))

  -- The event "done.invoke." and the id of the caller goes to the parent session.
  pub done_to_parent : Option Text → Option ℕ → Global h → Run (Global h)
  unfolding absorb new_event
  done_to_parent caller none g = done g
  done_to_parent none (some session_id) g = panic
  done_to_parent (some invoke_id) (some session_id) g =
      let event : Event h.Value =
        record (new_event event_done_invoke_prefix invoke_id none none EventType.external) {
          invoke_id = some invoke_id;
        } in
      done (absorb g (h.send g.model session_id event))

  unfoldable pub return_done_event : Global h → Run (Global h)
  unfolding done_to_parent
  return_done_event g = done_to_parent g.caller_invoke_id g.parent_session_id g

  pub finish_state : ℕ → Global h → Run (Global h)
  unfolding execute_all return_done_event
  finish_state sid g = do
    s ← get_state_by_id m sid
    let g' = execute_all s.onexit g
    let g'' : Global h = record g' { configuration = OrderedSet.delete g'.configuration sid }
    let returned = return_done_event g''
    if s.is_final && is_scxml_element m s.parent then returned else done g''

  pub finish_all : List ℕ → Global h → Run (Global h)
  unfolding finish_state
  finish_all [] g = done g
  finish_all (sid ∷ l) g = finish_state sid g >>= λ g'. finish_all l g'

  unfoldable pub exit_interpreter : Global h → Run (Global h)
  unfolding keep_configuration cancel_sessions finish_all
  exit_interpreter g = do
    g' ← keep_configuration g
    sorted ← Sort.sort (state_exit_order m) (OrderedSet.to_list g'.configuration)
    finish_all sorted (cancel_sessions g'.child_sessions g')
