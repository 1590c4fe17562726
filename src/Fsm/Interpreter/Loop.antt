-- ===== src/Fsm/Interpreter/Loop.antt =====
-- `mainEventLoop` of src/fsm.rs: its rounds, the invokes after a macrostep, and external events.
pub mod Rounds
pub mod Invariant
pub mod Progress
pub mod Bodies
use r_fsm.Prelude.{
  ℕ, List, [], ◌∷◌, ◌++◌, Bool, true, false, not, ◌&&◌, Option, none, some, Run, done, ◌>>=◌,
  if◌then◌else◌, ◌==◌, ◌≡◌,
}
use Prim.Native.Nat.{Ordering}
use r_fsm.Collections.OrderedSet
use r_fsm.Collections.OrderedSet.{OrderedSet}
use r_fsm.Collections.Queue
use r_fsm.Collections.Sort
use r_fsm.Fsm.Types.{Text, Invoke, Fsm, get_state_by_id, state_entry_order, by_doc_id}
use r_fsm.Fsm.Selection.{Conditions, select_transitions, select_eventless_transitions, starts_with}
use r_fsm.Fsm.Interpreter.{
  Event, Session, Host, Global, absorb, execute_all, without, same_text, error_execution,
  event_cancel_session, event_done_invoke_prefix,
}
use r_fsm.Fsm.Interpreter.Microstep.{microstep}

-- The conditions are evaluated in a configuration; they change the data model and can put events
-- into the internal queue.
abbrev pub conditions : Host → OrderedSet → Conditions
conditions h configuration = record {
  Model = h.Model × List (Event h.Value);
  execute_condition = λ (d, queue) text.
      let (d', events, r) = h.execute_condition d configuration text in ((d', queue ++ events), r);
  internal_error_execution = λ (d, queue). (d, Queue.enqueue queue (error_execution none none));
}

-- A session is listed under its id.
unfoldable pub session_of : Text → List (Text × Session) → Option Session
session_of id [] = none
session_of id ((k, s) ∷ t) = let rest = session_of id t in if same_text k id then some s else rest

abbrev pub is_some : Option Session → Bool
is_some none = false
is_some (some s) = true

abbrev pub caller_name : Option Text → Text
caller_name none = []
caller_name (some id) = id

-- The table with the session that an invoke has started.
abbrev pub started : ℕ → Invoke → Option (Text × ℕ) → List (Text × Session) → List (Text × Session)
started sid inv none sessions = sessions
started sid inv (some (id, session)) sessions =
    (id, record { session_id = session; invoke_doc_id = inv.doc_id; state_id = some sid })
    ∷ without id sessions

-- The ids of the `finalize` contents and of the sessions to forward to, of the invokes of a state.
abbrev pub finalizes : ℕ → List Invoke → List ℕ
finalizes doc_id [] = []
finalizes doc_id (inv ∷ l) =
    let rest = finalizes doc_id l in if inv.doc_id == doc_id then inv.finalize ∷ rest else rest

abbrev pub forwards : ℕ → List Invoke → List ℕ
forwards session [] = []
forwards session (inv ∷ l) =
    let rest = forwards session l in if inv.autoforward then session ∷ rest else rest

-- `Invoke`s in document order.
pub invoke_document_order : Invoke → Invoke → Run Ordering
invoke_document_order a b = done (by_doc_id a.doc_id b.doc_id)

-- Where the loop stands: in a macrostep, or waiting for an external event.
pub data Phase : Type 0 where
  stepping waiting : Phase

unfoldable pub is_cancel_event : {V : Type 0} → Event V → Bool
is_cancel_event e = same_text e.name event_cancel_session

-- The `finalize` contents and the sessions to forward to, of the session that sent the event.
pub state_invokes : Fsm → Session → Option ℕ → Run (List ℕ × List ℕ)
state_invokes m session none = done ([], [])
state_invokes m session (some sid) = do
  state ← get_state_by_id m sid
  done (finalizes session.invoke_doc_id state.invoke, forwards session.session_id state.invoke)

pub sender_invokes : Fsm → Option Session → Run (List ℕ × List ℕ)
unfolding state_invokes
sender_invokes m none = done ([], [])
sender_invokes m (some session) = state_invokes m session session.state_id

module _ {h : Host} (m : Fsm) where
  -- The model and the queue after a selection.
  abbrev pub selected :
      Global h → OrderedSet × (h.Model × List (Event h.Value)) → OrderedSet × Global h
  selected g (enabled, (d, queue)) = (enabled, record g { model = d; internal_queue = queue })

  unfoldable pub eventless : Global h → Run (OrderedSet × Global h)
  eventless g =
      select_eventless_transitions (conditions h g.configuration) m g.history_value g.configuration
        (g.model, g.internal_queue)
      >>= λ r. done (selected g r)

  unfoldable pub by_event : Event h.Value → Global h → Run (OrderedSet × Global h)
  by_event e g =
      select_transitions (conditions h g.configuration) m e.name g.history_value g.configuration
        (g.model, g.internal_queue)
      >>= λ r. done (selected g r)

  -- `if !enabledTransitions.isEmpty() { microstep }`
  unfoldable pub microstep_if : OrderedSet × Global h → Run (Global h)
  microstep_if (enabled, g) =
      let step = microstep m (OrderedSet.to_list enabled) g in
      if OrderedSet.is_empty enabled then done g else step

  -- `set_event`, then the transitions that the event enables.
  unfoldable pub process : Event h.Value → Global h → Run (Global h)
  unfolding by_event microstep_if
  process e g = by_event e (record g { model = h.set_event g.model e }) >>= microstep_if

  pub internal_event : Global h → Run (Bool × Global h)
  unfolding process
  internal_event g = do
    (e, queue) ← Queue.dequeue g.internal_queue
    g' ← process e (record g { internal_queue = queue })
    done (false, g')

  -- A round of the inner loop, and `macrostepDone` after it.
  unfoldable pub round : Global h → Run (Bool × Global h)
  unfolding eventless microstep_if internal_event
  round g = do
    (enabled, g') ← eventless g
    let event = if Queue.is_empty g'.internal_queue then done (true, g') else internal_event g'
    let step = microstep_if (enabled, g') >>= λ g''. done (false, g'')
    if OrderedSet.is_empty enabled then event else step

  pub invoke_one : ℕ → Invoke → Global h → Global h
  unfolding absorb
  invoke_one sid inv g =
      let (d, events, session) = h.invoke g.model sid inv in
      let g' : Global h = absorb g (d, events) in
      record g' { child_sessions = started sid inv session g'.child_sessions }

  pub invoke_each : ℕ → List Invoke → Global h → Global h
  unfolding invoke_one
  invoke_each sid [] g = g
  invoke_each sid (inv ∷ l) g = invoke_each sid l (invoke_one sid inv g)

  pub invoke_states : List ℕ → Global h → Run (Global h)
  unfolding invoke_each invoke_document_order
  invoke_states [] g = done g
  invoke_states (sid ∷ l) g = do
    state ← get_state_by_id m sid
    invokes ← Sort.sort invoke_document_order state.invoke
    invoke_states l (invoke_each sid invokes g)

  -- After a macrostep: the invokes of the states that were entered, in entry order. If they have
  -- raised events the loop goes on, else it waits.
  unfoldable pub invoke_phase : Global h → Run (Phase × Global h)
  unfolding invoke_states
  invoke_phase g = do
    sorted ← Sort.sort (state_entry_order m) g.states_to_invoke
    g' ← invoke_states sorted g
    let cleared : Global h = record g' { states_to_invoke = OrderedSet.clear g'.states_to_invoke }
    done (if Queue.is_empty g'.internal_queue then waiting else stepping, cleared)

  -- Whether an external event is taken from the queue: events of sessions that are not active any
  -- more are ignored.
  from_session : Option Text → Global h → Bool
  unfolding session_of
  from_session none g = true
  from_session (some id) g =
      if same_text (caller_name g.caller_invoke_id) id
      then true
      else is_some (session_of id g.child_sessions)

  -- Whether an external event is taken from the queue: events of sessions that are not active any
  -- more are ignored.
  unfoldable pub accepts : Event h.Value → Global h → Bool
  unfolding from_session
  accepts e g =
      if starts_with e.name event_done_invoke_prefix then true else from_session e.invoke_id g

  pub removed : Option Text → Global h → Global h
  unfolding without
  removed none g = g
  removed (some id) g = record g { child_sessions = without id g.child_sessions }

  -- A session that has ended is removed.
  unfoldable pub remove_done : Event h.Value → Global h → Global h
  unfolding removed
  remove_done e g = if starts_with e.name event_done_invoke_prefix then removed e.invoke_id g else g

  pub sent_by : Option Text → Global h → Run (List ℕ × List ℕ)
  unfolding sender_invokes session_of
  sent_by none g = done ([], [])
  sent_by (some id) g = sender_invokes m (session_of id g.child_sessions)

  unfoldable pub to_finalize_and_forward : Event h.Value → Global h → Run (List ℕ × List ℕ)
  unfolding sent_by
  to_finalize_and_forward e g = sent_by e.invoke_id g

  pub forward_all : List ℕ → Event h.Value → Global h → Global h
  forward_all [] e g = g
  forward_all (session ∷ l) e g = forward_all l e (record g { model = h.forward g.model session e })

  -- What follows once the invokes that the event concerns are known.
  pub finalized : Event h.Value → Global h → List ℕ × List ℕ → Run (Global h)
  unfolding forward_all by_event microstep_if
  finalized e g (finalize, forward) =
      let g' : Global h = execute_all finalize (record g { model = h.set_event g.model e }) in
      by_event e (forward_all forward e g') >>= microstep_if

  -- The rest of the loop's body, for an event that was taken from the queue and is no cancel event.
  unfoldable pub external_event : Event h.Value → Global h → Run (Global h)
  unfolding remove_done to_finalize_and_forward finalized
  external_event e g = let g' = remove_done e g in to_finalize_and_forward e g' >>= finalized e g'

  -- The loop's body up to the wait: a round, and the invokes if it was the last one and the session
  -- still runs.
  unfoldable pub macrostep_body : Global h → Run (Phase × Global h)
  unfolding round invoke_phase
  macrostep_body g = do
    (macrostep_done, g') ← round g
    let invoked = invoke_phase g'
    if macrostep_done && g'.running then invoked else done (stepping, g')

  -- The loop's body for an event that it takes from the external queue.
  unfoldable pub on_event : Event h.Value → Global h → Run (Phase × Global h)
  unfolding external_event
  on_event e g =
      let handled = external_event e g >>= λ g'. done (stepping, g') in
      let stopped : Run (Phase × Global h) = done (stepping, record g { running = false }) in
      if accepts e g then (if is_cancel_event e then stopped else handled) else done (waiting, g)

  -- The steps of the loop. An external event can arrive whenever the loop waits.
  pub data Step : Phase × Global h → Phase × Global h → Type 0 where
    in_macrostep :
        (g g' : Global h)
        → g.running ≡ true
        → round g ≡ done (false, g')
        → Step (stepping, g) (stepping, g')
    stopped_in_macrostep :
        (g g' : Global h)
        → g.running ≡ true
        → round g ≡ done (true, g')
        → g'.running ≡ false
        → Step (stepping, g) (stepping, g')
    after_macrostep :
        (g g' : Global h) (r : Phase × Global h)
        → g.running ≡ true
        → round g ≡ done (true, g')
        → g'.running ≡ true
        → invoke_phase g' ≡ done r
        → Step (stepping, g) r
    ignored :
        (g : Global h) (e : Event h.Value) → accepts e g ≡ false → Step (waiting, g) (waiting, g)
    cancelled :
        (g : Global h) (e : Event h.Value)
        → accepts e g ≡ true
        → is_cancel_event e ≡ true
        → Step (waiting, g) (stepping, record g { running = false })
    received :
        (g g' : Global h) (e : Event h.Value)
        → accepts e g ≡ true
        → is_cancel_event e ≡ false
        → external_event e g ≡ done g'
        → Step (waiting, g) (stepping, g')

  -- Any number of steps.
  pub data Reach (start : Phase × Global h) : Phase × Global h → Type 0 where
    here : Reach start start
    next : {s s' : Phase × Global h} → Reach start s → Step s s' → Reach start s'
