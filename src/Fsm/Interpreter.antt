-- ===== src/Fsm/Interpreter.antt =====
-- The state of a running session (`GlobalData`, `Event` and `ScxmlSession` of src/fsm.rs) and the
-- calls of the data model, with `executeContent`, `enqueue_internal` and `cancelInvoke`.
pub mod Frames
pub mod Leaving
pub mod Validity
pub mod Arriving
pub mod Microstep
pub mod Loop
pub mod Finish
use r_fsm.Prelude.{
  ℕ, List, [], ◌∷◌, ◌++◌, Bool, true, false, not, ◌&&◌, Option, none, some, Run, done, ◌>>=◌,
  if◌then◌else◌, ◌==◌, contains,
}
use r_fsm.Collections.OrderedSet
use r_fsm.Collections.OrderedSet.{OrderedSet}
use r_fsm.Collections.Queue
use r_fsm.Fsm.Types.{Text, Invoke}
use r_fsm.Fsm.Domain.{HistoryTable}

pub data EventType : Type 0 where
  platform internal external : EventType

-- `Event`, with the values `V` of the data model.
pub record Event (V : Type 0) : Type 0 where
  pub name : Text
  pub etype : EventType
  pub sendid : Option Text
  pub origin : Option Text
  pub origin_type : Option Text
  pub invoke_id : Option Text
  pub param_values : Option (List (Text × V))
  pub content : Option V

module _ {V : Type 0} where
  unfoldable pub new_simple : Text → Event V
  new_simple name = record {
    name = name;
    etype = EventType.external;
    sendid = none;
    origin = none;
    origin_type = none;
    invoke_id = none;
    param_values = none;
    content = none;
  }

  unfoldable pub new_event : Text → Text → Option (List (Text × V)) → Option V → EventType → Event V
  new_event prefix id data_params data_content event_type = record {
    name = prefix ++ id;
    etype = event_type;
    sendid = none;
    origin = none;
    origin_type = none;
    invoke_id = none;
    param_values = data_params;
    content = data_content;
  }

  -- "error.execution"
  unfoldable pub error_execution : Option Text → Option Text → Event V
  error_execution send_id invoke_id = record {
    name =
        0x65 ∷ 0x72 ∷ 0x72 ∷ 0x6f ∷ 0x72 ∷ 0x2e ∷ 0x65 ∷ 0x78 ∷ 0x65 ∷ 0x63 ∷ 0x75 ∷ 0x74 ∷ 0x69
        ∷ 0x6f ∷ 0x6e ∷ [];
    etype = EventType.platform;
    sendid = send_id;
    origin = none;
    origin_type = none;
    invoke_id = invoke_id;
    param_values = none;
    content = none;
  }

-- "error.platform.cancel"
abbrev pub event_cancel_session : Text
event_cancel_session =
    0x65 ∷ 0x72 ∷ 0x72 ∷ 0x6f ∷ 0x72 ∷ 0x2e ∷ 0x70 ∷ 0x6c ∷ 0x61 ∷ 0x74 ∷ 0x66 ∷ 0x6f ∷ 0x72 ∷ 0x6d
    ∷ 0x2e ∷ 0x63 ∷ 0x61 ∷ 0x6e ∷ 0x63 ∷ 0x65 ∷ 0x6c ∷ []

-- "done.invoke."
abbrev pub event_done_invoke_prefix : Text
event_done_invoke_prefix =
    0x64 ∷ 0x6f ∷ 0x6e ∷ 0x65 ∷ 0x2e ∷ 0x69 ∷ 0x6e ∷ 0x76 ∷ 0x6f ∷ 0x6b ∷ 0x65 ∷ 0x2e ∷ []

-- "done.state."
abbrev pub done_state_prefix : Text
done_state_prefix = 0x64 ∷ 0x6f ∷ 0x6e ∷ 0x65 ∷ 0x2e ∷ 0x73 ∷ 0x74 ∷ 0x61 ∷ 0x74 ∷ 0x65 ∷ 0x2e ∷ []

abbrev pub same_text : Text → Text → Bool
same_text [] [] = true
same_text [] (d ∷ e) = false
same_text (c ∷ s) [] = false
same_text (c ∷ s) (d ∷ e) = c == d && same_text s e

-- `ScxmlSession`, without its thread and its channel.
pub record Session : Type 0 where
  pub session_id : ℕ
  pub invoke_doc_id : ℕ
  pub state_id : Option ℕ

-- The data model and the executable content. Each call gives the events that it put into the
-- internal queue; content can read the configuration, which it does not change.
pub record Host : Type 1 where
  pub Model : Type 0
  pub Value : Type 0
  pub execute_content : Model → OrderedSet → ℕ → Model × List (Event Value)
  pub initialize_data_model : Model → ℕ → Model × List (Event Value)
  -- `evaluate_params` and `evaluate_content` on the done data of a state, if it has some.
  pub done_data :
      Model → ℕ → Model × List (Event Value) × (Option (List (Text × Value)) × Option Value)
  -- `send` to the session of an id.
  pub send : Model → ℕ → Event Value → Model × List (Event Value)
  -- The session that the invoke of a state starts, if it succeeds, under its invoke id.
  pub invoke : Model → ℕ → Invoke → Model × List (Event Value) × Option (Text × ℕ)
  -- A copy of an event to the channel of a session.
  pub forward : Model → ℕ → Event Value → Model
  pub set_event : Model → Event Value → Model
  pub execute_condition : Model → OrderedSet → Text → Model × List (Event Value) × Option Bool

-- `HashMap::remove` of the standard library.
unfoldable pub without : Text → List (Text × Session) → List (Text × Session)
without id [] = []
without id ((k, s) ∷ t) = let rest = without id t in if same_text k id then rest else (k, s) ∷ rest

abbrev pub invoke_doc_ids : List Invoke → List ℕ
invoke_doc_ids [] = []
invoke_doc_ids (i ∷ l) = i.doc_id ∷ invoke_doc_ids l

-- The sessions that the invokes of a state have started.
abbrev pub sessions_of : List ℕ → List (Text × Session) → List (Text × ℕ)
sessions_of ids [] = []
sessions_of ids ((k, s) ∷ t) =
    let rest = sessions_of ids t in
    if contains s.invoke_doc_id ids then (k, s.session_id) ∷ rest else rest

-- `GlobalData`. `entered` has the states whose flag `isFirstEntry` was cleared.
pub record Global (h : Host) : Type 0 where
  pub configuration : OrderedSet
  pub states_to_invoke : OrderedSet
  pub history_value : HistoryTable
  pub running : Bool
  pub internal_queue : List (Event h.Value)
  pub child_sessions : List (Text × Session)
  pub caller_invoke_id : Option Text
  pub parent_session_id : Option ℕ
  pub final_configuration : Option (List Text)
  pub entered : OrderedSet
  pub model : h.Model

module _ {h : Host} where
  unfoldable pub enqueue_internal : Global h → Event h.Value → Global h
  enqueue_internal g e = record g { internal_queue = Queue.enqueue g.internal_queue e }

  -- The data model after a call, and the events that the call has put into the queue.
  unfoldable pub absorb : Global h → h.Model × List (Event h.Value) → Global h
  absorb g (d, events) = record g { model = d; internal_queue = g.internal_queue ++ events }

  unfoldable pub execute_content : ℕ → Global h → Global h
  unfolding absorb
  execute_content content_id g =
      if content_id == 0 then g else absorb g (h.execute_content g.model g.configuration content_id)

  unfoldable pub execute_all : List ℕ → Global h → Global h
  unfolding execute_content
  execute_all [] g = g
  execute_all (c ∷ l) g = execute_all l (execute_content c g)

  unfoldable pub cancel_invoke : Text → ℕ → Global h → Global h
  unfolding without absorb new_simple
  cancel_invoke invoke_id session_id g =
      let g' : Global h = record g { child_sessions = without invoke_id g.child_sessions } in
      absorb g' (h.send g'.model session_id (new_simple event_cancel_session))

  unfoldable pub cancel_all : List (Text × ℕ) → Global h → Global h
  unfolding cancel_invoke
  cancel_all [] g = g
  cancel_all ((k, session_id) ∷ l) g = cancel_all l (cancel_invoke k session_id g)
