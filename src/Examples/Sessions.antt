-- ===== src/Examples/Sessions.antt =====
-- The theorems on microsteps and on the main loop of src/fsm.rs at concrete inputs.
use r_fsm.Prelude.{ℕ, zero, suc, [], ◌∷◌, true, false, none, some, done, contains, ◌≡◌, refl, arith}
use mathlib.Core.Path.{subst}
use r_fsm.Collections.HashTable
use r_fsm.Collections.OrderedSet.{OrderedSet}
use r_fsm.Fsm.Types.{State, get_state_by_id, get_transition_by_id}
use r_fsm.Fsm.Tree.{not_none}
use r_fsm.Fsm.Tree.Chain.{state_id_bounds, done-injective}
use r_fsm.Fsm.Tree.Order.{IsStateId}
use r_fsm.Fsm.Exit.{compute_exit_set}
use r_fsm.Fsm.Interpreter.{Event, Host, Global, new_simple, event_cancel_session}
use r_fsm.Fsm.Interpreter.Leaving.{exit_states}
use r_fsm.Fsm.Interpreter.Leaving.Records.{HasHistories}
use r_fsm.Fsm.Interpreter.Leaving.Leaves.{Left, exit_states-Left}
use r_fsm.Fsm.Interpreter.Arriving.{enter_states}
use r_fsm.Fsm.Interpreter.Arriving.Arrives.{HasFinalParents}
use r_fsm.Fsm.Interpreter.Validity.{IsValid}
use r_fsm.Fsm.Interpreter.Microstep.{microstep}
use r_fsm.Fsm.Interpreter.Microstep.Steps.{
  Entering, Stepped, enter_states-Entering, microstep-Stepped,
}
use r_fsm.Fsm.Interpreter.Loop.{
  Phase, stepping, waiting, Step, on_event, Reach, accepts, is_cancel_event,
}
use r_fsm.Fsm.Interpreter.Loop.Rounds.{IsInterpretable}
use r_fsm.Fsm.Interpreter.Loop.Invariant.{IsLive, Reach-IsLive}
use r_fsm.Fsm.Interpreter.Loop.Progress.{Step-Goes}
use r_fsm.Fsm.Interpreter.Finish.{exit_interpreter}
use r_fsm.Fsm.Interpreter.Finish.Ends.{exit_interpreter-empties}
use r_fsm.Examples.Machine.{state, machine, machine-tree, machine-IsWellFormed, no_history}
use r_fsm.Examples.Selections.{machine-HasTransitions}
use r_fsm.Examples.Entries.{machine-IsEnterable, nothing-IsRecorded}

-- A data model that counts the contents that it executes.
abbrev counting : Host
counting = record {
  Model = ℕ;
  Value = ℕ;
  execute_content = λ d configuration c. (suc d, []);
  initialize_data_model = λ d s. (d, []);
  done_data = λ d s. (d, [], (none, none));
  send = λ d session e. (d, []);
  invoke = λ d s inv. (d, [], none);
  forward = λ d session e. d;
  set_event = λ d e. d;
  execute_condition = λ d configuration c. (d, [], some true);
}

-- The states 1, 2 and 4 are active.
abbrev session : Global counting
session = record {
  configuration = 1 ∷ 2 ∷ 4 ∷ [];
  states_to_invoke = 4 ∷ [];
  history_value = [];
  running = true;
  internal_queue = [];
  child_sessions = [];
  caller_invoke_id = none;
  parent_session_id = none;
  final_configuration = none;
  entered = [];
  model = 0;
}

-- What holds for the eight states holds for each state.
each_state :
    (P : ℕ → State → Type 0)
    → P 1 (state 1 0 (2 ∷ 3 ∷ []))
    → P 2 (state 2 1 (4 ∷ 5 ∷ []))
    → P 3 (state 3 1 (6 ∷ 7 ∷ []))
    → P 4 (state 4 2 [])
    → P 5 (state 5 2 [])
    → P 6 (state 6 3 [])
    → P 7 (state 7 3 [])
    → P 8 (state 8 2 [])
    → (s : ℕ) (st : State) → get_state_by_id machine s ≡ done st
    → P s st
unfolding get_state_by_id
each_state P a b c d e f g h zero st found = cc
each_state P a b c d e f g h (suc zero) st found = subst (P 1) (done-injective found) a
each_state P a b c d e f g h (suc (suc zero)) st found = subst (P 2) (done-injective found) b
each_state P a b c d e f g h (suc (suc (suc zero))) st found = subst (P 3) (done-injective found) c
each_state P a b c d e f g h (suc (suc (suc (suc zero)))) st found =
    subst (P 4) (done-injective found) d
each_state P a b c d e f g h (suc (suc (suc (suc (suc zero))))) st found =
    subst (P 5) (done-injective found) e
each_state P a b c d e f g h (suc (suc (suc (suc (suc (suc zero)))))) st found =
    subst (P 6) (done-injective found) f
each_state P a b c d e f g h (suc (suc (suc (suc (suc (suc (suc zero))))))) st found =
    subst (P 7) (done-injective found) g
each_state P a b c d e f g h (suc (suc (suc (suc (suc (suc (suc (suc zero)))))))) st found =
    subst (P 8) (done-injective found) h
each_state P a b c d e f g h (suc (suc (suc (suc (suc (suc (suc (suc (suc n))))))))) st found =
    absurd (
      omega (
        arith,
        state_id_bounds machine (suc (suc (suc (suc (suc (suc (suc (suc (suc n))))))))) found,
      ))

-- A state lists history states that are its children.
abbrev Lists : ℕ → State → Type 0
Lists s st =
    (hid : ℕ)
    → contains hid st.history ≡ true
    → (ht : State) × (get_state_by_id machine hid ≡ done ht)
      × (not_none ht.history_type ≡ true)
      × (ht.parent ≡ s)

state2-Lists : Lists 2 (state 2 1 (4 ∷ 5 ∷ []))
unfolding get_state_by_id
state2-Lists hid c =
    let same : 8 ≡ hid = ground (arith, c) in
    subst
      (λ i.
        (ht : State) × (get_state_by_id machine i ≡ done ht)
        × (not_none ht.history_type ≡ true)
        × (ht.parent ≡ 2))
      same (state 8 2 [], refl, refl, refl)

machine-HasHistories : HasHistories machine
machine-HasHistories = record {
  own_id = each_state (λ s st. st.id ≡ s) refl refl refl refl refl refl refl refl;
  histories =
      each_state Lists (λ hid c. cc) state2-Lists (λ hid c. cc) (λ hid c. cc) (λ hid c. cc)
        (λ hid c. cc) (λ hid c. cc) (λ hid c. cc);
}

no_finals : HasFinalParents machine
no_finals =
    each_state (λ s st. st.is_final ≡ true → IsStateId machine st.parent) (λ e. cc) (λ e. cc)
      (λ e. cc) (λ e. cc) (λ e. cc) (λ e. cc) (λ e. cc) (λ e. cc)

machine-IsInterpretable : IsInterpretable machine-IsWellFormed
machine-IsInterpretable = record {
  transitions = machine-HasTransitions;
  enterable = machine-IsEnterable;
  histories = machine-HasHistories;
  finals = no_finals;
}

session-IsValid : IsValid machine-IsWellFormed session
unfolding get_state_by_id
session-IsValid = record {
  states = (omega arith, (omega arith, (omega arith, tt)));
  distinct = refl;
  proper = ((_, refl, refl), ((_, refl, refl), ((_, refl, refl), tt)));
  recorded = nothing-IsRecorded;
}

session-IsLive : IsLive machine-IsWellFormed (waiting, session)
session-IsLive = record { valid = session-IsValid; invoking = (omega arith, tt) }

-- The transition from state 4 to state 5, and the one from state 2 to the parallel state 3.
exit_states-Left_example :
    (exits : OrderedSet) × (g' : Global counting) × (compute_exit_set machine []
        (1 ∷ 2 ∷ 4 ∷ [])
        (11 ∷ [])
      ≡ done exits)
    × (exit_states machine (11 ∷ []) session ≡ done g')
    × Left machine exits session g'
unfolding get_transition_by_id HashTable.lookup
exit_states-Left_example =
    exit_states-Left machine-IsWellFormed machine-HasHistories (11 ∷ []) session ((_, refl), tt)
      no_history session-IsValid.states

enter_states-Entering_example :
    (g' : Global counting) × (enter_states machine (10 ∷ []) session ≡ done g')
    × Entering machine-IsWellFormed (10 ∷ []) session g'
unfolding get_transition_by_id HashTable.lookup
enter_states-Entering_example =
    enter_states-Entering machine-IsWellFormed machine-IsEnterable machine-HasHistories no_finals
      (10 ∷ []) session ((_, refl), tt) session-IsValid

microstep-Stepped_example :
    (g' : Global counting) × (microstep machine (11 ∷ []) session ≡ done g')
    × Stepped machine-IsWellFormed (11 ∷ []) session g'
unfolding get_transition_by_id HashTable.lookup
microstep-Stepped_example =
    microstep-Stepped machine-IsWellFormed machine-IsEnterable machine-HasHistories no_finals
      (11 ∷ []) session ((_, refl), tt) session-IsValid

-- An event of a session that is not known, and the event that cancels this session.
abbrev stranger : Event ℕ
stranger = record (new_simple (0x61 ∷ [])) { invoke_id = some (0x62 ∷ []) }

abbrev cancel : Event ℕ
cancel = new_simple event_cancel_session

run : Reach machine (waiting, session) (stepping, record session { running = false })
unfolding accepts new_simple is_cancel_event
run =
    Reach.next (Reach.next Reach.here (Step.ignored session stranger refl))
      (Step.cancelled session cancel refl refl)

Reach-IsLive_example : IsLive machine-IsWellFormed (stepping, record session { running = false })
Reach-IsLive_example =
    Reach-IsLive machine-IsWellFormed machine-IsInterpretable (waiting, session)
      (stepping, record session { running = false }) session-IsLive run

-- An event that the loop handles while it waits.
abbrev message : Event ℕ
message = new_simple (0x61 ∷ [])

Step-Goes_example :
    (s : Phase × Global counting) × (on_event machine message session ≡ done s)
    × Step machine (waiting, session) s
Step-Goes_example =
    Step-Goes machine-IsWellFormed machine-IsInterpretable waiting session session-IsLive tt refl
      message

exit_interpreter-empties_example :
    (g' : Global counting) × (exit_interpreter machine session ≡ done g')
    × ((x : ℕ) → contains x g'.configuration ≡ false)
exit_interpreter-empties_example =
    exit_interpreter-empties machine-tree session session-IsValid.states tt
