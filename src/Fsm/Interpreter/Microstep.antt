-- ===== src/Fsm/Interpreter/Microstep.antt =====
-- `microstep` and `executeTransitionContent` of src/fsm.rs.
pub mod Steps
use r_fsm.Prelude.{ℕ, List, [], ◌∷◌, Run, done, ◌>>=◌}
use r_fsm.Fsm.Types.{Fsm, get_transition_by_id}
use r_fsm.Fsm.Interpreter.{Host, Global, execute_content}
use r_fsm.Fsm.Interpreter.Leaving.{exit_states}
use r_fsm.Fsm.Interpreter.Arriving.{enter_states}

module _ {h : Host} (m : Fsm) where
  unfoldable pub execute_transition_content : List ℕ → Global h → Run (Global h)
  unfolding execute_content
  execute_transition_content [] g = done g
  execute_transition_content (tid ∷ l) g = do
    t ← get_transition_by_id m tid
    execute_transition_content l (execute_content t.content g)

  unfoldable pub microstep : List ℕ → Global h → Run (Global h)
  unfolding exit_states enter_states execute_transition_content
  microstep enabled_transitions g = do
    left ← exit_states m enabled_transitions g
    ran ← execute_transition_content enabled_transitions left
    enter_states m enabled_transitions ran
