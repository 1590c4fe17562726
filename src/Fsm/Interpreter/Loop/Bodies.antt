-- ===== src/Fsm/Interpreter/Loop/Bodies.antt =====
-- The steps of `mainEventLoop` (src/fsm.rs) are the runs of the two parts of its body.
use r_fsm.Prelude.{Bool, ◌&&◌, done, if◌then◌else◌, ◌≡◌}
use r_fsm.Fsm.Types.{Fsm}
use r_fsm.Fsm.Interpreter.{Host, Global}
use r_fsm.Fsm.Interpreter.Loop.{Phase, stepping, invoke_phase}

module _ {h : Host} (m : Fsm) where
  -- What follows a round.
  Rounded : Global h → Bool × Global h → Phase × Global h → Type 0
  Rounded g (is_done, g') s =
      ((if is_done && g'.running then invoke_phase m g' else done (stepping, g')) ≡ done s)
