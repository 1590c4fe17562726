-- ===== src/Fsm/Interpreter/Frames.antt =====
-- What executable content and cancelled invokes leave as it is (src/fsm.rs).
use r_fsm.Prelude.{ℕ, List, [], ◌∷◌, ◌==◌, ◌≡◌, refl, ◌∙◌, Bool-cases, inl, inr}
use r_fsm.Fsm.Types.{Text}
use r_fsm.Fsm.Interpreter.{
  Event, Host, Global, absorb, execute_content, execute_all, cancel_invoke, cancel_all,
}

-- The two states agree but for the data model, the internal queue, the sessions and the flags.
pub record Framed {h : Host} (g g' : Global h) : Type 0 where
  pub configuration : g'.configuration ≡ g.configuration
  pub states_to_invoke : g'.states_to_invoke ≡ g.states_to_invoke
  pub history_value : g'.history_value ≡ g.history_value
  pub running : g'.running ≡ g.running
  pub caller_invoke_id : g'.caller_invoke_id ≡ g.caller_invoke_id
  pub parent_session_id : g'.parent_session_id ≡ g.parent_session_id

module _ {h : Host} where
  pub same-Framed : (g : Global h) → Framed g g
  same-Framed g = record {
    configuration = refl;
    states_to_invoke = refl;
    history_value = refl;
    running = refl;
    caller_invoke_id = refl;
    parent_session_id = refl;
  }

  pub then-Framed : (g g' g'' : Global h) → Framed g g' → Framed g' g'' → Framed g g''
  then-Framed g g' g'' a b = record {
    configuration = b.configuration ∙ a.configuration;
    states_to_invoke = b.states_to_invoke ∙ a.states_to_invoke;
    history_value = b.history_value ∙ a.history_value;
    running = b.running ∙ a.running;
    caller_invoke_id = b.caller_invoke_id ∙ a.caller_invoke_id;
    parent_session_id = b.parent_session_id ∙ a.parent_session_id;
  }

  pub absorb-Framed : (g : Global h) (r : h.Model × List (Event h.Value)) → Framed g (absorb g r)
  unfolding absorb
  absorb-Framed g (d, events) = record {
    configuration = refl;
    states_to_invoke = refl;
    history_value = refl;
    running = refl;
    caller_invoke_id = refl;
    parent_session_id = refl;
  }

  pub execute_content-Framed : (c : ℕ) (g : Global h) → Framed g (execute_content c g)
  unfolding execute_content
  execute_content-Framed c g = elim (Bool-cases (c == 0)) [
    | inl none ↦ rw none (same-Framed g)
    | inr some ↦ rw some (absorb-Framed g (h.execute_content g.model g.configuration c))
  ]

  pub execute_all-Framed : (l : List ℕ) (g : Global h) → Framed g (execute_all l g)
  unfolding execute_all
  execute_all-Framed [] g = same-Framed g
  execute_all-Framed (c ∷ l) g =
      then-Framed g (execute_content c g) (execute_all l (execute_content c g))
        (execute_content-Framed c g) (execute_all-Framed l (execute_content c g))

  cancel_invoke-Framed : (k : Text) (s : ℕ) (g : Global h) → Framed g (cancel_invoke k s g)
  unfolding cancel_invoke absorb
  cancel_invoke-Framed k s g = record {
    configuration = refl;
    states_to_invoke = refl;
    history_value = refl;
    running = refl;
    caller_invoke_id = refl;
    parent_session_id = refl;
  }

  pub cancel_all-Framed : (l : List (Text × ℕ)) (g : Global h) → Framed g (cancel_all l g)
  unfolding cancel_all
  cancel_all-Framed [] g = same-Framed g
  cancel_all-Framed ((k, s) ∷ l) g =
      then-Framed g (cancel_invoke k s g) (cancel_all l (cancel_invoke k s g))
        (cancel_invoke-Framed k s g) (cancel_all-Framed l (cancel_invoke k s g))
