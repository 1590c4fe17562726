-- ===== src/Fsm/Interpreter/Loop/Progress.antt =====
-- `mainEventLoop` of src/fsm.rs does not panic: in each phase its next step can be taken.
use r_fsm.Prelude.{
  ℕ, List, [], ◌∷◌, true, Option, none, some, Run, done, All, ◌≡◌, refl, ap, ◌∙◌, Bool-cases, inl,
  inr,
}
use r_fsm.Fsm.Types.{Text, Fsm}
use r_fsm.Fsm.Tree.Chain.{Chain-state}
use r_fsm.Fsm.Tree.Order.{IsStateId}
use r_fsm.Fsm.WellFormed.{IsWellFormed}
use r_fsm.Fsm.Selection.{starts_with}
use r_fsm.Fsm.Interpreter.{
  Event, Session, Host, Global, without, same_text, event_done_invoke_prefix,
}
use r_fsm.Fsm.Interpreter.Loop.{
  Phase, stepping, waiting, Step, accepts, is_cancel_event, remove_done, removed, sent_by,
  state_invokes, sender_invokes, session_of, finalizes, forwards, to_finalize_and_forward,
  external_event, on_event, in_macrostep, stopped_in_macrostep, after_macrostep, ignored, cancelled,
  received,
}
use r_fsm.Fsm.Interpreter.Loop.Rounds.{
  IsInterpretable, IsRunning, Framed-IsRunning, round-RoundKept,
}
use r_fsm.Fsm.Interpreter.Loop.Invariant.{
  invoke_phase-IsRunning, finalized-Kept, remove_done-Framed,
}

-- A session was started by a state of the machine, or by none.
abbrev pub IsKnown : Fsm → Text × Session → Type 0
IsKnown m (id, session) = (sid : ℕ) → session.state_id ≡ some sid → IsStateId m sid

module _ (m : Fsm) where
  without-IsKnown :
      (id : Text) (l : List (Text × Session)) → All (IsKnown m) l → All (IsKnown m) (without id l)
  unfolding without
  without-IsKnown id [] i = tt
  without-IsKnown id ((j, s) ∷ l) (a, i) = elim (Bool-cases (same_text j id)) [
    | inl same ↦ rw same (without-IsKnown id l i)
    | inr other ↦ rw other (a, without-IsKnown id l i)
  ]

  abbrev IsKnownOption : Option Session → Type 0
  IsKnownOption none = Unit
  IsKnownOption (some session) = (sid : ℕ) → session.state_id ≡ some sid → IsStateId m sid

  session_of-IsKnownOption :
      (id : Text) (l : List (Text × Session)) → All (IsKnown m) l → IsKnownOption (session_of id l)
  unfolding session_of
  session_of-IsKnownOption id [] i = tt
  session_of-IsKnownOption id ((j, s) ∷ l) (a, i) = elim (Bool-cases (same_text j id)) [
    | inl same ↦ rw same a
    | inr other ↦ rw other (session_of-IsKnownOption id l i)
  ]

abbrev Returns : Run (List ℕ × List ℕ) → Type 0
Returns run = (r : List ℕ × List ℕ) × (run ≡ done r)

module _ {m : Fsm} (w : IsWellFormed m) where
  state_invokes-Returns :
      (session : Session) (o : Option ℕ)
      → ((sid : ℕ) → o ≡ some sid → IsStateId m sid)
      → Returns (state_invokes m session o)
  unfolding state_invokes
  state_invokes-Returns session none i = (_, refl)
  state_invokes-Returns session (some sid) i =
      let (st, found, above) = Chain-state (w.tree.line sid (i sid refl)) refl in
      let r : List ℕ × List ℕ =
        (finalizes session.invoke_doc_id st.invoke, forwards session.session_id st.invoke) in
      (r, rw found refl)

  sender_invokes-Returns : (o : Option Session) → IsKnownOption m o → Returns (sender_invokes m o)
  unfolding sender_invokes
  sender_invokes-Returns none i = (_, refl)
  sender_invokes-Returns (some session) i = state_invokes-Returns session session.state_id i

-- What the loop can do in a phase: one step, or for each event that it is given the step which
-- the body of the loop takes with this event.
abbrev pub Goes : {h : Host} → Fsm → Phase → Global h → Type 0
Goes {h} m stepping g = (s : Phase × Global h) × Step m (stepping, g) s
Goes {h} m waiting g =
    (e : Event h.Value) → (s : Phase × Global h) × (on_event m e g ≡ done s) × Step m (waiting, g) s

module _ {h : Host} {m : Fsm} (w : IsWellFormed m) (k : IsInterpretable w) where
  sent_by-Returns :
      (o : Option Text) (g : Global h) → All (IsKnown m) g.child_sessions → Returns (sent_by m o g)
  unfolding sent_by
  sent_by-Returns none g i = (_, refl)
  sent_by-Returns (some id) g i =
      sender_invokes-Returns w (session_of id g.child_sessions)
        (session_of-IsKnownOption m id g.child_sessions i)

  removed-IsKnown :
      (o : Option Text) (g : Global h)
      → All (IsKnown m) g.child_sessions
      → All (IsKnown m) (removed m o g).child_sessions
  unfolding removed
  removed-IsKnown none g i = i
  removed-IsKnown (some id) g i = without-IsKnown m id g.child_sessions i

  remove_done-IsKnown :
      (e : Event h.Value) (g : Global h)
      → All (IsKnown m) g.child_sessions
      → All (IsKnown m) (remove_done m e g).child_sessions
  unfolding remove_done
  remove_done-IsKnown e g i = elim (Bool-cases (starts_with e.name event_done_invoke_prefix)) [
    | inl ended ↦ rw ended (removed-IsKnown e.invoke_id g i)
    | inr other ↦ rw other i
  ]

  -- In a running state with the invariant, whose sessions belong to states of the machine, the loop
  -- takes its next step: in a macrostep a round, which returns; while it waits, the body of the
  -- loop returns for each event that arrives, and its result is a step of the loop.
  pub Step-Goes :
      (p : Phase) (g : Global h)
      → IsRunning w g
      → All (IsKnown m) g.child_sessions
      → g.running ≡ true
      → Goes m p g
  unfolding to_finalize_and_forward external_event on_event
  Step-Goes stepping g v i on =
      let r = round-RoundKept w k g v in
      elim (Bool-cases r.is_done) [
        | inr more ↦ (_, in_macrostep g r.result on (r.returns ∙ ap (λ b. done (b, r.result)) more))
        | inl complete ↦
            let run = r.returns ∙ ap (λ b. done (b, r.result)) complete in
            elim (Bool-cases r.result.running) [
              | inr off ↦ (_, stopped_in_macrostep g r.result on run off)
              | inl still ↦
                  let (q, phase, live) = invoke_phase-IsRunning w k r.result r.running in
                  (q, after_macrostep g r.result q on run still phase)
            ]
      ]
  Step-Goes waiting g v i on = λ e. elim (Bool-cases (accepts m e g)) [
    | inr refused ↦ (_, rw refused refl, ignored g e refused)
    | inl taken ↦ elim (Bool-cases (is_cancel_event e)) [
      | inl cancel ↦ (_, rw (taken, cancel) refl, cancelled g e taken cancel)
      | inr other ↦
          let g1 = remove_done m e g in
          let (r, found) = sent_by-Returns e.invoke_id g1 (remove_done-IsKnown e g i) in
          let f =
            finalized-Kept w k e g1 r (Framed-IsRunning w k g g1 (remove_done-Framed w k e g) v) in
          let run : external_event m e g ≡ done f.result = rw found f.returns in
          (_, rw (taken, other, found, f.returns) refl, received g f.result e taken other run)
    ]
  ]
