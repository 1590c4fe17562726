-- ===== src/Fsm/Interpreter/Finish/Ends.antt =====
-- `exitInterpreter` of src/fsm.rs leaves every state.
use r_fsm.Prelude.{
  ℕ, List, [], ◌∷◌, false, ◌&&◌, Option, none, some, Run, done, contains, All, ◌≡◌, refl, sym, ap,
  ◌∙◌, arith, Bool-cases, inl, inr,
}
use mathlib.Core.Path.{subst}
use r_fsm.Collections.OrderedSet
use r_fsm.Collections.OrderedSet.{OrderedSet}
use r_fsm.Collections.OrderedSet.Laws.{to_list_lem}
use r_fsm.Collections.Sort.Members.{sort-members}
use r_fsm.Fsm.Types.{Text, Fsm, state_exit_order}
use r_fsm.Fsm.Tree.{is_scxml_element}
use r_fsm.Fsm.Tree.Chain.{Chain-state}
use r_fsm.Fsm.Tree.Order.{IsTree, IsStateId}
use r_fsm.Fsm.Interpreter.{
  Session, Host, Global, execute_all, absorb, new_simple, event_cancel_session,
}
use r_fsm.Fsm.Interpreter.Frames.{
  Framed, same-Framed, then-Framed, absorb-Framed, execute_all-Framed,
}
use r_fsm.Fsm.Interpreter.Leaving.Leaves.{exit_order-total, contains-delete_all}
use r_fsm.Fsm.Interpreter.Leaving.{delete_all}
use r_fsm.Fsm.Interpreter.Finish.{
  state_names, is_wanted, keep_configuration, cancel_sessions, done_to_parent, return_done_event,
  finish_state, finish_all, exit_interpreter,
}

-- A session with a parent knows the id under which it was invoked.
abbrev pub HasCaller : Option Text → Option ℕ → Type 0
HasCaller caller none = Unit
HasCaller none (some session) = ⊥
HasCaller (some id) (some session) = Unit

abbrev pub IsInvoked : {h : Host} → Global h → Type 0
IsInvoked g = HasCaller g.caller_invoke_id g.parent_session_id

pub Framed-IsInvoked : {h : Host} (g g' : Global h) → Framed g g' → IsInvoked g → IsInvoked g'
Framed-IsInvoked g g' f i = rw (f.caller_invoke_id, f.parent_session_id) i

-- A run that returns, with a given configuration, and with the caller known.
pub record Ends {h : Host} (configuration : OrderedSet) (run : Run (Global h)) : Type 0 where
  pub result : Global h
  pub returns : run ≡ done result
  pub configuration_lem : result.configuration ≡ configuration
  pub invoked : IsInvoked result

state_names-returns :
    {m : Fsm} (t : IsTree m) (l : List ℕ)
    → All (IsStateId m) l
    → (names : List Text) × (state_names m l ≡ done names)
unfolding state_names
state_names-returns t [] i = ([], refl)
state_names-returns t (x ∷ l) (i, j) =
    let (st, found, above) = Chain-state (t.line x i) refl in
    let (names, run) = state_names-returns t l j in (st.name ∷ names, rw (found, run) refl)

module _ {h : Host} {m : Fsm} (t : IsTree m) where
  keep_configuration-Framed :
      (g : Global h)
      → All (IsStateId m) g.configuration
      → (g' : Global h) × (keep_configuration m g ≡ done g') × Framed g g'
  unfolding keep_configuration
  keep_configuration-Framed g i = elim (Bool-cases (is_wanted g.final_configuration)) [
    | inr unwanted ↦ (g, rw unwanted refl, same-Framed g)
    | inl wanted ↦
        let (names, run) = state_names-returns t g.configuration i in
        (
          record g { final_configuration = some names },
          rw (to_list_lem g.configuration, run, wanted) refl,
          record {
            configuration = refl;
            states_to_invoke = refl;
            history_value = refl;
            running = refl;
            caller_invoke_id = refl;
            parent_session_id = refl;
          },
        )
  ]

  cancel_sessions-Framed :
      (l : List (Text × Session)) (g : Global h) → Framed g (cancel_sessions m l g)
  unfolding cancel_sessions
  cancel_sessions-Framed [] g = same-Framed g
  cancel_sessions-Framed ((id, s) ∷ l) g =
      let r = h.send g.model s.session_id (new_simple event_cancel_session) in
      then-Framed g (absorb g r) (cancel_sessions m l (absorb g r)) (absorb-Framed g r)
        (cancel_sessions-Framed l (absorb g r))

  done_to_parent-Framed :
      (caller : Option Text) (parent : Option ℕ) (g : Global h)
      → HasCaller caller parent
      → (g' : Global h) × (done_to_parent m caller parent g ≡ done g') × Framed g g'
  unfolding done_to_parent
  done_to_parent-Framed caller none g i = (g, refl, same-Framed g)
  done_to_parent-Framed none (some session) g i = absurd i
  done_to_parent-Framed (some id) (some session) g i = (_, refl, absorb-Framed g _)

  finish_state-Ends :
      (s : ℕ) (g : Global h)
      → IsStateId m s
      → IsInvoked g
      → Ends (OrderedSet.delete g.configuration s) (finish_state m s g)
  unfolding finish_state return_done_event
  finish_state-Ends s g i v =
      let (st, found, above) = Chain-state (t.line s i) refl in
      let g1 = execute_all st.onexit g in
      let f = execute_all-Framed st.onexit g in
      let g2 : Global h = record g1 { configuration = OrderedSet.delete g1.configuration s } in
      let known = Framed-IsInvoked g g1 f v in
      let (g3, run, f') = done_to_parent-Framed g1.caller_invoke_id g1.parent_session_id g2 known in
      let deleted = ap (λ c. OrderedSet.delete c s) f.configuration in
      elim (Bool-cases (st.is_final && is_scxml_element m st.parent)) [
        | inl top ↦ record {
          result = g3;
          returns = rw (found, top) run;
          configuration_lem = f'.configuration ∙ deleted;
          invoked = Framed-IsInvoked g2 g3 f' known;
        }
        | inr inner ↦ record {
          result = g2;
          returns = rw (found, inner) refl;
          configuration_lem = deleted;
          invoked = known;
        }
      ]

  finish_all-Ends :
      (l : List ℕ) (g : Global h)
      → All (IsStateId m) l
      → IsInvoked g
      → Ends (delete_all l g.configuration) (finish_all m l g)
  unfolding finish_all delete_all
  finish_all-Ends [] g i v = record {
    result = g;
    returns = refl;
    configuration_lem = refl;
    invoked = v;
  }
  finish_all-Ends (s ∷ l) g (i, j) v =
      let one = finish_state-Ends s g i v in
      let rest = finish_all-Ends l one.result j one.invoked in
      record {
        result = rest.result;
        returns = rw one.returns rest.returns;
        configuration_lem = rest.configuration_lem ∙ ap (delete_all l) one.configuration_lem;
        invoked = rest.invoked;
      }

  -- If the configuration names states only, and a session with a parent knows the id under which it
  -- was invoked, `exitInterpreter` returns, and no state is active after it.
  pub exit_interpreter-empties :
      (g : Global h)
      → All (IsStateId m) g.configuration
      → IsInvoked g
      → (g' : Global h) × (exit_interpreter m g ≡ done g')
        × ((x : ℕ) → contains x g'.configuration ≡ false)
  unfolding exit_interpreter
  exit_interpreter-empties g i v =
      let (g1, run, f) = keep_configuration-Framed g i in
      let i1 = subst (All (IsStateId m)) (sym f.configuration) i in
      let (sorted, run_sort, ids, members, once) =
        sort-members (IsStateId m) (state_exit_order m) (exit_order-total t) g1.configuration i1 in
      let g2 = cancel_sessions m g1.child_sessions g1 in
      let f2 = cancel_sessions-Framed g1.child_sessions g1 in
      let e =
        finish_all-Ends sorted g2 ids (Framed-IsInvoked g1 g2 f2 (Framed-IsInvoked g g1 f v)) in
      (
        e.result,
        rw (run, to_list_lem g1.configuration, run_sort) e.returns,
        λ x.
            ap (contains x) e.configuration_lem
            ∙ ground (
              arith,
              contains-delete_all x sorted g2.configuration,
              members x,
              ap (contains x) f2.configuration,
            ),
      )
