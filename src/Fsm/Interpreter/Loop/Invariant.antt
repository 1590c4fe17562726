-- ===== src/Fsm/Interpreter/Loop/Invariant.antt =====
-- The invariant of `mainEventLoop` of src/fsm.rs, and that its steps can be taken.
use r_fsm.Prelude.{
  ℕ, List, [], ◌∷◌, Bool, true, false, Option, none, some, Run, done, panic, stuck, ◌>>=◌, All,
  if◌then◌else◌, ◌≡◌, refl, sym, ap, ◌∙◌, Bool-cases, inl, inr,
}
use mathlib.Core.Path.{subst}
use r_fsm.Collections.OrderedSet
use r_fsm.Collections.OrderedSet.{OrderedSet}
use r_fsm.Collections.Queue
use r_fsm.Collections.Sort
use r_fsm.Collections.Sort.Laws.{sort-returns}
use r_fsm.Collections.Sort.Members.{sort-members}
use r_fsm.Fsm.Types.{Text, Fsm, Invoke, state_entry_order, by_doc_id}
use r_fsm.Fsm.Tree.Chain.{Chain-state, done-injective}
use r_fsm.Fsm.Tree.Order.{IsStateId}
use r_fsm.Fsm.WellFormed.{IsWellFormed}
use r_fsm.Fsm.Selection.{starts_with}
use r_fsm.Fsm.Interpreter.{Event, Host, Global, absorb, execute_all, event_done_invoke_prefix}
use r_fsm.Fsm.Interpreter.Frames.{Framed, same-Framed, then-Framed, execute_all-Framed}
use r_fsm.Fsm.Interpreter.Loop.{
  Phase, stepping, waiting, Step, Reach, remove_done, removed, to_finalize_and_forward, finalized,
  external_event, forward_all, round, invoke_one, invoke_each, invoke_states, invoke_document_order,
  invoke_phase, in_macrostep, stopped_in_macrostep, after_macrostep, ignored, cancelled, received,
  here, next,
}
use r_fsm.Fsm.Interpreter.Loop.Rounds.{
  IsInterpretable, IsRunning, Framed-IsRunning, Kept, chosen-Kept, round-RoundKept,
}
use r_fsm.Fsm.Interpreter.Microstep.Steps.{entry_order-total}

pub bind-done :
    {A B : Type 0} (x : Run A) (f : A → Run B) (b : B)
    → (x >>= f) ≡ done b
    → (a : A) × (x ≡ done a) × (f a ≡ done b)
bind-done (done a) f b e = (a, refl, e)
bind-done panic f b e = cc
bind-done stuck f b e = cc

-- The phase with its state keeps the invariant.
abbrev pub IsLive : {h : Host} {m : Fsm} → IsWellFormed m → Phase × Global h → Type 0
IsLive w (p, g) = IsRunning w g

NoClaim : Invoke → Type 0
NoClaim i = Unit

no_claims : (l : List Invoke) → All NoClaim l
unfolding NoClaim
no_claims [] = tt
no_claims (i ∷ l) = (tt, no_claims l)

sorted_invokes :
    (l : List Invoke) → (r : List Invoke) × (Sort.sort invoke_document_order l ≡ done r)
unfolding invoke_document_order
sorted_invokes l =
    let (r, run, all) =
      sort-returns NoClaim invoke_document_order (λ a b _ _. (by_doc_id a.doc_id b.doc_id, refl)) l
        (no_claims l) in
    (r, run)

module _ {h : Host} {m : Fsm} (w : IsWellFormed m) (k : IsInterpretable w) where
  invoke_each-Framed : (sid : ℕ) (l : List Invoke) (g : Global h) → Framed g (invoke_each m sid l g)
  unfolding invoke_each invoke_one absorb
  invoke_each-Framed sid [] g = same-Framed g
  invoke_each-Framed sid (inv ∷ l) g =
      then-Framed g (invoke_one m sid inv g) (invoke_each m sid l (invoke_one m sid inv g))
        (record {
          configuration = refl;
          states_to_invoke = refl;
          history_value = refl;
          running = refl;
          caller_invoke_id = refl;
          parent_session_id = refl;
        })
        (invoke_each-Framed sid l (invoke_one m sid inv g))

  invoke_states-Framed :
      (l : List ℕ) (g : Global h)
      → All (IsStateId m) l
      → (g' : Global h) × (invoke_states m l g ≡ done g') × Framed g g'
  unfolding invoke_states
  invoke_states-Framed [] g i = (g, refl, same-Framed g)
  invoke_states-Framed (sid ∷ l) g (i, j) =
      let (st, found, above) = Chain-state (w.tree.line sid i) refl in
      let (invokes, run) = sorted_invokes st.invoke in
      let (g', rest, f) = invoke_states-Framed l (invoke_each m sid invokes g) j in
      (
        g',
        rw (found, run) rest,
        then-Framed g (invoke_each m sid invokes g) g' (invoke_each-Framed sid invokes g) f,
      )

  pub invoke_phase-IsRunning :
      (g : Global h)
      → IsRunning w g
      → (r : Phase × Global h) × (invoke_phase m g ≡ done r) × IsLive w r
  unfolding invoke_phase OrderedSet.clear
  invoke_phase-IsRunning g v =
      let (sorted, run, ids, members, once) =
        sort-members (IsStateId m) (state_entry_order m) (entry_order-total w.tree)
          g.states_to_invoke v.invoking in
      let (g', rest, f) = invoke_states-Framed sorted g ids in
      let v' = Framed-IsRunning w k g g' f v in
      (
        (
          if Queue.is_empty g'.internal_queue then waiting else stepping,
          record g' { states_to_invoke = [] },
        ),
        rw (run, rest) refl,
        record {
          valid = record {
            states = v'.valid.states;
            distinct = v'.valid.distinct;
            proper = v'.valid.proper;
            recorded = v'.valid.recorded;
          };
          invoking = tt;
        },
      )

  removed-Framed : (o : Option Text) (g : Global h) → Framed g (removed m o g)
  unfolding removed
  removed-Framed none g = same-Framed g
  removed-Framed (some id) g = record {
    configuration = refl;
    states_to_invoke = refl;
    history_value = refl;
    running = refl;
    caller_invoke_id = refl;
    parent_session_id = refl;
  }

  pub remove_done-Framed : (e : Event h.Value) (g : Global h) → Framed g (remove_done m e g)
  unfolding remove_done
  remove_done-Framed e g = elim (Bool-cases (starts_with e.name event_done_invoke_prefix)) [
    | inl ended ↦ rw ended (removed-Framed e.invoke_id g)
    | inr other ↦ rw other (same-Framed g)
  ]

  forward_all-Framed :
      (l : List ℕ) (e : Event h.Value) (g : Global h) → Framed g (forward_all m l e g)
  unfolding forward_all
  forward_all-Framed [] e g = same-Framed g
  forward_all-Framed (s ∷ l) e g =
      let g' : Global h = record g { model = h.forward g.model s e } in
      then-Framed g g' (forward_all m l e g')
        (record {
          configuration = refl;
          states_to_invoke = refl;
          history_value = refl;
          running = refl;
          caller_invoke_id = refl;
          parent_session_id = refl;
        })
        (forward_all-Framed l e g')

  pub finalized-Kept :
      (e : Event h.Value) (g : Global h) (r : List ℕ × List ℕ)
      → IsRunning w g
      → Kept w k (finalized m e g r)
  unfolding finalized
  finalized-Kept e g (finalize, forward) v =
      let g1 : Global h = record g { model = h.set_event g.model e } in
      let g2 = execute_all finalize g1 in
      let g3 = forward_all m forward e g2 in
      let f =
        then-Framed g g1 g3
          (record {
            configuration = refl;
            states_to_invoke = refl;
            history_value = refl;
            running = refl;
            caller_invoke_id = refl;
            parent_session_id = refl;
          })
          (then-Framed g1 g2 g3 (execute_all-Framed finalize g1)
            (forward_all-Framed forward e g2)) in
      chosen-Kept w k e g3 (Framed-IsRunning w k g g3 f v)

  same_run : (g' : Global h) (run : Run (Global h)) → Kept w k run → run ≡ done g' → IsRunning w g'
  same_run g' run kept e = subst (IsRunning w) (done-injective (sym kept.returns ∙ e)) kept.running

  pub round_result :
      (g g' : Global h) (b : Bool) → IsRunning w g → round m g ≡ done (b, g') → IsRunning w g'
  round_result g g' b v e =
      let r = round-RoundKept w k g v in
      subst (IsRunning w) (ap (λ (z : Bool × Global h). z.1) (done-injective (sym r.returns ∙ e)))
        r.running

  -- Each step of the loop keeps the invariant.
  pub Step-IsLive : (s s' : Phase × Global h) → IsLive w s → Step m s s' → IsLive w s'
  unfolding external_event
  Step-IsLive s s' v (in_macrostep g g' r e) = round_result g g' false v e
  Step-IsLive s s' v (stopped_in_macrostep g g' r e stop) = round_result g g' true v e
  Step-IsLive s s' v (after_macrostep g g' q r e r' i) =
      let v' = round_result g g' true v e in
      let (q', run, live) = invoke_phase-IsRunning g' v' in
      subst (IsLive w) (done-injective (sym run ∙ i)) live
  Step-IsLive s s' v (ignored g e a) = v
  Step-IsLive s s' v (cancelled g e a c) = record {
    valid = record {
      states = v.valid.states;
      distinct = v.valid.distinct;
      proper = v.valid.proper;
      recorded = v.valid.recorded;
    };
    invoking = v.invoking;
  }
  Step-IsLive s s' v (received g g' e a c run) =
      let g1 = remove_done m e g in
      let (r, found, rest) = bind-done (to_finalize_and_forward m e g1) (finalized m e g1) g' run in
      same_run g' (finalized m e g1 r)
        (finalized-Kept e g1 r (Framed-IsRunning w k g g1 (remove_done-Framed e g) v)) rest

  -- In each state that the loop reaches from a valid one the configuration has states of the
  -- machine, each once and no history states; recorded histories lie below the parents of their
  -- history states, and the states to invoke are states of the machine.
  pub Reach-IsLive : (s s' : Phase × Global h) → IsLive w s → Reach m s s' → IsLive w s'
  Reach-IsLive s s' v here = v
  Reach-IsLive s s' v (next {s = s1} r step) = Step-IsLive s1 s' (Reach-IsLive s s1 v r) step
