-- ===== src/Fsm/Interpreter/Loop/Rounds.antt =====
-- The rounds of `mainEventLoop` of src/fsm.rs return, and keep the invariant.
use r_fsm.Prelude.{
  ℕ, List, [], ◌∷◌, Bool, true, false, Run, done, ◌>>=◌, contains, All, if◌then◌else◌, ◌≡◌, refl,
  sym, arith, Bool-cases, inl, inr,
}
use mathlib.Core.Path.{subst}
use r_fsm.Collections.OrderedSet
use r_fsm.Collections.OrderedSet.{OrderedSet}
use r_fsm.Collections.OrderedSet.Laws.{to_list_lem}
use r_fsm.Collections.Queue
use r_fsm.Fsm.Types.{Transition, Fsm}
use r_fsm.Fsm.Tree.Order.{IsStateId, All-member, All-of_members}
use r_fsm.Fsm.WellFormed.{IsWellFormed}
use r_fsm.Fsm.Exit.Members.{IsTransitionId}
use r_fsm.Fsm.Selection.Returns.{
  HasTransitions, Selected, select_transitions-Selected, select_eventless_transitions-Selected,
}
use r_fsm.Fsm.Entry.Enterable.{IsEnterable, IsRecorded-IsHistoryOf}
use r_fsm.Fsm.Interpreter.{Event, Host, Global}
use r_fsm.Fsm.Interpreter.Frames.{Framed}
use r_fsm.Fsm.Interpreter.Leaving.Records.{HasHistories}
use r_fsm.Fsm.Interpreter.Arriving.Arrives.{HasFinalParents}
use r_fsm.Fsm.Interpreter.Validity.{IsValid, Framed-IsValid}
use r_fsm.Fsm.Interpreter.Microstep.{microstep}
use r_fsm.Fsm.Interpreter.Microstep.Steps.{microstep-Stepped}
use r_fsm.Fsm.Interpreter.Loop.{
  conditions, eventless, by_event, microstep_if, process, internal_event, round,
}

-- What the interpreter asks of a machine.
pub record IsInterpretable {m : Fsm} (w : IsWellFormed m) : Type 0 where
  pub transitions : HasTransitions m
  pub enterable : IsEnterable w
  pub histories : HasHistories m
  pub finals : HasFinalParents m

-- A valid state in which the states to invoke are states of the machine.
pub record IsRunning {h : Host} {m : Fsm} (w : IsWellFormed m) (g : Global h) : Type 0 where
  pub valid : IsValid w g
  pub invoking : All (IsStateId m) g.states_to_invoke

module _ {h : Host} {m : Fsm} (w : IsWellFormed m) (k : IsInterpretable w) where
  pub Framed-IsRunning : (g g' : Global h) → Framed g g' → IsRunning w g → IsRunning w g'
  Framed-IsRunning g g' f v = record {
    valid = Framed-IsValid w g g' f v.valid;
    invoking = subst (All (IsStateId m)) (sym f.states_to_invoke) v.invoking;
  }

  -- A run that returns, with the invariant.
  pub record Kept (run : Run (Global h)) : Type 0 where
    pub result : Global h
    pub returns : run ≡ done result
    pub running : IsRunning w result

  -- A selection returns; it changes the data model and the queue only.
  record Chosen (g : Global h) (run : Run (OrderedSet × Global h)) : Type 0 where
    enabled : OrderedSet
    result : Global h
    returns : run ≡ done (enabled, result)
    known : All (IsTransitionId m) enabled
    framed : Framed g result

  passing_ids :
      (g : Global h) (p : Transition → Bool) (r : OrderedSet)
      → Selected m g.history_value g.configuration p r
      → All (IsTransitionId m) r
  passing_ids g p r s =
      All-of_members (IsTransitionId m) r λ tid c. let q = s.passes tid c in (q.transition, q.found)

  eventless-Chosen : (g : Global h) → IsRunning w g → Chosen g (eventless m g)
  unfolding eventless
  eventless-Chosen g v =
      let (r, d, run, s) =
        select_eventless_transitions-Selected w k.transitions (conditions h g.configuration)
          g.history_value g.configuration (g.model, g.internal_queue)
          (IsRecorded-IsHistoryOf w g.history_value v.valid.recorded) v.valid.states in
      record {
        enabled = r;
        result = record g { model = d.0; internal_queue = d.1 };
        returns = rw run refl;
        known = passing_ids g _ r s;
        framed = record {
          configuration = refl;
          states_to_invoke = refl;
          history_value = refl;
          running = refl;
          caller_invoke_id = refl;
          parent_session_id = refl;
        };
      }

  by_event-Chosen : (e : Event h.Value) (g : Global h) → IsRunning w g → Chosen g (by_event m e g)
  unfolding by_event
  by_event-Chosen e g v =
      let (r, d, run, s) =
        select_transitions-Selected w k.transitions (conditions h g.configuration) g.history_value
          g.configuration (g.model, g.internal_queue) e.name
          (IsRecorded-IsHistoryOf w g.history_value v.valid.recorded) v.valid.states in
      record {
        enabled = r;
        result = record g { model = d.0; internal_queue = d.1 };
        returns = rw run refl;
        known = passing_ids g _ r s;
        framed = record {
          configuration = refl;
          states_to_invoke = refl;
          history_value = refl;
          running = refl;
          caller_invoke_id = refl;
          parent_session_id = refl;
        };
      }

  step-Kept :
      (tids : List ℕ) (g : Global h)
      → All (IsTransitionId m) tids
      → IsRunning w g
      → Kept (microstep m tids g)
  step-Kept tids g i v =
      let (g', run, s) = microstep-Stepped w k.enterable k.histories k.finals tids g i v.valid in
      record {
        result = g';
        returns = run;
        running = record {
          valid = s.valid;
          invoking = All-of_members (IsStateId m) g'.states_to_invoke λ x c.
              elim (Bool-cases (contains x g.states_to_invoke)) [
                | inl old ↦ All-member (IsStateId m) x g.states_to_invoke v.invoking old
                | inr new ↦
                    All-member (IsStateId m) x g'.configuration s.valid.states
                      (ground (arith, s.states_to_invoke x, s.configuration x, c, new))
              ];
        };
      }

  microstep_if-Kept :
      (tids : OrderedSet) (g : Global h)
      → All (IsTransitionId m) tids
      → IsRunning w g
      → Kept (microstep_if m (tids, g))
  unfolding microstep_if
  microstep_if-Kept tids g i v = elim (Bool-cases (OrderedSet.is_empty tids)) [
    | inl nothing ↦ record { result = g; returns = rw nothing refl; running = v }
    | inr enabled ↦
        let s = step-Kept tids g i v in
        record {
          result = s.result;
          returns = rw (to_list_lem tids, enabled) s.returns;
          running = s.running;
        }
  ]

  -- The selection for an event and its microstep.
  pub chosen-Kept :
      (e : Event h.Value) (g : Global h) → IsRunning w g → Kept (by_event m e g >>= microstep_if m)
  chosen-Kept e g v =
      let c = by_event-Chosen e g v in
      let s =
        microstep_if-Kept c.enabled c.result c.known (Framed-IsRunning g c.result c.framed v) in
      record { result = s.result; returns = rw c.returns s.returns; running = s.running }

  pub process-Kept : (e : Event h.Value) (g : Global h) → IsRunning w g → Kept (process m e g)
  unfolding process
  process-Kept e g v =
      chosen-Kept e (record g { model = h.set_event g.model e })
        (record {
          valid = record {
            states = v.valid.states;
            distinct = v.valid.distinct;
            proper = v.valid.proper;
            recorded = v.valid.recorded;
          };
          invoking = v.invoking;
        })

  -- A round returns, with the invariant.
  pub record RoundKept (run : Run (Bool × Global h)) : Type 0 where
    pub is_done : Bool
    pub result : Global h
    pub returns : run ≡ done (is_done, result)
    pub running : IsRunning w result

  queue_event-RoundKept :
      (queue : List (Event h.Value)) (g : Global h)
      → g.internal_queue ≡ queue
      → IsRunning w g
      → RoundKept (if Queue.is_empty g.internal_queue then done (true, g) else internal_event m g)
  unfolding internal_event Queue.dequeue Queue.is_empty
  queue_event-RoundKept [] g q v = record {
    is_done = true;
    result = g;
    returns = rw q refl;
    running = v;
  }
  queue_event-RoundKept (e ∷ queue) g q v =
      let p =
        process-Kept e (record g { internal_queue = queue })
          (record {
            valid = record {
              states = v.valid.states;
              distinct = v.valid.distinct;
              proper = v.valid.proper;
              recorded = v.valid.recorded;
            };
            invoking = v.invoking;
          }) in
      record {
        is_done = false;
        result = p.result;
        returns = rw (q, p.returns) refl;
        running = p.running;
      }

  pub round-RoundKept : (g : Global h) → IsRunning w g → RoundKept (round m g)
  unfolding round microstep_if
  round-RoundKept g v =
      let c = eventless-Chosen g v in
      let v' = Framed-IsRunning g c.result c.framed v in
      elim (Bool-cases (OrderedSet.is_empty c.enabled)) [
        | inl nothing ↦
            let r = queue_event-RoundKept c.result.internal_queue c.result refl v' in
            record {
              is_done = r.is_done;
              result = r.result;
              returns = rw (c.returns, nothing) r.returns;
              running = r.running;
            }
        | inr enabled ↦
            let s = step-Kept c.enabled c.result c.known v' in
            record {
              is_done = false;
              result = s.result;
              returns = rw (c.returns, to_list_lem c.enabled, enabled, s.returns) refl;
              running = s.running;
            }
      ]
