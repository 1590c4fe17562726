-- ===== src/Fsm/Interpreter/Arriving/Arrives.antt =====
-- `enterStates` of src/fsm.rs enters the entry set.
use r_fsm.Prelude.{
  ℕ, List, [], ◌∷◌, ◌++◌, Bool, true, false, not, ◌&&◌, ◌||◌, Option, none, some, Run, done, ◌>>=◌,
  unwrap, contains, All, if◌then◌else◌, ◌==◌, ◌≡◌, refl, ap, ◌∙◌, arith, Bool-cases, inl, inr, ◌⊎◌,
}
use r_fsm.Collections.HashTable
use r_fsm.Collections.OrderedSet
use r_fsm.Collections.OrderedSet.{OrderedSet}
use r_fsm.Collections.OrderedSet.Laws.{IsSetOf, contains-add, add-IsSetOf}
use r_fsm.Collections.SeqList
use r_fsm.Collections.SeqList.Deciding.{every-Decides}
use r_fsm.Collections.SeqList.Laws.{push_set_lem}
use r_fsm.Fsm.Types.{State, Fsm, get_state_by_id}
use r_fsm.Fsm.Tree.{is_parallel_state, is_scxml_element, get_child_states}
use r_fsm.Fsm.Tree.Chain.{Chain, Chain-state, state_id_bounds}
use r_fsm.Fsm.Tree.Order.{IsStateId}
use r_fsm.Fsm.WellFormed.{IsWellFormed}
use r_fsm.Fsm.Final.{is_in_final_state}
use r_fsm.Fsm.Final.Decided.{InFinal, is_in_final_state-Decides}
use r_fsm.Fsm.Entry.{EntrySets}
use r_fsm.Fsm.Entry.Enterable.{IsEnterable}
use r_fsm.Fsm.Interpreter.{Host, Global, absorb, enqueue_internal, execute_all}
use r_fsm.Fsm.Interpreter.Frames.{Framed, same-Framed, then-Framed, execute_all-Framed}
use r_fsm.Fsm.Interpreter.Arriving.{
  first_entry, initial_content, history_content, enqueue_done, grandparent_done, final_entry,
  enter_state, enter_all, is_late,
}

-- A final state has a parent.
abbrev pub HasFinalParents : Fsm → Type 0
HasFinalParents m =
    (s : ℕ) (st : State)
    → get_state_by_id m s ≡ done st
    → st.is_final ≡ true
    → IsStateId m st.parent

-- A run that changes neither the configuration nor what is recorded or to be invoked.
pub record Quiet {h : Host} (g : Global h) (run : Run (Global h)) : Type 0 where
  pub result : Global h
  pub returns : run ≡ done result
  pub configuration : result.configuration ≡ g.configuration
  pub states_to_invoke : result.states_to_invoke ≡ g.states_to_invoke
  pub history_value : result.history_value ≡ g.history_value

-- The states `l` are added to `s`.
abbrev pub add_all : List ℕ → OrderedSet → OrderedSet
add_all [] s = s
add_all (x ∷ l) s = add_all l (OrderedSet.add s x)

pub contains-add_all :
    (e : ℕ) (l s : List ℕ) → contains e (add_all l s) ≡ (contains e s || contains e l)
contains-add_all e [] s = ground arith
contains-add_all e (x ∷ l) s =
    ground (arith, contains-add_all e l (OrderedSet.add s x), contains-add e x s)

pub add_all-IsSetOf : (l s : List ℕ) → IsSetOf s → IsSetOf (add_all l s)
add_all-IsSetOf [] s h = h
add_all-IsSetOf (x ∷ l) s h = add_all-IsSetOf l (OrderedSet.add s x) (add-IsSetOf x s h)

-- A run that enters the states `l`.
pub record Arrived {h : Host} (l : List ℕ) (g : Global h) (run : Run (Global h)) : Type 0 where
  pub result : Global h
  pub returns : run ≡ done result
  pub configuration : result.configuration ≡ add_all l g.configuration
  pub states_to_invoke : result.states_to_invoke ≡ add_all l g.states_to_invoke
  pub history_value : result.history_value ≡ g.history_value

initial_content-returns :
    {m : Fsm} {w : IsWellFormed m} (n : IsEnterable w) (e : EntrySets) (s : ℕ) (st : State)
    → get_state_by_id m s ≡ done st
    → (l : List ℕ) × (initial_content m e s st ≡ done l)
unfolding initial_content
initial_content-returns n e s st g =
    elim (Bool-cases (OrderedSet.is_member e.states_for_default_entry s)) [
      | inr other ↦ ([], rw other refl)
      | inl default ↦ elim (Bool-cases (st.initial == 0)) [
        | inl without ↦ ([], rw (default, without) refl)
        | inr leads ↦
            let (t, found, below) = n.initial s st g leads in
            (t.content ∷ [], rw (default, leads, found) refl)
      ]
    ]

by_entry-returns :
    (o : Option ℕ)
    → (l : List ℕ) × ((if HashTable.is_some o then (unwrap o >>= λ c. done (c ∷ [])) else done [])
        ≡ done l)
by_entry-returns none = ([], refl)
by_entry-returns (some c) = (c ∷ [], refl)

history_content-returns : (e : EntrySets) (s : ℕ) → (l : List ℕ) × (history_content e s ≡ done l)
unfolding history_content HashTable.has HashTable.get
history_content-returns e s = by_entry-returns (HashTable.lookup s e.default_history_content)

parent-cases : {m : Fsm} {p : ℕ} {l : List ℕ} → Chain m p l → (p ≡ 0) ⊎ IsStateId m p
parent-cases Chain.top = inl refl
parent-cases {m} {p} (Chain.up g c) = inr (state_id_bounds m p g)

module _ {h : Host} {m : Fsm} (w : IsWellFormed m) (n : IsEnterable w)
    (finals : HasFinalParents m) where
  first_entry-Framed : (s : ℕ) (st : State) (g : Global h) → Framed g (first_entry m s st g)
  unfolding first_entry absorb
  first_entry-Framed s st g =
      elim (Bool-cases
        (is_late m.binding && st.is_first_entry && not (OrderedSet.is_member g.entered s))) [
          | inl first ↦ rw first (record {
            configuration = refl;
            states_to_invoke = refl;
            history_value = refl;
            running = refl;
            caller_invoke_id = refl;
            parent_session_id = refl;
          })
          | inr again ↦ rw again (same-Framed g)
        ]

  all_final-returns :
      (p : ℕ) (g : Global h)
      → IsStateId m p
      → (b : Bool) × ((get_child_states m p >>= λ l.
            SeqList.every (is_in_final_state m g.configuration) l)
          ≡ done b)
  unfolding get_child_states
  all_final-returns p g i =
      let (pt, found, above) = Chain-state (w.tree.line p i) refl in
      let d =
        every-Decides (is_in_final_state m g.configuration) (InFinal m g.configuration) pt.states
          λ c k.
            let (ct, gc, parent) = n.children p pt found c k in
            is_in_final_state-Decides m w.tree n.children g.configuration c
              (state_id_bounds m c gc) in
      (d.answer, rw (found, push_set_lem [] pt.states) d.returns)

  grandparent_done-Quiet :
      (p : ℕ) (g : Global h) → (p ≡ 0) ⊎ IsStateId m p → Quiet g (grandparent_done m p g)
  unfolding grandparent_done is_parallel_state enqueue_done enqueue_internal
  grandparent_done-Quiet p g (inl top) = record {
    result = g;
    returns = rw top refl;
    configuration = refl;
    states_to_invoke = refl;
    history_value = refl;
  }
  grandparent_done-Quiet p g (inr i) =
      let (pt, found, above) = Chain-state (w.tree.line p i) refl in
      let inside : (p == 0) ≡ false = ground arith in
      let (all, run) = all_final-returns p g i in
      let still : Quiet g (done g) = record {
        result = g;
        returns = refl;
        configuration = refl;
        states_to_invoke = refl;
        history_value = refl;
      } in
      elim (Bool-cases pt.is_parallel) [
        | inr single ↦ record {
          result = g;
          returns = rw (inside, found, single) refl;
          configuration = refl;
          states_to_invoke = refl;
          history_value = refl;
        }
        | inl parallel ↦ elim (Bool-cases all) [
          | inr active ↦ record {
            result = g;
            returns = rw (run, inside, found, parallel, active) refl;
            configuration = refl;
            states_to_invoke = refl;
            history_value = refl;
          }
          | inl finished ↦ record {
            result = enqueue_done m pt.name none none g;
            returns = rw (run, inside, found, parallel, finished) refl;
            configuration = refl;
            states_to_invoke = refl;
            history_value = refl;
          }
        ]
      ]

  final_entry-Quiet :
      (s : ℕ) (st : State) (g : Global h)
      → get_state_by_id m s ≡ done st
      → st.is_final ≡ true
      → Quiet g (final_entry m s st g)
  unfolding final_entry enqueue_done enqueue_internal absorb
  final_entry-Quiet s st g found final = elim (Bool-cases (is_scxml_element m st.parent)) [
    | inl root ↦ record {
      result = record g { running = false };
      returns = rw root refl;
      configuration = refl;
      states_to_invoke = refl;
      history_value = refl;
    }
    | inr inner ↦
        let (pt, found', above) =
          Chain-state (w.tree.line st.parent (finals s st found final)) refl in
        let r = h.done_data g.model s in
        let g' = enqueue_done m pt.name r.2.0 r.2.1 (absorb g (r.0, r.1)) in
        let q = grandparent_done-Quiet pt.parent g' (parent-cases above) in
        record {
          result = q.result;
          returns = rw (inner, found') q.returns;
          configuration = q.configuration;
          states_to_invoke = q.states_to_invoke;
          history_value = q.history_value;
        }
  ]

  enter_state-Arrived :
      (e : EntrySets) (s : ℕ) (g : Global h)
      → IsStateId m s
      → Arrived (s ∷ []) g (enter_state m e s g)
  unfolding enter_state
  enter_state-Arrived e s g i =
      let (st, found, above) = Chain-state (w.tree.line s i) refl in
      let (by_default, run) = initial_content-returns n e s st found in
      let (by_history, run') = history_content-returns e s in
      let g1 : Global h = record g {
        configuration = OrderedSet.add g.configuration s;
        states_to_invoke = OrderedSet.add g.states_to_invoke s;
      } in
      let g2 = first_entry m s st g1 in
      let g3 = execute_all (st.onentry ++ by_default ++ by_history) g2 in
      let f =
        then-Framed g1 g2 g3 (first_entry-Framed s st g1)
          (execute_all-Framed (st.onentry ++ by_default ++ by_history) g2) in
      elim (Bool-cases st.is_final) [
        | inl final ↦
            let q = final_entry-Quiet s st g3 found final in
            record {
              result = q.result;
              returns = rw (found, run, run', final) q.returns;
              configuration = q.configuration ∙ f.configuration;
              states_to_invoke = q.states_to_invoke ∙ f.states_to_invoke;
              history_value = q.history_value ∙ f.history_value;
            }
        | inr other ↦ record {
          result = g3;
          returns = rw (found, run, run', other) refl;
          configuration = f.configuration;
          states_to_invoke = f.states_to_invoke;
          history_value = f.history_value;
        }
      ]

  pub enter_all-Arrived :
      (e : EntrySets) (l : List ℕ) (g : Global h)
      → All (IsStateId m) l
      → Arrived l g (enter_all m e l g)
  unfolding enter_all
  enter_all-Arrived e [] g i = record {
    result = g;
    returns = refl;
    configuration = refl;
    states_to_invoke = refl;
    history_value = refl;
  }
  enter_all-Arrived e (s ∷ l) g (i, j) =
      let one = enter_state-Arrived e s g i in
      let rest = enter_all-Arrived e l one.result j in
      record {
        result = rest.result;
        returns = rw one.returns rest.returns;
        configuration = rest.configuration ∙ ap (add_all l) one.configuration;
        states_to_invoke = rest.states_to_invoke ∙ ap (add_all l) one.states_to_invoke;
        history_value = rest.history_value ∙ one.history_value;
      }
