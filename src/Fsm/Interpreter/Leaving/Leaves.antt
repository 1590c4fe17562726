-- ===== src/Fsm/Interpreter/Leaving/Leaves.antt =====
-- `exitStates` of src/fsm.rs leaves the exit set, after it has recorded the histories.
use r_fsm.Prelude.{
  ℕ, List, [], ◌∷◌, true, false, not, ◌&&◌, Option, none, some, Run, done, contains, All, ◌≡◌, refl,
  sym, ap, ◌∙◌, arith, inl, inr, ◌⊎◌,
}
use mathlib.Core.Path.{subst}
use Prim.Native.Nat.{Ordering}
use r_fsm.Collections.HashTable
use r_fsm.Collections.HashTable.Laws.{lookup-put_all, or_else}
use r_fsm.Collections.OrderedSet
use r_fsm.Collections.OrderedSet.{OrderedSet}
use r_fsm.Collections.OrderedSet.Laws.{IsSetOf, contains-delete, delete-IsSetOf}
use r_fsm.Collections.Sort.Members.{sort-members}
use r_fsm.Fsm.Types.{State, Fsm, get_state_by_id, state_exit_order, state_document_order, by_doc_id}
use r_fsm.Fsm.Tree.{not_none}
use r_fsm.Fsm.Tree.Chain.{Chain-state}
use r_fsm.Fsm.Tree.Order.{IsTree, IsStateId, All-member, All-of_members}
use r_fsm.Fsm.WellFormed.{IsWellFormed, IsHistoryOf}
use r_fsm.Fsm.Exit.{compute_exit_set}
use r_fsm.Fsm.Exit.Members.{IsTransitionId, compute_exit_set-Exited}
use r_fsm.Fsm.Interpreter.{Host, Global, cancel_all, execute_all, sessions_of, invoke_doc_ids}
use r_fsm.Fsm.Interpreter.Frames.{then-Framed, execute_all-Framed, cancel_all-Framed}
use r_fsm.Fsm.Interpreter.Leaving.{delete_all, leave_state, leave_all, exit_states}
use r_fsm.Fsm.Interpreter.Leaving.Records.{HasHistories, set_to_state_list-Stated}
use r_fsm.Fsm.Interpreter.Leaving.Tables.{Remembers, record_all-Recorded}

pub contains-delete_all :
    (e : ℕ) (l s : List ℕ) → contains e (delete_all l s) ≡ (contains e s && not (contains e l))
unfolding delete_all
contains-delete_all e [] s = ground arith
contains-delete_all e (x ∷ l) s =
    ground (arith, contains-delete_all e l (OrderedSet.delete s x), contains-delete e x s)

delete_all-IsSetOf : (l s : List ℕ) → IsSetOf s → IsSetOf (delete_all l s)
unfolding delete_all
delete_all-IsSetOf [] s h = h
delete_all-IsSetOf (x ∷ l) s h = delete_all-IsSetOf l (OrderedSet.delete s x) (delete-IsSetOf x s h)

-- The order in which states are left compares any two states.
pub exit_order-total :
    {m : Fsm} (t : IsTree m) (x y : ℕ)
    → IsStateId m x
    → IsStateId m y
    → (o : Ordering) × (state_exit_order m x y ≡ done o)
unfolding state_exit_order state_document_order
exit_order-total t x y i j =
    let (xt, g, above) = Chain-state (t.line x i) refl in
    let (yt, g', above') = Chain-state (t.line y j) refl in
    (by_doc_id yt.doc_id xt.doc_id, rw (g', g) refl)

-- A run that leaves the states `l`.
record AllLeft {h : Host} (l : List ℕ) (g : Global h) (run : Run (Global h)) : Type 0 where
  result : Global h
  returns : run ≡ done result
  configuration : result.configuration ≡ delete_all l g.configuration
  states_to_invoke : result.states_to_invoke ≡ g.states_to_invoke
  history_value : result.history_value ≡ g.history_value
  running : result.running ≡ g.running

leave_all-AllLeft :
    {h : Host} {m : Fsm} (t : IsTree m) (l : List ℕ) (g : Global h)
    → All (IsStateId m) l
    → AllLeft l g (leave_all m l g)
unfolding leave_all leave_state delete_all
leave_all-AllLeft t [] g i = record {
  result = g;
  returns = refl;
  configuration = refl;
  states_to_invoke = refl;
  history_value = refl;
  running = refl;
}
leave_all-AllLeft {h} {m} t (s ∷ l) g (i, j) =
    let (st, found, above) = Chain-state (t.line s i) refl in
    let cancelled : Global h =
      cancel_all (sessions_of (invoke_doc_ids st.invoke) g.child_sessions) g in
    let frame =
      then-Framed g cancelled (execute_all st.onexit cancelled)
        (cancel_all-Framed (sessions_of (invoke_doc_ids st.invoke) g.child_sessions) g)
        (execute_all-Framed st.onexit cancelled) in
    let rest = leave_all-AllLeft t l (leave_state m s st g) j in
    record {
      result = rest.result;
      returns = rw found rest.returns;
      configuration =
          rest.configuration ∙ ap (λ c. delete_all l (OrderedSet.delete c s)) frame.configuration;
      states_to_invoke = rest.states_to_invoke ∙ frame.states_to_invoke;
      history_value = rest.history_value ∙ frame.history_value;
      running = rest.running ∙ frame.running;
    }

-- What `exitStates` has done to `g`, if `exits` are the states to exit.
pub record Left {h : Host} (m : Fsm) (exits : OrderedSet) (g g' : Global h) : Type 0 where
  pub active : (x : ℕ) → contains x exits ≡ true → contains x g.configuration ≡ true
  pub configuration :
      (x : ℕ) → contains x g'.configuration ≡ (contains x g.configuration && not (contains x exits))
  pub states_to_invoke :
      (x : ℕ)
      → contains x g'.states_to_invoke ≡ (contains x g.states_to_invoke && not (contains x exits))
  pub distinct : IsSetOf g.configuration → IsSetOf g'.configuration
  pub running : g'.running ≡ g.running
  -- Each history state of a state that was left has what it keeps of the configuration before.
  pub recorded :
      (s hid : ℕ) (st : State)
      → contains s exits ≡ true
      → get_state_by_id m s ≡ done st
      → contains hid st.history ≡ true
      → (l : OrderedSet) × (HashTable.lookup hid g'.history_value ≡ some l)
        × Remembers m g.configuration exits hid l
  -- Each entry is of this kind, or was there before.
  pub origin :
      (hid : ℕ) (l : OrderedSet)
      → HashTable.lookup hid g'.history_value ≡ some l
      → Remembers m g.configuration exits hid l ⊎ (HashTable.lookup hid g.history_value ≡ some l)
  -- The entries of all ids but the history states of states that were left are as before.
  pub kept :
      (hid : ℕ)
      → ((st : State)
          → get_state_by_id m hid ≡ done st
          → not_none st.history_type ≡ true
          → contains st.parent exits ≡ false)
      → HashTable.lookup hid g'.history_value ≡ HashTable.lookup hid g.history_value

lookup-nil : (hid : ℕ) (l : OrderedSet) → HashTable.lookup hid [] ≡ some l → ⊥
unfolding HashTable.lookup
lookup-nil hid l e = cc

or_else-cases :
    (o p : Option OrderedSet) (l : OrderedSet) → or_else o p ≡ some l → (o ≡ some l) ⊎ (p ≡ some l)
or_else-cases none p l e = inr e
or_else-cases (some a) p l e = inl e

or_else-right : (o p : Option OrderedSet) → ((l : OrderedSet) → o ≡ some l → ⊥) → or_else o p ≡ p
or_else-right none p absent = refl
or_else-right (some l) p absent = absurd (absent l refl)

module _ {h : Host} {m : Fsm} (w : IsWellFormed m) (has : HasHistories m) where
  -- If the history table and the configuration name states only, `exitStates` returns. It leaves
  -- the states of `computeExitSet` and no others, records for each of their history states what it
  -- keeps of the configuration, and leaves the entries of all other ids in the history table as
  -- they were.
  pub exit_states-Left :
      (tids : List ℕ) (g : Global h)
      → All (IsTransitionId m) tids
      → IsHistoryOf m g.history_value
      → All (IsStateId m) g.configuration
      → (exits : OrderedSet) × (g' : Global h) × (compute_exit_set m g.history_value g.configuration
            tids
          ≡ done exits)
        × (exit_states m tids g ≡ done g')
        × Left m exits g g'
  unfolding exit_states
  exit_states-Left tids g i v active =
      let (exits, run, distinct, exited) =
        compute_exit_set-Exited w g.history_value v g.configuration active tids i in
      let ids =
        All-of_members (IsStateId m) exits
          λ x k. All-member (IsStateId m) x g.configuration active ((exited x).0 k).0 in
      let (sorted, run_sort, sorted_ids, members, once) =
        sort-members (IsStateId m) (state_exit_order m) (exit_order-total w.tree) exits ids in
      let (states, run_states, stated) =
        set_to_state_list-Stated w.tree has g.configuration active in
      let table =
        record_all-Recorded w.tree has g.configuration active states stated exits sorted []
          sorted_ids
          (All-of_members (λ s. contains s exits ≡ true) sorted λ x k. sym (members x) ∙ k)
          (record { unique = tt; sound = λ hid l e. absurd (lookup-nil hid l e) }) in
      let g1 : Global h = record g {
        states_to_invoke = delete_all exits g.states_to_invoke;
        history_value = HashTable.put_all g.history_value table.result;
      } in
      let left = leave_all-AllLeft w.tree sorted g1 sorted_ids in
      (
        exits,
        left.result,
        run,
        rw (run, run_sort, run_states, table.returns) left.returns,
        record {
          active = λ x k. ((exited x).0 k).0;
          configuration = λ x.
              subst (λ c. contains x c ≡ (contains x g.configuration && not (contains x exits)))
                (sym left.configuration)
                (ground (arith, contains-delete_all x sorted g.configuration, members x));
          states_to_invoke = λ x.
              subst (λ c. contains x c ≡ (contains x g.states_to_invoke && not (contains x exits)))
                (sym left.states_to_invoke) (contains-delete_all x exits g.states_to_invoke);
          distinct = λ d.
              subst IsSetOf (sym left.configuration) (delete_all-IsSetOf sorted g.configuration d);
          running = left.running;
          recorded = λ s hid st c found k.
              let (l, e) = table.added hid (s, st, members s ∙ c, found, k) in
              (
                l,
                ap (HashTable.lookup hid) left.history_value
                    ∙ lookup-put_all hid g.history_value table.result table.recording.unique
                    ∙ ap (λ o. or_else o (HashTable.lookup hid g.history_value)) e,
                table.recording.sound hid l e,
              );
          origin = λ hid l e.
              let joined =
                sym (
                  ap (HashTable.lookup hid) left.history_value
                  ∙ lookup-put_all hid g.history_value table.result table.recording.unique)
                ∙ e in
              elim (or_else-cases (HashTable.lookup hid table.result)
                (HashTable.lookup hid g.history_value) l joined) [
                  | inl new ↦ inl (table.recording.sound hid l new)
                  | inr old ↦ inr old
                ];
          kept = λ hid other.
              ap (HashTable.lookup hid) left.history_value
              ∙ lookup-put_all hid g.history_value table.result table.recording.unique
              ∙ or_else-right (HashTable.lookup hid table.result)
                  (HashTable.lookup hid g.history_value)
                  λ l e.
                    let new = table.recording.sound hid l e in
                    cc (sym new.left ∙ other new.state new.found new.history);
        },
      )
