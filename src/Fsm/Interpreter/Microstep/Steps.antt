-- ===== src/Fsm/Interpreter/Microstep/Steps.antt =====
-- A microstep of src/fsm.rs returns, and what the active states are after it.
use r_fsm.Prelude.{
  ℕ, List, [], ◌∷◌, true, not, ◌&&◌, ◌||◌, some, done, contains, All, ◌≡◌, refl, ap, ◌∙◌, arith,
  inl, inr, ◌⊎◌,
}
use mathlib.Core.Path.{subst}
use Prim.Native.Nat.{Ordering}
use r_fsm.Collections.HashTable
use r_fsm.Collections.OrderedSet.{OrderedSet}
use r_fsm.Collections.OrderedSet.Laws.{to_list_lem}
use r_fsm.Collections.Sort.Members.{sort-members}
use r_fsm.Fsm.Types.{
  State, Fsm, get_state_by_id, state_entry_order, state_document_order, by_doc_id,
}
use r_fsm.Fsm.Tree.Chain.{Chain-state}
use r_fsm.Fsm.Tree.Order.{IsTree, IsStateId, All-member, All-of_members}
use r_fsm.Fsm.WellFormed.{IsWellFormed}
use r_fsm.Fsm.Exit.{compute_exit_set}
use r_fsm.Fsm.Exit.Members.{IsTransitionId}
use r_fsm.Fsm.Entry.{EntrySets, compute_entry_set}
use r_fsm.Fsm.Entry.Enterable.{IsEnterable, IsProper, IsRecorded-IsHistoryOf}
use r_fsm.Fsm.Entry.Computes.{Entered, compute_entry_set-Enters}
use r_fsm.Fsm.Interpreter.{Host, Global, execute_content}
use r_fsm.Fsm.Interpreter.Frames.{Framed, same-Framed, then-Framed, execute_content-Framed}
use r_fsm.Fsm.Interpreter.Leaving.Records.{HasHistories}
use r_fsm.Fsm.Interpreter.Leaving.Tables.{Remembers}
use r_fsm.Fsm.Interpreter.Leaving.Leaves.{exit_states-Left}
use r_fsm.Fsm.Interpreter.Arriving.{enter_states}
use r_fsm.Fsm.Interpreter.Arriving.Arrives.{
  HasFinalParents, contains-add_all, add_all-IsSetOf, enter_all-Arrived,
}
use r_fsm.Fsm.Interpreter.Validity.{IsValid, Framed-IsValid, Left-IsValid}
use r_fsm.Fsm.Interpreter.Microstep.{execute_transition_content, microstep}

-- The tables before the computation of an entry set.
abbrev pub no_entries : EntrySets
no_entries = record {
  states_to_enter = [];
  states_for_default_entry = [];
  default_history_content = [];
}

pub entry_order-total :
    {m : Fsm} (t : IsTree m) (x y : ℕ)
    → IsStateId m x
    → IsStateId m y
    → (o : Ordering) × (state_entry_order m x y ≡ done o)
unfolding state_entry_order state_document_order
entry_order-total t x y i j =
    let (xt, g, above) = Chain-state (t.line x i) refl in
    let (yt, g', above') = Chain-state (t.line y j) refl in
    (by_doc_id xt.doc_id yt.doc_id, rw (g, g') refl)

-- What `enterStates` has made of `g` for the transitions `tids`.
pub record Entering {h : Host} {m : Fsm} (w : IsWellFormed m) (tids : List ℕ) (g g' : Global h)
    : Type 0 where
  pub entries : EntrySets
  pub entries_lem : compute_entry_set m g'.history_value tids no_entries ≡ done entries
  pub entered :
      (x tid : ℕ)
      → contains tid tids ≡ true
      → Entered w g'.history_value tid x
      → contains x entries.states_to_enter ≡ true
  pub configuration :
      (x : ℕ)
      → contains x g'.configuration
        ≡ (contains x g.configuration || contains x entries.states_to_enter)
  pub states_to_invoke :
      (x : ℕ)
      → contains x g'.states_to_invoke
        ≡ (contains x g.states_to_invoke || contains x entries.states_to_enter)
  pub history_value : g'.history_value ≡ g.history_value
  pub valid : IsValid w g'

-- What a microstep has made of `g`: the exit set is left, the entry set is entered, and the history
-- states of the states that were left have what they keep of the configuration before.
pub record Stepped {h : Host} {m : Fsm} (w : IsWellFormed m) (tids : List ℕ) (g g' : Global h)
    : Type 0 where
  pub exits : OrderedSet
  pub exits_lem : compute_exit_set m g.history_value g.configuration tids ≡ done exits
  pub entries : EntrySets
  pub entries_lem : compute_entry_set m g'.history_value tids no_entries ≡ done entries
  pub entered :
      (x tid : ℕ)
      → contains tid tids ≡ true
      → Entered w g'.history_value tid x
      → contains x entries.states_to_enter ≡ true
  pub configuration :
      (x : ℕ)
      → contains x g'.configuration ≡ (
          contains x g.configuration && not (contains x exits)
          || contains x entries.states_to_enter)
  pub states_to_invoke :
      (x : ℕ)
      → contains x g'.states_to_invoke ≡ (
          contains x g.states_to_invoke && not (contains x exits)
          || contains x entries.states_to_enter)
  pub recorded :
      (s hid : ℕ) (st : State)
      → contains s exits ≡ true
      → get_state_by_id m s ≡ done st
      → contains hid st.history ≡ true
      → (l : OrderedSet) × (HashTable.lookup hid g'.history_value ≡ some l)
        × Remembers m g.configuration exits hid l
  pub valid : IsValid w g'

module _ {h : Host} {m : Fsm} (w : IsWellFormed m) (n : IsEnterable w) (has : HasHistories m)
    (finals : HasFinalParents m) where
  content-Framed :
      (tids : List ℕ) (g : Global h)
      → All (IsTransitionId m) tids
      → (g' : Global h) × (execute_transition_content m tids g ≡ done g') × Framed g g'
  unfolding execute_transition_content
  content-Framed [] g i = (g, refl, same-Framed g)
  content-Framed (tid ∷ l) g ((t, found), i) =
      let (g', run, f) = content-Framed l (execute_content t.content g) i in
      (
        g',
        rw found run,
        then-Framed g (execute_content t.content g) g' (execute_content-Framed t.content g) f,
      )

  -- In a valid state `enterStates` returns. It enters the states of `computeEntrySet`, and leaves a
  -- valid state.
  pub enter_states-Entering :
      (tids : List ℕ) (g : Global h)
      → All (IsTransitionId m) tids
      → IsValid w g
      → (g' : Global h) × (enter_states m tids g ≡ done g') × Entering w tids g g'
  unfolding enter_states
  enter_states-Entering tids g i v =
      let all =
        compute_entry_set-Enters w g.history_value n v.recorded tids no_entries i
          (record { states = tt; distinct = refl; proper = tt }) in
      let e = all.result in
      let (sorted, run, ids, members, once) =
        sort-members (IsStateId m) (state_entry_order m) (entry_order-total w.tree)
          e.states_to_enter all.entry.states in
      let a = enter_all-Arrived w n finals e sorted g ids in
      let active : (x : ℕ)
          → contains x a.result.configuration
            ≡ (contains x g.configuration || contains x e.states_to_enter) =
        λ x.
          ap (contains x) a.configuration
          ∙ ground (arith, contains-add_all x sorted g.configuration, members x) in
      let some_active : (x : ℕ)
          → contains x a.result.configuration ≡ true
          → (contains x g.configuration ≡ true) ⊎ (contains x e.states_to_enter ≡ true) =
        λ x k. ground (arith, active x, k) in
      (
        a.result,
        rw (all.returns, to_list_lem e.states_to_enter, run) a.returns,
        record {
          entries = e;
          entries_lem =
              ap (λ z. compute_entry_set m z tids no_entries) a.history_value ∙ all.returns;
          entered =
              λ x tid k q. all.reached x (tid, k, subst (λ z. Entered w z tid x) a.history_value q);
          configuration = active;
          states_to_invoke = λ x.
              ap (contains x) a.states_to_invoke
              ∙ ground (arith, contains-add_all x sorted g.states_to_invoke, members x);
          history_value = a.history_value;
          valid = record {
            states = All-of_members (IsStateId m) a.result.configuration λ x k.
                elim (some_active x k) [
                  | inl old ↦ All-member (IsStateId m) x g.configuration v.states old
                  | inr new ↦ All-member (IsStateId m) x e.states_to_enter all.entry.states new
                ];
            distinct = rw a.configuration (add_all-IsSetOf sorted g.configuration v.distinct);
            proper = All-of_members (IsProper m) a.result.configuration λ x k.
                elim (some_active x k) [
                  | inl old ↦ All-member (IsProper m) x g.configuration v.proper old
                  | inr new ↦ All-member (IsProper m) x e.states_to_enter all.entry.proper new
                ];
            recorded = rw a.history_value v.recorded;
          };
        },
      )

  -- In a valid state a microstep over transitions of the machine returns. The active states are then
  -- those of before without the exit set, and those of the entry set; the state is valid again.
  pub microstep-Stepped :
      (tids : List ℕ) (g : Global h)
      → All (IsTransitionId m) tids
      → IsValid w g
      → (g' : Global h) × (microstep m tids g ≡ done g') × Stepped w tids g g'
  unfolding microstep
  microstep-Stepped tids g i v =
      let known = IsRecorded-IsHistoryOf w g.history_value v.recorded in
      let (exits, g1, run, run1, left) = exit_states-Left w has tids g i known v.states in
      let valid1 = Left-IsValid w exits g g1 left v in
      let (g2, run2, f) = content-Framed tids g1 i in
      let (g3, run3, e) = enter_states-Entering tids g2 i (Framed-IsValid w g1 g2 f valid1) in
      let history = e.history_value ∙ f.history_value in
      (
        g3,
        rw (run1, run2) run3,
        record {
          exits = exits;
          exits_lem = run;
          entries = e.entries;
          entries_lem = e.entries_lem;
          entered = e.entered;
          configuration = λ x.
              ground
                (arith, e.configuration x, ap (contains x) f.configuration, left.configuration x);
          states_to_invoke = λ x. ground (
            arith,
            e.states_to_invoke x,
            ap (contains x) f.states_to_invoke,
            left.states_to_invoke x,
          );
          recorded = λ s hid st c found k.
              let (l, p, r) = left.recorded s hid st c found k in
              (l, ap (HashTable.lookup hid) history ∙ p, r);
          valid = e.valid;
        },
      )
