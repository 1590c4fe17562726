-- ===== src/Fsm/Interpreter/Leaving/Tables.antt =====
-- The table of histories that `exitStates` of src/fsm.rs fills: an entry for each history state of
-- each state to exit.
use r_fsm.Prelude.{
  ℕ, List, [], ◌∷◌, true, some, Run, done, contains, All, ◌==◌, ◌≡◌, refl, sym, ap, ◌∙◌, arith,
  Bool-cases, inl, inr, ◌⊎◌, ◌↔◌,
}
use mathlib.Core.Path.{subst}
use r_fsm.Collections.SeqList.Deciding.{member-cases}
use r_fsm.Collections.HashTable
use r_fsm.Collections.HashTable.Laws.{IsTable, IsTable-insert, lookup-insert}
use r_fsm.Collections.OrderedSet.{OrderedSet}
use r_fsm.Fsm.Types.{State, Fsm, get_state_by_id}
use r_fsm.Fsm.Tree.{not_none}
use r_fsm.Fsm.Tree.Chain.{Chain-state, done-injective}
use r_fsm.Fsm.Tree.Order.{IsTree, IsStateId, All-of_members}
use r_fsm.Fsm.Domain.{HistoryTable}
use r_fsm.Fsm.Interpreter.Leaving.{is_deep, record_histories, record_all}
use r_fsm.Fsm.Interpreter.Leaving.Records.{HasHistories, Kept, Stated, recorded_value-Kept}

abbrev pub HistoryOf : Fsm → ℕ → ℕ → Type 0
HistoryOf m s hid =
    (ht : State) × (get_state_by_id m hid ≡ done ht)
    × (not_none ht.history_type ≡ true)
    × (ht.parent ≡ s)

-- The history state `hid` belongs to one of the states `exits`, and `l` is what it keeps.
pub record Remembers (m : Fsm) (configuration : OrderedSet) (exits : List ℕ) (hid : ℕ)
    (l : OrderedSet) : Type 0 where
  pub state : State
  pub found : get_state_by_id m hid ≡ done state
  pub history : not_none state.history_type ≡ true
  pub left : contains state.parent exits ≡ true
  pub kept :
      (x : ℕ)
      → (contains x l ≡ true) ↔ Kept m configuration state.parent (is_deep state.history_type) x

abbrev pub Present : HistoryTable → ℕ → Type 0
Present table hid = (l : OrderedSet) × (HashTable.lookup hid table ≡ some l)

some-injective : {A : Type 0} {a b : A} → some a ≡ some b → a ≡ b
some-injective e = cc

module _ {m : Fsm} (t : IsTree m) (has : HasHistories m) (configuration : OrderedSet)
    (active : All (IsStateId m) configuration) (states : List State)
    (stated : Stated m configuration states) (exits : List ℕ) where
  -- A table with an entry for a key, each of which is what its history state keeps.
  pub record IsRecording (table : HistoryTable) : Type 0 where
    pub unique : IsTable table
    pub sound :
        (hid : ℕ) (l : OrderedSet)
        → HashTable.lookup hid table ≡ some l
        → Remembers m configuration exits hid l

  -- What a loop over the ids `l` makes of a table.
  pub record Recorded (run : Run HistoryTable) (old : HistoryTable) (New : ℕ → Type 0)
      : Type 0 where
    pub result : HistoryTable
    pub returns : run ≡ done result
    pub recording : IsRecording result
    pub keeps : (hid : ℕ) → Present old hid → Present result hid
    pub added : (hid : ℕ) → New hid → Present result hid

  Present-insert :
      (hid k : ℕ) (v : OrderedSet) (table : HistoryTable)
      → (k ≡ hid) ⊎ Present table hid
      → Present (HashTable.insert k v table) hid
  Present-insert hid k v table h = elim (Bool-cases (k == hid)) [
    | inl here ↦ (v, lookup-insert hid k v table ∙ rw here refl)
    | inr other ↦ elim h [
      | inl same ↦ absurd (ground (arith, same, other))
      | inr old ↦ (old.0, lookup-insert hid k v table ∙ rw other old.1)
    ]
  ]

  insert-IsRecording :
      (k : ℕ) (v : OrderedSet) (table : HistoryTable)
      → Remembers m configuration exits k v
      → IsRecording table
      → IsRecording (HashTable.insert k v table)
  insert-IsRecording k v table new old = record {
    unique = IsTable-insert k v table old.unique;
    sound = λ hid l e. elim (Bool-cases (k == hid)) [
      | inl here ↦
          let same : k ≡ hid = ground (arith, here) in
          let value : v ≡ l =
            some-injective (sym (lookup-insert hid k v table ∙ rw here refl) ∙ e) in
          subst (λ i. Remembers m configuration exits i l) same
            (subst (Remembers m configuration exits k) value new)
      | inr other ↦ old.sound hid l (sym (lookup-insert hid k v table ∙ rw other refl) ∙ e)
    ];
  }

  record_histories-Recorded :
      (s : ℕ) (l : List ℕ) (table : HistoryTable)
      → contains s exits ≡ true
      → All (HistoryOf m s) l
      → IsRecording table
      → Recorded
          (record_histories m configuration states s l table)
          table
          (λ hid. contains hid l ≡ true)
  unfolding record_histories HashTable.put
  record_histories-Recorded s [] table e i v = record {
    result = table;
    returns = refl;
    recording = v;
    keeps = λ hid p. p;
    added = λ hid h. cc;
  }
  record_histories-Recorded s (k ∷ l) table e ((ht, g, history, p), i) v =
      let (value, run, kept) =
        recorded_value-Kept t has configuration states s (is_deep ht.history_type) active stated in
      let own : ht.id ≡ k = has.own_id k ht g in
      let new : Remembers m configuration exits k value = record {
        state = ht;
        found = g;
        history = history;
        left = subst (λ z. contains z exits ≡ true) (sym p) e;
        kept = λ x.
            subst
              (λ z. (contains x value ≡ true) ↔ Kept m configuration z (is_deep ht.history_type) x)
              (sym p) (kept x);
      } in
      let rest =
        record_histories-Recorded s l (HashTable.insert k value table) e i
          (insert-IsRecording k value table new v) in
      record {
        result = rest.result;
        returns = rw (g, run, own) rest.returns;
        recording = rest.recording;
        keeps = λ hid q. rest.keeps hid (Present-insert hid k value table (inr q));
        added = λ hid h. elim (member-cases hid k l h) [
          | inl here ↦ rest.keeps hid (Present-insert hid k value table (inl here))
          | inr there ↦ rest.added hid there
        ];
      }

  -- A history state of one of the states of a list.
  abbrev pub Listed : List ℕ → ℕ → Type 0
  Listed l hid =
      (s : ℕ) × (st : State) × (contains s l ≡ true)
      × (get_state_by_id m s ≡ done st)
      × (contains hid st.history ≡ true)

  pub record_all-Recorded :
      (l : List ℕ) (table : HistoryTable)
      → All (IsStateId m) l
      → All (λ s. contains s exits ≡ true) l
      → IsRecording table
      → Recorded (record_all m configuration states l table) table (Listed l)
  unfolding record_all
  record_all-Recorded [] table i j v = record {
    result = table;
    returns = refl;
    recording = v;
    keeps = λ hid p. p;
    added = λ hid (s, st, c, k, q). cc c;
  }
  record_all-Recorded (s ∷ l) table (i, is) (j, js) v =
      let (st, g, above) = Chain-state (t.line s i) refl in
      let own : st.id ≡ s = has.own_id s st g in
      let one =
        record_histories-Recorded s st.history table j
          (All-of_members (HistoryOf m s) st.history λ hid h. has.histories s st g hid h) v in
      let rest = record_all-Recorded l one.result is js one.recording in
      record {
        result = rest.result;
        returns = rw (g, own, one.returns) rest.returns;
        recording = rest.recording;
        keeps = λ hid p. rest.keeps hid (one.keeps hid p);
        added = λ hid (x, xt, c, gx, h). elim (member-cases x s l c) [
          | inl here ↦
              let same : xt ≡ st =
                done-injective (sym gx ∙ ap (get_state_by_id m) (sym here) ∙ g) in
              rest.keeps hid
                (one.added hid (subst (λ (z : State). contains hid z.history ≡ true) same h))
          | inr there ↦ rest.added hid (x, xt, there, gx, h)
        ];
      }
