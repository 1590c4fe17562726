-- ===== src/Fsm/Domain/Resolved.antt =====
-- What a target stands for in `getEffectiveTargetStates` of src/fsm.rs, and how a set collects it.
use r_fsm.Prelude.{
  ℕ, List, [], ◌∷◌, true, false, ◌||◌, none, some, done, contains, All, ◌≡◌, refl, sym, ap, ◌∙◌,
  arith, Bool-cases, ℕ_discrete, inl, inr, ◌⊎◌,
}
use mathlib.Core.Path.{subst}
use r_fsm.Collections.OrderedSet.{OrderedSet}
use r_fsm.Collections.OrderedSet.Laws.{IsSetOf}
use r_fsm.Collections.SeqList
use r_fsm.Collections.HashTable
use r_fsm.Fsm.Types.{Fsm, State, Transition, get_state_by_id, get_transition_by_id}
use r_fsm.Fsm.Tree.{not_none}
use r_fsm.Fsm.Tree.Chain.{done-injective}
use r_fsm.Fsm.Tree.Order.{IsStateId, All-member}
use r_fsm.Fsm.Domain.{HistoryTable}

-- The states that a target stands for: itself, or what a history state has recorded, or what the
-- targets of its default transition stand for.
pub data Resolves (m : Fsm) (hist : HistoryTable) (e : ℕ) : ℕ → Type 0 where
  plain :
      {st : State}
      → get_state_by_id m e ≡ done st
      → not_none st.history_type ≡ false
      → Resolves m hist e e
  recorded :
      {sid : ℕ} {st : State} {s : OrderedSet}
      → get_state_by_id m sid ≡ done st
      → not_none st.history_type ≡ true
      → HashTable.lookup sid hist ≡ some s
      → contains e s ≡ true
      → Resolves m hist e sid
  default :
      {sid : ℕ} {st : State} {tid : ℕ} {t : Transition} (x : ℕ)
      → get_state_by_id m sid ≡ done st
      → not_none st.history_type ≡ true
      → HashTable.lookup sid hist ≡ none
      → SeqList.head st.transitions ≡ done tid
      → get_transition_by_id m tid ≡ done t
      → contains x t.target ≡ true
      → Resolves m hist e x
      → Resolves m hist e sid

-- `r` is the set of the states that some member of `l` stands for.
pub record IsResolved (m : Fsm) (hist : HistoryTable) (l : List ℕ) (r : OrderedSet) : Type 0 where
  pub sound : (e : ℕ) → contains e r ≡ true → (x : ℕ) × (contains x l ≡ true) × Resolves m hist e x
  pub complete : (e x : ℕ) → contains x l ≡ true → Resolves m hist e x → contains e r ≡ true
  pub distinct : IsSetOf r
  pub states : (e : ℕ) → contains e r ≡ true → IsStateId m e

-- `s` is the set of the states that `sid` stands for.
pub record Stands (m : Fsm) (hist : HistoryTable) (sid : ℕ) (s : OrderedSet) : Type 0 where
  pub sound : (e : ℕ) → contains e s ≡ true → Resolves m hist e sid
  pub complete : (e : ℕ) → Resolves m hist e sid → contains e s ≡ true
  pub states : (e : ℕ) → contains e s ≡ true → IsStateId m e

module _ {m : Fsm} {hist : HistoryTable} where
  -- What a state stands for, by what kind of state it is.
  pub Resolves-proper :
      {y s : ℕ} {st : State}
      → get_state_by_id m s ≡ done st
      → not_none st.history_type ≡ false
      → Resolves m hist y s
      → s ≡ y
  Resolves-proper g h (plain g' h') = refl
  Resolves-proper g h (recorded g' h' l c) = cc
  Resolves-proper g h (default x g' h' l f t c r) = cc

  pub Resolves-recorded :
      {y s : ℕ} {st : State} {l : OrderedSet}
      → get_state_by_id m s ≡ done st
      → not_none st.history_type ≡ true
      → HashTable.lookup s hist ≡ some l
      → Resolves m hist y s
      → contains y l ≡ true
  Resolves-recorded g h e (plain g' h') = cc
  Resolves-recorded g h e (recorded g' h' l c) = ground (arith, l, e, c)
  Resolves-recorded g h e (default x g' h' l f t c r) = cc

  pub Resolves-default :
      {y s tid : ℕ} {st : State} {t : Transition}
      → get_state_by_id m s ≡ done st
      → not_none st.history_type ≡ true
      → HashTable.lookup s hist ≡ none
      → SeqList.head st.transitions ≡ done tid
      → get_transition_by_id m tid ≡ done t
      → Resolves m hist y s
      → (x : ℕ) × (contains x t.target ≡ true) × Resolves m hist y x
  Resolves-default g h e f k (plain g' h') = cc
  Resolves-default g h e f k (recorded g' h' l c) = cc
  Resolves-default {tid} {st} {t} g h e f k
        (default {st = st'} {tid = tid'} {t = t'} x g' h' l f' k' c r) =
      let one : st' ≡ st = done-injective (sym g' ∙ g) in
      let two : tid' ≡ tid =
        done-injective (sym f' ∙ ap (λ (z : State). SeqList.head z.transitions) one ∙ f) in
      let three : t' ≡ t = done-injective (sym k' ∙ ap (get_transition_by_id m) two ∙ k) in
      (x, subst (λ (z : Transition). contains x z.target ≡ true) three c, r)

  pub Stands-plain :
      {sid : ℕ} {st : State}
      → get_state_by_id m sid ≡ done st
      → not_none st.history_type ≡ false
      → IsStateId m sid
      → Stands m hist sid (sid ∷ [])
  Stands-plain {sid} {st} g n i = record {
    sound = λ e h.
        subst (λ x. Resolves m hist e x) (sym (member e h))
          (plain (subst (λ x. get_state_by_id m x ≡ done st) (member e h) g) n);
    complete = λ e h. let same = Resolves-proper g n h in ground (arith, same);
    states = λ e h. subst (IsStateId m) (member e h) i;
  }
    where
      member : (e : ℕ) → contains e (sid ∷ []) ≡ true → sid ≡ e
      member e h = ground arith

  pub Stands-recorded :
      {sid : ℕ} {st : State} {s : OrderedSet}
      → get_state_by_id m sid ≡ done st
      → not_none st.history_type ≡ true
      → HashTable.lookup sid hist ≡ some s
      → All (IsStateId m) s
      → Stands m hist sid s
  Stands-recorded {sid} {st} {s} g n l i = record {
    sound = λ e h. recorded g n l h;
    complete = λ e h. Resolves-recorded g n l h;
    states = λ e h. All-member (IsStateId m) e s i h;
  }

  pub Stands-default :
      {sid : ℕ} {st : State} {tid : ℕ} {t : Transition} {s : OrderedSet}
      → get_state_by_id m sid ≡ done st
      → not_none st.history_type ≡ true
      → HashTable.lookup sid hist ≡ none
      → SeqList.head st.transitions ≡ done tid
      → get_transition_by_id m tid ≡ done t
      → IsResolved m hist t.target s
      → Stands m hist sid s
  Stands-default {sid} {st} {tid} {t} {s} g n l f h' r = record {
    sound = λ e k. let (x, c, res) = r.sound e k in default x g n l f h' c res;
    complete = λ e h. let (x, c, res) = Resolves-default g n l f h' h in r.complete e x c res;
    states = r.states;
  }

-- The set after one target: what it stands for is added.
pub record Adds (acc s acc' : OrderedSet) : Type 0 where
  pub members : (e : ℕ) → contains e acc' ≡ (contains e acc || contains e s)
  pub distinct : IsSetOf acc → IsSetOf acc'

-- What the loop over `l` has done to `acc`.
pub record Collected (m : Fsm) (hist : HistoryTable) (acc : OrderedSet) (l : List ℕ)
    (r : OrderedSet) : Type 0 where
  pub sound :
      (e : ℕ)
      → contains e r ≡ true
      → (contains e acc ≡ true)
        ⊎ ((x : ℕ) × (contains x l ≡ true) × Resolves m hist e x × IsStateId m e)
  pub keeps : (e : ℕ) → contains e acc ≡ true → contains e r ≡ true
  pub complete : (e x : ℕ) → contains x l ≡ true → Resolves m hist e x → contains e r ≡ true
  pub distinct : IsSetOf acc → IsSetOf r

pub Collected-step :
    {m : Fsm} {hist : HistoryTable} (sid : ℕ) (acc s acc' : OrderedSet) (l : List ℕ)
    (r : OrderedSet)
    → Stands m hist sid s
    → Adds acc s acc'
    → Collected m hist acc' l r
    → Collected m hist acc (sid ∷ l) r
Collected-step {m} {hist} sid acc s acc' l r stands adds rest = record {
  sound = λ e h. elim (rest.sound e h) [
    | inr (x, c, res, i) ↦ inr (x, ground arith, res, i)
    | inl k ↦ elim (Bool-cases (contains e acc)) [
      | inl old ↦ inl old
      | inr new ↦
          let fresh : contains e s ≡ true = ground (arith, adds.members e) in
          inr (sid, ground arith, stands.sound e fresh, stands.states e fresh)
    ]
  ];
  keeps = λ e h. rest.keeps e (ground (arith, adds.members e));
  complete = λ e x h res. elim (ℕ_discrete sid x) [
    | yes p ↦ rest.keeps e (
        ground
          (arith, adds.members e, stands.complete e (subst (λ y. Resolves m hist e y) (sym p) res)))
    | no p ↦ rest.complete e x (ground arith) res
  ];
  distinct = λ h. rest.distinct (adds.distinct h);
}
