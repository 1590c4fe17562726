-- ===== src/Fsm/Entry/Enterable.antt =====
-- Machines that can be entered (src/fsm.rs): where initial and history targets lie in the tree, and
-- the rounds that the entry of a state takes.
use r_fsm.Prelude.{
  ℕ, suc, ◌+◌, ◌-◌, ◌*◌, ◌≤◌, ◌<◌, List, ◌∷◌, true, false, some, done, contains, All, length,
  if◌then◌else◌, ◌==◌, ◌≡◌, refl, sym, ap, arith, Bool-cases, inl, inr,
}
use mathlib.Core.Path.{subst}
use native.Mathlib.Nat.{mul-le-mul_right}
use r_fsm.Collections.HashTable
use r_fsm.Collections.SeqList
use r_fsm.Collections.OrderedSet.{OrderedSet}
use r_fsm.Fsm.Types.{State, Transition, Fsm, get_state_by_id, get_transition_by_id}
use r_fsm.Fsm.Tree.{not_none}
use r_fsm.Fsm.Tree.Chain.{
  Chain, Chain-state, Chain-member, Chain-det, Chain-bounds, Chain-length, state_id_bounds,
}
use r_fsm.Fsm.Tree.Order.{IsTree, IsStateId, All-member, All-of_members, Chain-line}
use r_fsm.Fsm.WellFormed.{IsWellFormed, IsHistoryOf}

-- A state below another one.
abbrev pub Below : {m : Fsm} → IsTree m → ℕ → ℕ → Type 0
Below {m} t a x = IsStateId m x × (contains a (t.ancestors x) ≡ true)

-- A state that is no history state.
abbrev pub IsProper : Fsm → ℕ → Type 0
IsProper m x = (st : State) × (get_state_by_id m x ≡ done st) × (not_none st.history_type ≡ false)

-- Children have their parent, a history state has a parent, and no history state has descendants.
-- The targets of an initial transition lie below its state, the ones of a history state's default
-- transition below its parent.
pub record IsEnterable {m : Fsm} (w : IsWellFormed m) : Type 0 where
  pub children :
      (s : ℕ) (st : State)
      → get_state_by_id m s ≡ done st
      → (c : ℕ) → contains c st.states ≡ true
      → (ct : State) × (get_state_by_id m c ≡ done ct) × (ct.parent ≡ s)
  pub initial :
      (s : ℕ) (st : State)
      → get_state_by_id m s ≡ done st
      → (st.initial == 0) ≡ false
      → (t : Transition) × (get_transition_by_id m st.initial ≡ done t)
        × All (Below w.tree s) t.target
  pub inner_history :
      (s : ℕ) (st : State)
      → get_state_by_id m s ≡ done st
      → not_none st.history_type ≡ true
      → IsStateId m st.parent
  pub default :
      (s : ℕ) (st : State) (tid : ℕ) (t : Transition)
      → get_state_by_id m s ≡ done st
      → not_none st.history_type ≡ true
      → SeqList.head st.transitions ≡ done tid
      → get_transition_by_id m tid ≡ done t
      → All (Below w.tree st.parent) t.target
  pub above : (x a : ℕ) → IsStateId m x → contains a (w.tree.ancestors x) ≡ true → IsProper m a

-- What is recorded for a history state are states below its parent, and no history states.
pub record Recorded {m : Fsm} (w : IsWellFormed m) (h : ℕ) (l : OrderedSet) : Type 0 where
  pub state : State
  pub found : get_state_by_id m h ≡ done state
  pub history : not_none state.history_type ≡ true
  pub below : All (Below w.tree state.parent) l
  pub proper : All (IsProper m) l

abbrev pub IsRecorded : {m : Fsm} → IsWellFormed m → List (ℕ × OrderedSet) → Type 0
IsRecorded w hist = (h : ℕ) (l : OrderedSet) → HashTable.lookup h hist ≡ some l → Recorded w h l

pub IsRecorded-IsHistoryOf :
    {m : Fsm} (w : IsWellFormed m) (hist : List (ℕ × OrderedSet))
    → IsRecorded w hist
    → IsHistoryOf m hist
IsRecorded-IsHistoryOf {m} w hist k = record {
  stored = λ h l e.
      let r = k h l e in
      All-of_members (IsStateId m) l
        λ x c. (All-member (Below w.tree r.state.parent) x l r.below c).0;
}

module _ {m : Fsm} (w : IsWellFormed m) where
  abbrev pub depth : ℕ → ℕ
  depth s = length (w.tree.ancestors s)

  Chain-head : {p : ℕ} {l : List ℕ} (a : ℕ) → Chain m p l → contains a l ≡ true → IsStateId m p
  Chain-head a Chain.top h = cc
  Chain-head {p} a (Chain.up g c) h = state_id_bounds m p g

  pub depth-Below : (a x : ℕ) → Below w.tree a x → depth a < depth x
  depth-Below a x (i, h) =
      let (st, e, above) = Chain-state (w.tree.line x i) refl in
      let (rest, c, shorter, inside) = Chain-member a above h in
      let same = Chain-det c (w.tree.line a (Chain-bounds a above h)) in
      let same_length : suc (length rest) ≡ suc (depth a) = ap length same in omega arith

  pub depth-parent :
      (c s : ℕ) (ct : State)
      → get_state_by_id m c ≡ done ct
      → ct.parent ≡ s
      → IsStateId m s
      → Below w.tree s c × (depth c ≡ suc (depth s))
  depth-parent c s ct g p i =
      let j = state_id_bounds m c g in
      let chain =
        Chain.up g (subst (λ q. Chain m q (s ∷ w.tree.ancestors s)) (sym p) (w.tree.line s i)) in
      let same : s ∷ w.tree.ancestors s ≡ w.tree.ancestors c = Chain-line w.tree chain in
      ((j, subst (λ l. contains s l ≡ true) same (ground arith)), ap length (sym same))

  pub depth-bound : (s : ℕ) → IsStateId m s → depth s < length m.states
  depth-bound s i = omega (arith, Chain-length (w.tree.line s i))

  -- The rounds from a depth on: a level takes more than there are states.
  pub room : ℕ → ℕ
  room d = (length m.states - d) * (length m.states + 2)

  pub room-deeper : (d e : ℕ) → d < e → e < length m.states → room e + length m.states + 2 ≤ room d
  unfolding room
  room-deeper d e h k =
      let more : suc (length m.states - e) ≤ length m.states - d = omega arith in
      let scaled = mul-le-mul_right (length m.states + 2) more in omega (arith, scaled)

  pub room-below : (d e : ℕ) → d ≤ e → room e ≤ room d
  unfolding room
  room-below d e h = mul-le-mul_right (length m.states + 2) (omega arith)

  pub room-bound : (d : ℕ) → room d ≤ length m.states * (length m.states + 2)
  unfolding room
  room-bound d = mul-le-mul_right (length m.states + 2) (omega arith)

  -- The rounds that a state takes.
  abbrev cost : ℕ → State → ℕ
  cost s st =
      if not_none st.history_type
      then room (depth st.parent) + w.rank s
      else room (depth s) + suc (length m.states)

  pub record Ready (fuel s : ℕ) : Type 0 where
    pub state : State
    pub found : get_state_by_id m s ≡ done state
    pub enough : cost s state < fuel

  -- A state below `a` is ready within the room of `a`.
  pub Below-Ready :
      (fuel a x : ℕ) → Below w.tree a x → room (depth a) + w.rank x < fuel → Ready fuel x
  Below-Ready fuel a x b h =
      let (st, g, above) = Chain-state (w.tree.line x b.0) refl in
      elim (Bool-cases (not_none st.history_type)) [
        | inl history ↦
            let p = Chain-head a above b.1 in
            let lower = depth-Below a x b in
            let up = (depth-parent x st.parent st g refl p).1 in
            let wide = room-below (depth a) (depth st.parent) (omega arith) in
            record { state = st; found = g; enough = rw history (omega (arith, wide)) }
        | inr plain ↦
            let deeper = room-deeper (depth a) (depth x) (depth-Below a x b) (depth-bound x b.0) in
            record { state = st; found = g; enough = rw plain (omega (arith, deeper)) }
      ]

  pub Proper-Ready :
      (fuel a x : ℕ) → Below w.tree a x → IsProper m x → room (depth a) ≤ fuel → Ready fuel x
  Proper-Ready fuel a x b (st, g, plain) h =
      let deeper = room-deeper (depth a) (depth x) (depth-Below a x b) (depth-bound x b.0) in
      record { state = st; found = g; enough = rw plain (omega (arith, deeper)) }

  -- With the room of depth 0 every state is ready.
  pub always-Ready :
      (fuel x : ℕ)
      → IsStateId m x
      → length m.states * (length m.states + 2) + length m.states + 2 ≤ fuel
      → Ready fuel x
  always-Ready fuel x i h =
      let (st, g, above) = Chain-state (w.tree.line x i) refl in
      elim (Bool-cases (not_none st.history_type)) [
        | inl history ↦
            let most = room-bound (depth st.parent) in
            record {
              state = st;
              found = g;
              enough = rw history (omega (arith, most, h, w.rank_lt x i));
            }
        | inr plain ↦
            let most = room-bound (depth x) in
            record { state = st; found = g; enough = rw plain (omega (arith, most, h)) }
      ]
