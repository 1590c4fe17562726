-- ===== src/Fsm/Tree/Chain.antt =====
-- The specification of the tree of states: a state with its ancestors, by the `parent` fields.
use r_fsm.Prelude.{
  ℕ, zero, suc, ◌-◌, ◌≤◌, ◌<◌, List, [], ◌∷◌, true, false, done, contains, is_distinct, length,
  drop, length-le-bound, ◌≡◌, refl, sym, ap, ◌∙◌, arith, get_elem?, unwrap, inl, inr, Option, none,
  some, lt-length-of_get_elem?, ℕ_discrete, Bool-cases,
}
use mathlib.Core.Path.{subst}
use r_fsm.Fsm.Types.{State, Fsm, get_state_by_id}

-- `Chain m s l`: `l` is `s`, its parent, and so on up to a state without parent. For 0 it is empty.
pub data Chain (m : Fsm) : ℕ → List ℕ → Type 0 where
  top : Chain m 0 []
  up :
      {s : ℕ} {st : State} {l : List ℕ}
      → get_state_by_id m s ≡ done st
      → Chain m st.parent l
      → Chain m s (s ∷ l)

unwrap-eq-done : {A : Type 0} (o : Option A) {a : A} → unwrap o ≡ done a → o ≡ some a
unwrap-eq-done none h = cc
unwrap-eq-done (some b) h = cc

pub state_id_bounds :
    (m : Fsm) (s : ℕ) {st : State} → get_state_by_id m s ≡ done st → (0 < s) × (s ≤ length m.states)
unfolding get_state_by_id
state_id_bounds m zero h = cc
state_id_bounds m (suc s) {st} h =
    let at_s = unwrap-eq-done (get_elem? m.states (suc s - 1)) {a = st} (ground arith) in
    omega (arith, lt-length-of_get_elem? m.states (suc s - 1) at_s)

pub done-injective : {A : Type 0} {a b : A} → done a ≡ done b → a ≡ b
done-injective h = cc

module _ {m : Fsm} where
  pub Chain-det : {s : ℕ} {l k : List ℕ} → Chain m s l → Chain m s k → l ≡ k
  Chain-det top top = refl
  Chain-det top (up h c) = absurd (omega (arith, state_id_bounds m 0 h))
  Chain-det (up h c) top = absurd (omega (arith, state_id_bounds m 0 h))
  Chain-det (up {s} {l} h c) (up {l = k} h' c') =
      let same : _ = ap (λ (st : State). st.parent) (done-injective (sym h' ∙ h)) in
      ap (λ r. s ∷ r) (Chain-det c (subst (λ p. Chain m p k) same c'))

  -- The part of a chain from a member on is that member's chain.
  pub Chain-member :
      {s : ℕ} {l : List ℕ} (x : ℕ)
      → Chain m s l
      → contains x l ≡ true
      → (k : List ℕ) × Chain m x (x ∷ k)
        × (length k < length l)
        × ((y : ℕ) → contains y k ≡ true → contains y l ≡ true)
  Chain-member x top h = cc
  Chain-member x (up {s} {l} e c) h = elim (ℕ_discrete s x) [
    | yes p ↦ (l, subst (λ y. Chain m y (y ∷ l)) p (up e c), omega arith, λ y k. ground arith)
    | no p ↦
        let (k, d, shorter, inside) = Chain-member x c (ground arith) in
        (k, d, omega arith, λ y q. ground (arith, inside y q))
  ]

  pub Chain-bounds :
      {s : ℕ} {l : List ℕ} (x : ℕ)
      → Chain m s l
      → contains x l ≡ true
      → (0 < x) × (x ≤ length m.states)
  Chain-bounds x top h = cc
  Chain-bounds x (up {s} {l} e c) h = ground (arith, state_id_bounds m s e, Chain-bounds x c)

  -- A state's chain holds its parent's.
  pub Chain-parent :
      {s : ℕ} {r : List ℕ} {st : State}
      → Chain m s r
      → get_state_by_id m s ≡ done st
      → (l : List ℕ) × (r ≡ s ∷ l) × Chain m st.parent l
  Chain-parent top h = absurd (omega (arith, state_id_bounds m 0 h))
  Chain-parent (up {s} {l} e c) h =
      let same : _ = ap (λ (st : State). st.parent) (done-injective (sym e ∙ h)) in
      (l, refl, subst (λ p. Chain m p l) same c)

  pub Chain-state :
      {s : ℕ} {r : List ℕ} {l : List ℕ}
      → Chain m s r
      → r ≡ s ∷ l
      → (st : State) × (get_state_by_id m s ≡ done st) × Chain m st.parent l
  Chain-state top h = cc
  Chain-state (up {s} {st} {l = k} e c) h =
      (st, e, subst (λ r. Chain m st.parent r) (ap (λ (r : List ℕ). drop 1 r) h) c)

  -- No state is among its own ancestors.
  pub Chain-irreflexive : {s : ℕ} {l : List ℕ} → Chain m s (s ∷ l) → contains s l ≡ false
  Chain-irreflexive {s} {l} d = elim (Bool-cases (contains s l)) [
    | inl h ↦
        let (k, e, shorter, inside) = Chain-member s (Chain-state d refl).2 h in
        absurd (omega (arith, ap length (Chain-det e d)))
    | inr h ↦ h
  ]

  pub Chain-distinct : {s : ℕ} {l : List ℕ} → Chain m s l → is_distinct l ≡ true
  Chain-distinct top = refl
  Chain-distinct (up {s} {l} e c) = rw (Chain-irreflexive (up e c)) (Chain-distinct c)

  -- So a chain is no longer than there are states: the walks have rounds enough.
  pub Chain-length : {s : ℕ} {l : List ℕ} → Chain m s l → length l ≤ length m.states
  Chain-length {l} c =
      length-le-bound (length m.states) l (Chain-distinct c) (λ x h. Chain-bounds x c h)
