-- ===== src/Fsm/Tree/Order.antt =====
-- The order of ancestry in a well-formed machine (src/fsm.rs), as the lines of ancestors have it.
use r_fsm.Prelude.{
  ℕ, ◌≤◌, ◌<◌, List, [], ◌∷◌, true, false, not, ◌&&◌, ◌||◌, done, contains, until,
  until-not_contains, length, drop, All, ◌≡◌, refl, ap, arith, Bool-cases, inl, inr, ℕ_discrete,
  ◌⊎◌,
}
use mathlib.Core.Path.{subst}
use r_fsm.Fsm.Types.{Fsm}
use r_fsm.Fsm.Tree.{is_descendant, get_proper_ancestors}
use r_fsm.Fsm.Tree.Chain.{
  Chain, Chain-state, Chain-irreflexive, Chain-member, Chain-det, Chain-bounds, state_id_bounds,
}
use r_fsm.Fsm.Tree.Walks.{is_descendant_lem, get_proper_ancestors_lem}

abbrev pub IsStateId : Fsm → ℕ → Type 0
IsStateId m s = (0 < s) × (s ≤ length m.states)

pub All-member : (P : ℕ → Type 0) (e : ℕ) (l : List ℕ) → All P l → contains e l ≡ true → P e
All-member P e [] i h = cc
All-member P e (x ∷ l) (i, j) h = elim (ℕ_discrete x e) [
  | yes p ↦ subst P p i
  | no p ↦ All-member P e l j (ground arith)
]

pub All-of_members : (P : ℕ → Type 0) (l : List ℕ) → ((e : ℕ) → contains e l ≡ true → P e) → All P l
All-of_members P [] f = tt
All-of_members P (x ∷ l) f = (f x (ground arith), All-of_members P l (λ e h. f e (ground arith)))

pub All-weaken : (P Q : ℕ → Type 0) (l : List ℕ) → ((x : ℕ) → P x → Q x) → All P l → All Q l
All-weaken P Q [] f i = tt
All-weaken P Q (x ∷ l) f (i, j) = (f x i, All-weaken P Q l f j)

-- Every state has a finite line of ancestors: no `parent` is missing, and there is no cycle.
pub record IsTree (m : Fsm) : Type 0 where
  pub ancestors : ℕ → List ℕ
  pub line : (s : ℕ) → IsStateId m s → Chain m s (s ∷ ancestors s)

module _ {m : Fsm} (t : IsTree m) where
  -- The ancestor of an ancestor is an ancestor.
  pub ancestors_trans :
      (s a b : ℕ)
      → IsStateId m s
      → contains a (t.ancestors s) ≡ true
      → contains b (t.ancestors a) ≡ true
      → contains b (t.ancestors s) ≡ true
  ancestors_trans s a b i h k =
      let (st, e, above) = Chain-state (t.line s i) refl in
      let (rest, c, shorter, inside) = Chain-member a above h in
      let same = Chain-det c (t.line a (Chain-bounds a above h)) in inside b (ground (arith, same))

  pub ancestor-IsStateId :
      (s a : ℕ) → IsStateId m s → contains a (t.ancestors s) ≡ true → IsStateId m a
  ancestor-IsStateId s a i h = Chain-bounds a (Chain-state (t.line s i) refl).2 h

  pub is_descendant-ancestors :
      (s a : ℕ) → IsStateId m s → is_descendant m s a ≡ done (contains a (t.ancestors s))
  is_descendant-ancestors s a i = is_descendant_lem a (t.line s i)

  -- A chain is a state's line.
  pub Chain-line : {s : ℕ} {l : List ℕ} → Chain m s (s ∷ l) → l ≡ t.ancestors s
  Chain-line {s} c =
      let (st, e, above) = Chain-state c refl in
      ap (λ (r : List ℕ). drop 1 r) (Chain-det c (t.line s (state_id_bounds m s e)))

  pub ancestors-irreflexive : (s : ℕ) → IsStateId m s → contains s (t.ancestors s) ≡ false
  ancestors-irreflexive s i = Chain-irreflexive (t.line s i)

  Chain-comparable :
      {c : ℕ} {l : List ℕ} (a b : ℕ)
      → Chain m c l
      → contains a l ≡ true
      → contains b l ≡ true
      → (a ≡ b) ⊎ (contains b (t.ancestors a) ≡ true) ⊎ (contains a (t.ancestors b) ≡ true)
  Chain-comparable a b Chain.top h k = cc
  Chain-comparable a b (Chain.up {s = c} {l} e above) h k =
      let here = Chain-line (Chain.up e above) in
      elim (ℕ_discrete c a) [
        | yes p ↦ ground (arith, here, p)
        | no p ↦ elim (ℕ_discrete c b) [
          | yes q ↦ ground (arith, here, q)
          | no q ↦ Chain-comparable a b above (ground arith) (ground arith)
        ]
      ]

  -- Two ancestors of one state are the same, or one is above the other.
  pub ancestors-comparable :
      (s a b : ℕ)
      → IsStateId m s
      → contains a (t.ancestors s) ≡ true
      → contains b (t.ancestors s) ≡ true
      → (a ≡ b) ⊎ (contains b (t.ancestors a) ≡ true) ⊎ (contains a (t.ancestors b) ≡ true)
  ancestors-comparable s a b i h k = Chain-comparable a b (Chain-state (t.line s i) refl).2 h k

  pub ancestors-asym :
      (a b : ℕ)
      → IsStateId m a
      → contains b (t.ancestors a) ≡ true
      → contains a (t.ancestors b) ≡ false
  ancestors-asym a b i h = elim (Bool-cases (contains a (t.ancestors b))) [
    | inl k ↦ ground (arith, ancestors_trans a b a i h k, ancestors-irreflexive a i)
    | inr k ↦ k
  ]

  Chain-until :
      {c : ℕ} {l : List ℕ} (x e : ℕ)
      → Chain m c l
      → contains x l ≡ true
      → contains e (until x l) ≡ (contains e l && contains x (t.ancestors e))
  Chain-until x e Chain.top h = cc
  Chain-until x e (Chain.up {s = c} {l} g above) h =
      let here = Chain-line (Chain.up g above) in
      let ok = state_id_bounds m c g in
      elim (ℕ_discrete c x) [
        | yes p ↦ ground (arith, here, p, ancestors-asym c e ok, ancestors-irreflexive c ok)
        | no p ↦ elim (ℕ_discrete c e) [
          | yes q ↦ ground (arith, here, q, ap t.ancestors q)
          | no q ↦ ground (arith, Chain-until x e above)
        ]
      ]

  -- If `a` is not below `s`, `getProperAncestors(s, a)` returns, and lists the ancestors of `s` that
  -- are below `a`, or all ancestors of `s` if `a` is none of them.
  pub get_proper_ancestors-member :
      (s a : ℕ)
      → IsStateId m s
      → is_descendant m a s ≡ done false
      → (r : List ℕ) × (get_proper_ancestors m s a ≡ done r)
        × ((e : ℕ)
            → contains e r ≡ (
                contains e (t.ancestors s)
                && (not (contains a (t.ancestors s)) || contains a (t.ancestors e))))
  get_proper_ancestors-member s a i h =
      let l = t.ancestors s in
      (
        until a l,
        get_proper_ancestors_lem a (t.line s i) h,
        λ e. elim (Bool-cases (contains a l)) [
          | inl there ↦ rw there (Chain-until a e (Chain-state (t.line s i) refl).2 there)
          | inr none ↦ rw (none, until-not_contains a l none) (ground arith)
        ],
      )
