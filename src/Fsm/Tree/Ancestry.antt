-- ===== src/Fsm/Tree/Ancestry.antt =====
-- `isDescendant` and `getProperAncestors` of src/fsm.rs against the `parent` fields of the states.
use r_fsm.Prelude.{
  ℕ, ◌<◌, List, [], ◌∷◌, Bool, true, false, done, contains, drop, ◌≡◌, refl, sym, ap, ◌∙◌, arith,
  Bool-cases, inl, inr, ℕ_discrete, ◌⊎◌, ◌↔◌, ◌≢◌,
}
use r_fsm.Fsm.Types.{State, Fsm, get_state_by_id}
use r_fsm.Fsm.Tree.{is_descendant, get_proper_ancestors}
use r_fsm.Fsm.Tree.Chain.{
  Chain, Chain-state, Chain-parent, Chain-bounds, Chain-irreflexive, state_id_bounds,
}
use r_fsm.Fsm.Tree.Walks.{zero_below}
use r_fsm.Fsm.Tree.Order.{
  IsStateId, IsTree, is_descendant-ancestors, ancestor-IsStateId, get_proper_ancestors-member,
}

-- `Ancestor m a s`: `a` is the parent of `s`, or an ancestor of its parent. 0 is no state.
pub data Ancestor (m : Fsm) (a : ℕ) : ℕ → Type 0 where
  parent :
      {s : ℕ} {st : State} → get_state_by_id m s ≡ done st → st.parent ≡ a → 0 < a → Ancestor m a s
  higher :
      {s : ℕ} {st : State} → get_state_by_id m s ≡ done st → Ancestor m a st.parent → Ancestor m a s

contains-drop : (a : ℕ) (l : List ℕ) → contains a (drop 1 l) ≡ true → contains a l ≡ true
contains-drop a [] h = cc
contains-drop a (x ∷ l) h = ground (arith, h)

narrow : (c a : ℕ) (l : List ℕ) → c ≢ a → contains a (c ∷ l) ≡ true → contains a l ≡ true
narrow c a l p h = ground (arith, h, p)

module _ {m : Fsm} where
  Chain-Ancestor :
      {c : ℕ} {l : List ℕ} (a : ℕ) → Chain m c l → contains a l ≡ true → (c ≡ a) ⊎ Ancestor m a c
  Chain-Ancestor a Chain.top h = cc
  Chain-Ancestor a (Chain.up {s = c} e above) h = elim (ℕ_discrete c a) [
    | yes p ↦ inl p
    | no p ↦
        let there = narrow c a _ p h in
        elim (Chain-Ancestor a above there) [
          | inl q ↦ inr (Ancestor.parent e q (Chain-bounds a above there).0)
          | inr k ↦ inr (Ancestor.higher e k)
        ]
  ]

  Chain-start : {c : ℕ} {l : List ℕ} → Chain m c l → 0 < c → contains c l ≡ true
  Chain-start Chain.top h = absurd (omega (arith, h))
  Chain-start (Chain.up e above) h = ground arith

  Ancestor-Chain :
      {a s : ℕ} {l : List ℕ} → Ancestor m a s → Chain m s l → contains a (drop 1 l) ≡ true
  Ancestor-Chain {a} (Ancestor.parent e p pos) c =
      let (k, same, above) = Chain-parent c e in
      ground (arith, same, p, Chain-start above (omega (arith, p, pos)))
  Ancestor-Chain {a} (Ancestor.higher e up) c =
      let (k, same, above) = Chain-parent c e in
      ground (arith, same, contains-drop a k (Ancestor-Chain up above))

  zero-Ancestor : {s : ℕ} → ¬ Ancestor m 0 s
  zero-Ancestor (Ancestor.parent e p pos) = omega (arith, pos)
  zero-Ancestor (Ancestor.higher e k) = zero-Ancestor k

  Ancestor-state : {a s : ℕ} → Ancestor m a s → IsStateId m s
  Ancestor-state {s} (Ancestor.parent e p pos) = state_id_bounds m s e
  Ancestor-state {s} (Ancestor.higher e k) = state_id_bounds m s e

module _ {m : Fsm} (t : IsTree m) where
  contains-Ancestor :
      (a s : ℕ) → IsStateId m s → (contains a (t.ancestors s) ≡ true) ↔ Ancestor m a s
  contains-Ancestor a s i =
      let (st, e, above) = Chain-state (t.line s i) refl in
      (
        λ h. elim (Chain-Ancestor a above h) [
          | inl p ↦ Ancestor.parent e p (Chain-bounds a above h).0
          | inr k ↦ Ancestor.higher e k
        ],
        λ k. Ancestor-Chain k (t.line s i),
      )

  -- `isDescendant` returns for every state and every id, and it is true exactly if the id is the
  -- parent of the state, or the parent of its parent, and so on; no state is its own descendant.
  pub is_descendant-Ancestor :
      (s a : ℕ)
      → IsStateId m s
      → (b : Bool) × (is_descendant m s a ≡ done b)
        × ((b ≡ true) ↔ Ancestor m a s)
        × (is_descendant m s s ≡ done false)
  is_descendant-Ancestor s a i = (
    contains a (t.ancestors s),
    is_descendant-ancestors t s a i,
    contains-Ancestor a s i,
    is_descendant-ancestors t s s i ∙ ap done (Chain-irreflexive (t.line s i)),
  )

  -- Whether `a`, a state or 0, is below `s`.
  Below : ℕ → ℕ → Type 0
  Below s a =
      ((is_descendant m a s ≡ done true) × Ancestor m s a)
      ⊎ ((is_descendant m a s ≡ done false) × ¬ Ancestor m s a)

  Below-cases : (s a : ℕ) → (a ≡ 0) ⊎ IsStateId m a → Below s a
  unfolding Below
  Below-cases s a (inl z) =
      inr
        (ap (λ x. is_descendant m x s) z ∙ zero_below m s, λ k. omega (arith, z, Ancestor-state k))
  Below-cases s a (inr i) = elim (Bool-cases (contains s (t.ancestors a))) [
    | inl h ↦ inl (is_descendant-ancestors t a s i ∙ ap done h, (contains-Ancestor s a i).0 h)
    | inr h ↦ inr (
      is_descendant-ancestors t a s i ∙ ap done h,
      λ k. cc (sym h ∙ (contains-Ancestor s a i).1 k),
    )
  ]

  -- For a state `s` and `a`, which is a state or 0, `getProperAncestors(s, a)` returns. It lists
  -- nothing if `a` is below `s`, the ancestors of `s` that are below `a` if `a` is an ancestor of
  -- `s`, and else, also for `s` itself and for 0, all ancestors of `s`.
  pub get_proper_ancestors-Ancestor :
      (s a : ℕ)
      → IsStateId m s
      → (a ≡ 0) ⊎ IsStateId m a
      → (r : List ℕ) × (get_proper_ancestors m s a ≡ done r)
        × ((e : ℕ)
            → (contains e r ≡ true)
              ↔ (Ancestor m e s × (¬ Ancestor m s a) × (Ancestor m a s → Ancestor m a e)))
  unfolding Below get_proper_ancestors
  get_proper_ancestors-Ancestor s a i j = elim (Below-cases s a j) [
    | inl (run, below) ↦ ([], rw run refl, λ e. ((λ h. cc), λ (k, apart, up). absurd (apart below)))
    | inr (run, apart) ↦
        let (r, listed, member) = get_proper_ancestors-member t s a i run in
        (
          r,
          listed,
          λ e. (
            (λ h.
                let above : contains e (t.ancestors s) ≡ true = ground (arith, h, member e) in
                let ei = ancestor-IsStateId t s e i above in
                (
                  (contains-Ancestor e s i).0 above,
                  apart,
                  λ k.
                      (contains-Ancestor a e ei).0
                        (ground (arith, h, member e, (contains-Ancestor a s i).1 k)),
                )),
            λ (k, other, up).
                let above = (contains-Ancestor e s i).1 k in
                let ei = ancestor-IsStateId t s e i above in
                elim (Bool-cases (contains a (t.ancestors s))) [
                  | inr none ↦ ground (arith, member e, above, none)
                  | inl there ↦
                      let inner =
                        (contains-Ancestor a e ei).1 (up ((contains-Ancestor a s i).0 there)) in
                      ground (arith, member e, above, there, inner)
                ],
          ),
        )
  ]
