-- ===== src/Fsm/Tree/Walks.antt =====
-- What the walks `isDescendant` and `getProperAncestors` (src/fsm.rs) compute: they return, with
-- the rounds that are given, and their result is read off the chain of ancestors.
use r_fsm.Prelude.{
  ℕ, zero, suc, ◌<◌, List, [], ◌∷◌, ◌++◌, true, false, done, if◌then◌else◌, ◌==◌, contains, until,
  is_distinct, not-contains-of_distinct, length, ◌≡◌, refl, sym, ap, arith, Bool-cases, inl, inr,
}
use mathlib.Core.List.{append-nil, append_assoc}
use r_fsm.Collections.OrderedSet
use r_fsm.Fsm.Types.{Fsm}
use r_fsm.Fsm.Tree.{climb, collect, rounds, is_descendant, get_proper_ancestors}
use r_fsm.Fsm.Tree.Chain.{
  Chain, state_id_bounds, Chain-state, Chain-irreflexive, Chain-distinct, Chain-length,
  Chain-bounds,
}

add_new :
    (acc : List ℕ) (s : ℕ) (l : List ℕ)
    → is_distinct (acc ++ s ∷ l) ≡ true
    → OrderedSet.add acc s ≡ acc ++ s ∷ []
unfolding OrderedSet.add
add_new acc s l d = rw (not-contains-of_distinct acc s l d)

module _ {m : Fsm} where
  climb_lem :
      {c : ℕ} {l : List ℕ} (fuel s2 : ℕ)
      → Chain m c l
      → length l < fuel
      → climb m fuel s2 c ≡ done (if contains s2 l then s2 else 0)
  unfolding climb
  climb_lem zero s2 c h = absurd (omega arith)
  climb_lem (suc fuel) s2 Chain.top h = refl
  climb_lem {c = s} (suc fuel) s2 (Chain.up {l} e c) h =
      rw e (ground (arith, state_id_bounds m s e, climb_lem fuel s2 c))

  pub zero-not_contained : {s : ℕ} {l : List ℕ} → Chain m s l → contains 0 l ≡ false
  zero-not_contained {l} c = elim (Bool-cases (contains 0 l)) [
    | inl h ↦ absurd (omega (arith, Chain-bounds 0 c h))
    | inr h ↦ h
  ]

  pub is_descendant_lem :
      {s1 : ℕ} {l : List ℕ} (s2 : ℕ)
      → Chain m s1 (s1 ∷ l)
      → is_descendant m s1 s2 ≡ done (contains s2 l)
  unfolding is_descendant rounds
  is_descendant_lem {s1} {l} s2 c =
      let (st, e, above) = Chain-state c refl in
      let none_zero = zero-not_contained above in
      rw e (
        ground (
          arith,
          state_id_bounds m s1 e,
          none_zero,
          Chain-irreflexive c,
          climb_lem (rounds m) s2 above,
          Chain-length above,
        ))

  collect_lem :
      {c : ℕ} {l : List ℕ} (fuel s2 : ℕ) (acc : List ℕ)
      → Chain m c l
      → length l < fuel
      → is_distinct (acc ++ l) ≡ true
      → collect m fuel s2 c acc ≡ done (acc ++ until s2 l)
  unfolding collect
  collect_lem zero s2 acc c h d = absurd (omega arith)
  collect_lem (suc fuel) s2 acc Chain.top h d = ap done (sym (append-nil acc))
  collect_lem {c = s} (suc fuel) s2 acc (Chain.up {l} e c) h d = elim (Bool-cases (s == s2)) [
    | inl hit ↦ rw hit (ground (arith, append-nil acc))
    | inr miss ↦
        let pushed = add_new acc s l d in
        rw (miss, e, pushed)
          (ground (
            arith,
            state_id_bounds m s e,
            append_assoc acc (s ∷ []) (until s2 l),
            collect_lem fuel s2 (acc ++ s ∷ []) c (omega arith)
                (rw (append_assoc acc (s ∷ []) l) d),
          ))
  ]

  pub get_proper_ancestors_lem :
      {s1 : ℕ} {l : List ℕ} (s2 : ℕ)
      → Chain m s1 (s1 ∷ l)
      → is_descendant m s2 s1 ≡ done false
      → get_proper_ancestors m s1 s2 ≡ done (until s2 l)
  unfolding get_proper_ancestors rounds
  get_proper_ancestors_lem s2 c h =
      let (st, e, above) = Chain-state c refl in
      rw (h, e)
        (collect_lem (rounds m) s2 [] above (omega (arith, Chain-length above))
          (Chain-distinct above))

pub zero_below : (m : Fsm) (s : ℕ) → is_descendant m 0 s ≡ done false
unfolding is_descendant
zero_below m s = refl
