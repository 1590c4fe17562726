-- ===== src/Collections/SeqList/Filtering.antt =====
-- `List::filter_by` of src/fsm.rs with a test that decides a property of the elements' ids.
use r_fsm.Prelude.{
  ℕ, List, [], ◌∷◌, true, false, ◌||◌, done, contains, All, ◌==◌, ◌≡◌, refl, sym, arith, Bool-cases,
  inl, inr, ◌⊎◌, ◌↔◌,
}
use mathlib.Core.Path.{subst}
use r_fsm.Prelude.{Run, Bool, ◌∙◌}
use r_fsm.Collections.SeqList
use r_fsm.Collections.SeqList.Deciding.{Decides, true-not_false}

module _ {A : Type 0} (key : A → ℕ) where
  abbrev pub keys : List A → List ℕ
  keys [] = []
  keys (a ∷ l) = key a ∷ keys l

  keys-push :
      (x : ℕ) (t : List A) (a : A)
      → contains x (keys (SeqList.push t a)) ≡ (contains x (keys t) || key a == x)
  unfolding SeqList.push
  keys-push x [] a = ground arith
  keys-push x (b ∷ t) a = ground (arith, keys-push x t a)

  module _ (f : A → Run Bool) (P : ℕ → Type 0) where
    -- The elements kept so far, and those to come that pass.
    abbrev Passing : List A → List A → ℕ → Type 0
    Passing t l x = (contains x (keys t) ≡ true) ⊎ ((contains x (keys l) ≡ true) × P x)

    drop_one :
        (t l : List A) (a : A) (x : ℕ)
        → (P (key a) → false ≡ true)
        → Passing t (a ∷ l) x
        → Passing t l x
    drop_one t l a x fails (inl h) = inl h
    drop_one t l a x fails (inr (h, p)) = elim (Bool-cases (key a == x)) [
      | inl here ↦ absurd (true-not_false (sym (fails (subst P (sym (ground (arith, here))) p))))
      | inr other ↦ inr (ground (arith, h, other), p)
    ]

    keep_one : (t l : List A) (a : A) (x : ℕ) → Passing t (a ∷ l) x → Passing (SeqList.push t a) l x
    keep_one t l a x (inl h) = inl (ground (arith, keys-push x t a, h))
    keep_one t l a x (inr (h, p)) = elim (Bool-cases (key a == x)) [
      | inl here ↦ inl (ground (arith, keys-push x t a, here))
      | inr other ↦ inr (ground (arith, h, other), p)
    ]

    kept_one :
        (t l : List A) (a : A) (x : ℕ)
        → P (key a)
        → Passing (SeqList.push t a) l x
        → Passing t (a ∷ l) x
    kept_one t l a x q (inl h) = elim (Bool-cases (key a == x)) [
      | inl here ↦
          let same : key a ≡ x = ground (arith, here) in inr (ground (arith, here), subst P same q)
      | inr other ↦ inl (ground (arith, keys-push x t a, h, other))
    ]
    kept_one t l a x q (inr (h, p)) = inr (ground (arith, h), p)

    filter_by_loop-Decides :
        (t l : List A)
        → All (λ a. Decides (f a) (P (key a))) l
        → (r : List A) × (SeqList.filter_by_loop f t l ≡ done r)
          × ((x : ℕ) → (contains x (keys r) ≡ true) ↔ Passing t l x)
    unfolding SeqList.filter_by_loop
    filter_by_loop-Decides t [] h =
        (t, refl, λ x. (λ k. inl k, λ k. elim k [ inl a ↦ a | inr b ↦ cc b.0 ]))
    filter_by_loop-Decides t (a ∷ l) (d, h) = elim (Bool-cases d.answer) [
      | inl kept ↦
          let (r, run, means) = filter_by_loop-Decides (SeqList.push t a) l h in
          (
            r,
            rw (d.returns, kept) run,
            λ x. (
              λ k. kept_one t l a x (d.means.0 kept) ((means x).0 k),
              λ k. (means x).1 (keep_one t l a x k),
            ),
          )
      | inr dropped ↦
          let (r, run, means) = filter_by_loop-Decides t l h in
          (
            r,
            rw (d.returns, dropped) run,
            λ x. (
              λ k. elim ((means x).0 k) [
                | inl old ↦ inl old
                | inr new ↦ inr (ground (arith, new.0), new.1)
              ],
              λ k. (means x).1 (drop_one t l a x (λ p. sym dropped ∙ d.means.1 p) k),
            ),
          )
    ]

    -- The filter returns, with the elements that have the property.
    pub filter_by-Decides :
        (l : List A)
        → All (λ a. Decides (f a) (P (key a))) l
        → (r : List A) × (SeqList.filter_by f l ≡ done r)
          × ((x : ℕ) → (contains x (keys r) ≡ true) ↔ ((contains x (keys l) ≡ true) × P x))
    unfolding SeqList.filter_by
    filter_by-Decides l h =
        let (r, run, means) = filter_by_loop-Decides [] l h in
        (
          r,
          run,
          λ x. (λ k. elim ((means x).0 k) [ inl a ↦ cc a | inr b ↦ b ], λ k. (means x).1 (inr k)),
        )

pub keys-id : (l : List ℕ) → keys (λ x. x) l ≡ l
keys-id [] = refl
keys-id (x ∷ l) = rw (keys-id l) refl
