-- ===== src/Fsm/Domain/Lcca.antt =====
-- `findLCCA` of src/fsm.rs finds the least common compound ancestor.
use r_fsm.Prelude.{
  ℕ, List, [], ◌∷◌, Bool, true, false, ◌&&◌, Run, done, if◌then◌else◌, contains, until-not_contains,
  All, filter, ◌≡◌, refl, sym, ap, ◌∙◌, arith, ℕ_discrete, Bool-cases, inl, inr, ◌⊎◌,
}
use mathlib.Core.Path.{subst}
use r_fsm.Collections.OrderedSet.Laws.{to_list_lem}
use r_fsm.Collections.SeqList
use r_fsm.Collections.SeqList.Laws.{all, Agrees, every_lem, filter_by_lem, Agrees-of_all}
use r_fsm.Fsm.Types.{Fsm}
use r_fsm.Fsm.Tree.{is_descendant, is_compound_state, is_compound_state_or_scxml_element}
use r_fsm.Fsm.Tree.Chain.{Chain, Chain-state, Chain-bounds, state_id_bounds, done-injective}
use r_fsm.Fsm.Tree.Walks.{zero_below, get_proper_ancestors_lem, zero-not_contained}
use r_fsm.Fsm.Tree.Order.{IsTree, IsStateId, Chain-line, is_descendant-ancestors}
use r_fsm.Fsm.Domain.{find_lcca, lcca_loop}

-- A compound state, or the root, above all the states of the list.
abbrev pub CommonCompound : Fsm → List ℕ → ℕ → Type 0
CommonCompound m l b =
    (is_compound_state_or_scxml_element m b ≡ done true)
    × All (λ s. is_descendant m s b ≡ done true) l

abbrev answer : Run Bool → Bool
answer (done b) = b
answer _ = false

-- The test of `filter_by`, as a Boolean.
abbrev compound : Fsm → ℕ → Bool
compound m s = answer (is_compound_state_or_scxml_element m s)

module _ {m : Fsm} (t : IsTree m) where
  compound_lem :
      (s : ℕ) → IsStateId m s → is_compound_state_or_scxml_element m s ≡ done (compound m s)
  unfolding is_compound_state_or_scxml_element is_compound_state
  compound_lem s i = let (st, e, above) = Chain-state (t.line s i) refl in rw e (ground arith)

  -- Every member of a list is below `b`, by the lists of ancestors.
  abbrev pub all_below : ℕ → List ℕ → Bool
  all_below b l = all (λ s. contains b (t.ancestors s)) l

  pub every_below :
      (b : ℕ) (l : List ℕ)
      → All (IsStateId m) l
      → SeqList.every (λ s. is_descendant m s b) l ≡ done (all_below b l)
  every_below b l i =
      every_lem (λ s. is_descendant m s b) (λ s. contains b (t.ancestors s)) l (go l i)
    where
      go :
          (l : List ℕ)
          → All (IsStateId m) l
          → Agrees (λ s. is_descendant m s b) (λ s. contains b (t.ancestors s)) l
      go [] i = tt
      go (s ∷ l) (i, j) = (is_descendant-ancestors t s b i, go l j)

  pub all_below-All :
      (b : ℕ) (l : List ℕ)
      → All (IsStateId m) l
      → all_below b l ≡ true
      → All (λ s. is_descendant m s b ≡ done true) l
  all_below-All b [] i h = tt
  all_below-All b (s ∷ l) (i, j) h =
      (is_descendant-ancestors t s b i ∙ ground arith, all_below-All b l j (ground arith))

  pub All-all_below :
      (b : ℕ) (l : List ℕ)
      → All (IsStateId m) l
      → All (λ s. is_descendant m s b ≡ done true) l
      → all_below b l ≡ true
  All-all_below b [] i h = refl
  All-all_below b (s ∷ l) (i, j) (h, k) =
      ground (arith, is_descendant-ancestors t s b i, All-all_below b l j k)

  -- What is proved of the value that `findLCCA` returns.
  abbrev pub IsLeast : List ℕ → ℕ → Type 0
  IsLeast l a =
      (a ≡ 0) × ((b : ℕ) → ¬ CommonCompound m l b)
      ⊎ CommonCompound m l a
        × ((b : ℕ) → CommonCompound m l b → (b ≡ a) ⊎ (is_descendant m a b ≡ done true))

  module _ (first : ℕ) (others : List ℕ) (i : IsStateId m first)
      (j : All (IsStateId m) others) where
    -- The loop's result, when the compound states of the chain `l` are left to look at.
    abbrev Found : List ℕ → ℕ → Type 0
    Found l a =
        (a ≡ 0) × ((b : ℕ) → contains b l ≡ true → ¬ CommonCompound m (first ∷ others) b)
        ⊎ CommonCompound m (first ∷ others) a
          × ((b : ℕ)
              → contains b l ≡ true
              → CommonCompound m (first ∷ others) b
              → (b ≡ a) ⊎ (is_descendant m a b ≡ done true))

    lcca_step :
        (c : ℕ) (l : List ℕ)
        → lcca_loop m (first ∷ others) (filter (compound m) (c ∷ l)) ≡ (
            if compound m c && all_below c others
            then done c
            else lcca_loop m (first ∷ others) (filter (compound m) l))
    unfolding lcca_loop SeqList.tail
    lcca_step c l = elim (Bool-cases (compound m c)) [
      | inl p ↦ rw (p, every_below c others j) (ground arith)
      | inr p ↦ rw p
    ]

    CommonCompound-all_below :
        (c : ℕ) → CommonCompound m (first ∷ others) c → (compound m c && all_below c others) ≡ true
    CommonCompound-all_below c (k, below) = ground (arith, All-all_below c others j below.1)

    missed :
        (c b : ℕ)
        → c ≡ b
        → (compound m c && all_below c others) ≡ false
        → ¬ CommonCompound m (first ∷ others) b
    missed c b p miss k =
        let hit =
          CommonCompound-all_below c (subst (λ x. CommonCompound m (first ∷ others) x) (sym p) k) in
        cc (sym hit ∙ miss)

    -- A state that does not pass changes nothing in what is found above it.
    Found-miss :
        (c : ℕ) (l : List ℕ) {a : ℕ}
        → (compound m c && all_below c others) ≡ false
        → Found l a
        → Found (c ∷ l) a
    Found-miss c l miss (inl (z, none)) = inl (
      z,
      λ b h k. elim (ℕ_discrete c b) [
        | yes p ↦ missed c b p miss k
        | no p ↦ none b (ground arith) k
      ],
    )
    Found-miss c l miss (inr (common, least)) = inr (
      common,
      λ b h k. elim (ℕ_discrete c b) [
        | yes p ↦ absurd (missed c b p miss k)
        | no p ↦ least b (ground arith) k
      ],
    )

    lcca_loop_lem :
        {s : ℕ} {l : List ℕ}
        → Chain m s l
        → ((b : ℕ) → contains b l ≡ true → contains b (t.ancestors first) ≡ true)
        → (a : ℕ) × (lcca_loop m (first ∷ others) (filter (compound m) l) ≡ done a) × (Found l a)
    lcca_loop_lem Chain.top above = (0, unfold lcca_loop in refl, inl (refl, λ b h. cc))
    lcca_loop_lem (Chain.up {s = c} {l} e ch) above =
        let here : IsStateId m c = state_id_bounds m c e in
        let step = lcca_step c l in
        elim (Bool-cases (compound m c && all_below c others)) [
          | inl hit ↦ (
            c,
            rw (step, hit) refl,
            inr (
              (
                compound_lem c here ∙ ground arith,
                (
                  is_descendant-ancestors t first c i ∙ ap done (above c (ground arith)),
                  all_below-All c others j (ground arith),
                ),
              ),
              λ b h k. elim (ℕ_discrete c b) [
                | yes p ↦ inl (sym p)
                | no p ↦
                    let line = Chain-line t (Chain.up e ch) in
                    inr (is_descendant-ancestors t c b here ∙ ground (arith, line))
              ],
            ),
          )
          | inr miss ↦
              let (a, r, found) = lcca_loop_lem ch (λ b h. above b (ground arith)) in
              (a, rw (step, miss) r, Found-miss c l miss found)
        ]

  Found-IsLeast :
      (first : ℕ) (others : List ℕ) (i : IsStateId m first) (j : All (IsStateId m) others) {a : ℕ}
      → Found first others i j (t.ancestors first) a
      → IsLeast (first ∷ others) a
  Found-IsLeast first others i j found =
      let member = λ (b : ℕ) (k : CommonCompound m (first ∷ others) b).
        done-injective (sym (is_descendant-ancestors t first b i) ∙ k.1.0) in
      elim found [
        | inl (z, none) ↦ inl (z, λ b k. none b (member b k) k)
        | inr (common, least) ↦ inr (common, λ b k. least b (member b k) k)
      ]

  -- `findLCCA` returns: with 0 if no compound state is above all states of the list, and with the
  -- least such state otherwise.
  pub find_lcca-IsLeast :
      (first : ℕ) (others : List ℕ)
      → IsStateId m first
      → All (IsStateId m) others
      → (a : ℕ) × (find_lcca m (first ∷ others) ≡ done a) × (IsLeast (first ∷ others) a)
  unfolding find_lcca SeqList.head
  find_lcca-IsLeast first others i j =
      let (st, e, above) = Chain-state (t.line first i) refl in
      let l = t.ancestors first in
      let (a, r, found) = lcca_loop_lem first others i j above (λ b h. h) in
      let walk =
        get_proper_ancestors_lem 0 (t.line first i) (zero_below m first)
        ∙ ap done (until-not_contains 0 l (zero-not_contained above)) in
      let kept =
        filter_by_lem _ (compound m) l
          (Agrees-of_all _ (compound m) l (λ b h. compound_lem b (Chain-bounds b above h))) in
      (a, rw (walk, to_list_lem l, kept) r, Found-IsLeast first others i j found)
