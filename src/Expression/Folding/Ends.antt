-- ===== src/Expression/Folding/Ends.antt =====
-- `stack_to_expression` of src/expression_engine/parser.rs ends on every stack.
use r_fsm.Prelude.{
  Bool, true, false, if◌then◌else◌, leb, unwrap, ◌⊎◌, ℕ, zero, suc, ◌+◌, ◌-◌, ◌≤◌, ◌<◌, List, [],
  ◌∷◌, ◌++◌, Option, none, some, Run, done, ◌==◌, ltb, length, get_elem?, take, drop, All, ◌≡◌,
  refl, arith, Bool-cases, inl, inr, length-append,
}
use r_fsm.Expression.Characters.{Operator}
use r_fsm.Expression.Folding.{
  Expression, Item, expression, operator, identifier, dot, unexpected, Outcome, ParseError,
  priority, scan, scanned, fold_all, fold_best, fold_item, fold_operator, fold_stack_at, fold_here,
  fold_not, member, build, replaced, first_item, go_on, stack_to_expression,
}

-- The items that the parser puts on the stack.
abbrev pub IsExpected : {X : Type 0} → Item X → Type 0
IsExpected unexpected = ⊥
IsExpected _ = Unit

module _ {X : Type 0} where
  -- A shorter stack of such items, if there is a result.
  Shrinks : ℕ → Option (List (Item X)) → Type 0
  Shrinks n none = Unit
  Shrinks n (some s) = (length s < n) × All IsExpected s

  joined :
      (before : List (Item X)) (e : Expression X) (after : List (Item X))
      → All IsExpected before
      → All IsExpected after
      → All IsExpected (before ++ expression e ∷ after)
  joined [] e after i j = (tt, j)
  joined (x ∷ before) e after (a, i) j = (a, joined before e after i j)

  split-length : (n : ℕ) (l : List (Item X)) → length (take n l) + length (drop n l) ≡ length l
  split-length zero l = omega arith
  split-length (suc n) [] = omega arith
  split-length (suc n) (x ∷ l) = omega (arith, split-length n l)

  take-All : (n : ℕ) (l : List (Item X)) → All IsExpected l → All IsExpected (take n l)
  take-All zero l i = tt
  take-All (suc n) [] i = tt
  take-All (suc n) (x ∷ l) (a, i) = (a, take-All n l i)

  drop-All : (n : ℕ) (l : List (Item X)) → All IsExpected l → All IsExpected (drop n l)
  drop-All zero l i = i
  drop-All (suc n) [] i = tt
  drop-All (suc n) (x ∷ l) (a, i) = drop-All n l i

  replaced-Shrinks :
      (n : ℕ) (before : List (Item X)) (o : Option (Expression X)) (after : List (Item X))
      → All IsExpected before
      → All IsExpected after
      → length before + length after + 2 ≤ n
      → Shrinks n (replaced before o after)
  unfolding replaced Shrinks
  replaced-Shrinks n before none after i j h = tt
  replaced-Shrinks n before (some e) after i j h =
      (omega (arith, length-append before (expression e ∷ after), h), joined before e after i j)

  fold_here-Shrinks :
      (f : Expression X → Expression X → Option (Expression X)) (n : ℕ)
      (before rest : List (Item X))
      → All IsExpected before
      → All IsExpected rest
      → length before + length rest ≤ n
      → Shrinks n (fold_here f before rest)
  unfolding fold_here Shrinks
  fold_here-Shrinks f n before [] i j h = tt
  fold_here-Shrinks f n before (identifier s ∷ r) i j h = tt
  fold_here-Shrinks f n before (dot ∷ r) i j h = tt
  fold_here-Shrinks f n before (operator o ∷ r) i j h = tt
  fold_here-Shrinks f n before (unexpected ∷ r) i j h = tt
  fold_here-Shrinks f n before (expression a ∷ []) i j h = tt
  fold_here-Shrinks f n before (expression a ∷ x ∷ []) i j h = tt
  fold_here-Shrinks f n before (expression a ∷ x ∷ identifier s ∷ r) i j h = tt
  fold_here-Shrinks f n before (expression a ∷ x ∷ dot ∷ r) i j h = tt
  fold_here-Shrinks f n before (expression a ∷ x ∷ operator o ∷ r) i j h = tt
  fold_here-Shrinks f n before (expression a ∷ x ∷ unexpected ∷ r) i j h = tt
  fold_here-Shrinks f n before (expression a ∷ x ∷ expression b ∷ r) i (ja, (jx, (jb, j))) h =
      replaced-Shrinks n before (f a b) r i j (omega (arith, h))

  fold_not-Shrinks :
      (n : ℕ) (before rest : List (Item X))
      → All IsExpected before
      → All IsExpected rest
      → length before + length rest ≤ n
      → Shrinks n (fold_not before rest)
  unfolding fold_not Shrinks
  fold_not-Shrinks n before [] i j h = tt
  fold_not-Shrinks n before (x ∷ []) i j h = tt
  fold_not-Shrinks n before (x ∷ identifier s ∷ r) i j h = tt
  fold_not-Shrinks n before (x ∷ dot ∷ r) i j h = tt
  fold_not-Shrinks n before (x ∷ operator o ∷ r) i j h = tt
  fold_not-Shrinks n before (x ∷ unexpected ∷ r) i j h = tt
  fold_not-Shrinks n before (x ∷ expression b ∷ r) i (jx, (jb, j)) h = (
    omega (arith, length-append before (expression (Expression.negation b) ∷ r), h),
    joined before (Expression.negation b) r i j,
  )

  fold_stack_at-Shrinks :
      (f : Expression X → Expression X → Option (Expression X)) (idx : ℕ) (stack : List (Item X))
      → All IsExpected stack
      → Shrinks (length stack) (fold_stack_at f idx stack)
  unfolding fold_stack_at Shrinks
  fold_stack_at-Shrinks f idx stack i = elim (Bool-cases (idx == 0)) [
    | inl first ↦ rw first tt
    | inr later ↦ rw later (
        fold_here-Shrinks f (length stack) (take (idx - 1) stack) (drop (idx - 1) stack)
          (take-All (idx - 1) stack i) (drop-All (idx - 1) stack i)
          (omega (arith, split-length (idx - 1) stack)))
  ]

  fold_operator-Shrinks :
      (o : Operator) (idx : ℕ) (stack : List (Item X))
      → All IsExpected stack
      → Shrinks (length stack) (fold_operator o idx stack)
  unfolding fold_operator
  fold_operator-Shrinks Operator.not idx stack i =
      fold_not-Shrinks (length stack) (take idx stack) (drop idx stack) (take-All idx stack i)
        (drop-All idx stack i) (omega (arith, split-length idx stack))
  fold_operator-Shrinks Operator.multiply idx stack i =
      fold_stack_at-Shrinks (build Operator.multiply) idx stack i
  fold_operator-Shrinks Operator.divide idx stack i =
      fold_stack_at-Shrinks (build Operator.divide) idx stack i
  fold_operator-Shrinks Operator.plus idx stack i =
      fold_stack_at-Shrinks (build Operator.plus) idx stack i
  fold_operator-Shrinks Operator.minus idx stack i =
      fold_stack_at-Shrinks (build Operator.minus) idx stack i
  fold_operator-Shrinks Operator.less idx stack i =
      fold_stack_at-Shrinks (build Operator.less) idx stack i
  fold_operator-Shrinks Operator.less_equal idx stack i =
      fold_stack_at-Shrinks (build Operator.less_equal) idx stack i
  fold_operator-Shrinks Operator.greater idx stack i =
      fold_stack_at-Shrinks (build Operator.greater) idx stack i
  fold_operator-Shrinks Operator.greater_equal idx stack i =
      fold_stack_at-Shrinks (build Operator.greater_equal) idx stack i
  fold_operator-Shrinks Operator.assign idx stack i =
      fold_stack_at-Shrinks (build Operator.assign) idx stack i
  fold_operator-Shrinks Operator.assign_undefined idx stack i =
      fold_stack_at-Shrinks (build Operator.assign_undefined) idx stack i
  fold_operator-Shrinks Operator.equal idx stack i =
      fold_stack_at-Shrinks (build Operator.equal) idx stack i
  fold_operator-Shrinks Operator.not_equal idx stack i =
      fold_stack_at-Shrinks (build Operator.not_equal) idx stack i
  fold_operator-Shrinks Operator.and idx stack i =
      fold_stack_at-Shrinks (build Operator.and) idx stack i
  fold_operator-Shrinks Operator.or idx stack i =
      fold_stack_at-Shrinks (build Operator.or) idx stack i
  fold_operator-Shrinks Operator.modulus idx stack i =
      fold_stack_at-Shrinks (build Operator.modulus) idx stack i

  fold_item-Shrinks :
      (item : Item X) (idx : ℕ) (stack : List (Item X))
      → All IsExpected stack
      → Shrinks (length stack) (fold_item item idx stack).1
  unfolding fold_item Shrinks
  fold_item-Shrinks (operator o) idx stack i = fold_operator-Shrinks o idx stack i
  fold_item-Shrinks dot idx stack i = fold_stack_at-Shrinks member idx stack i
  fold_item-Shrinks (identifier s) idx stack i = tt
  fold_item-Shrinks unexpected idx stack i = tt
  fold_item-Shrinks (expression e) idx stack i = tt

  -- What the loop over `n` items leaves, which stand on the stack from the place `si` on: the place
  -- and the priority that were given, or a place of one of these items.
  record Scanned (n si best_idx best_idx_prio : ℕ) (run : Run (List (Item X) × ℕ × ℕ))
      : Type 0 where
    items : List (Item X)
    idx : ℕ
    prio : ℕ
    returns : run ≡ done (items, idx, prio)
    expected : All IsExpected items
    same_length : length items ≡ n
    place : ((idx ≡ best_idx) × (prio ≡ best_idx_prio)) ⊎ (idx < si + n)

  scanned-Scanned :
      (x : Item X) (n si best_idx best_idx_prio : ℕ) (run : Run (List (Item X) × ℕ × ℕ))
      → IsExpected x
      → Scanned n (suc si) best_idx best_idx_prio run
      → Scanned (suc n) si best_idx best_idx_prio (scanned x run)
  unfolding scanned
  scanned-Scanned x n si best_idx best_idx_prio run a s = record {
    items = x ∷ s.items;
    idx = s.idx;
    prio = s.prio;
    returns = rw s.returns refl;
    expected = (a, s.expected);
    same_length = omega (arith, s.same_length);
    place = elim s.place [ inl same ↦ inl same | inr inside ↦ inr (omega (arith, inside)) ];
  }

  -- The place of the first item is a place of an item.
  Scanned-place :
      (p : ℕ) (b : Bool) {n si idx prio : ℕ} {run : Run (List (Item X) × ℕ × ℕ)}
      → Scanned (suc n) si (if b then si else idx) (if b then p else prio) run
      → Scanned (suc n) si idx prio run
  Scanned-place p true {si} s = record {
    items = s.items;
    idx = s.idx;
    prio = s.prio;
    returns = s.returns;
    expected = s.expected;
    same_length = s.same_length;
    place = elim s.place [ inl (here, same) ↦ inr (omega (arith, here)) | inr inside ↦ inr inside ];
  }
  Scanned-place p false s = s

  scan-Scanned :
      (l : List (Item X)) (si idx prio : ℕ)
      → All IsExpected l
      → Scanned (length l) si idx prio (scan l si idx prio)
  unfolding scan
  scan-Scanned [] si idx prio i = record {
    items = [];
    idx = idx;
    prio = prio;
    returns = refl;
    expected = tt;
    same_length = refl;
    place = inl (refl, refl);
  }
  scan-Scanned (identifier s ∷ l) si idx prio (a, i) =
      scanned-Scanned (expression (Expression.variable s)) (length l) si idx prio _ tt
        (scan-Scanned l (suc si) idx prio i)
  scan-Scanned (dot ∷ l) si idx prio (a, i) =
      Scanned-place 2 (ltb 2 prio)
        (scanned-Scanned dot (length l) si _ _ _ tt (scan-Scanned l (suc si) _ _ i))
  scan-Scanned (operator o ∷ l) si idx prio (a, i) =
      Scanned-place (priority o) (leb (priority o) prio)
        (scanned-Scanned (operator o) (length l) si _ _ _ tt (scan-Scanned l (suc si) _ _ i))
  scan-Scanned (unexpected ∷ l) si idx prio (a, i) = absurd a
  scan-Scanned (expression e ∷ l) si idx prio (a, i) =
      scanned-Scanned (expression e) (length l) si idx prio _ tt
        (scan-Scanned l (suc si) idx prio i)

  -- An item that is below the end of the stack is there.
  item_at :
      (idx : ℕ) (l : List (Item X))
      → idx < length l
      → (i : Item X) × (unwrap (get_elem? l idx) ≡ done i)
  item_at idx [] h = absurd (omega (arith, h))
  item_at zero (i ∷ l) h = (i, refl)
  item_at (suc idx) (i ∷ l) h = item_at idx l (omega (arith, h))

  Returns : Run (Outcome X) → Type 0
  Returns run = (r : Outcome X) × (run ≡ done r)

  go_on-Returns :
      (n : ℕ) (r : ParseError × Option (List (Item X))) (next : List (Item X) → Run (Outcome X))
      → Shrinks n r.1
      → ((s : List (Item X)) → length s < n → All IsExpected s → Returns (next s))
      → Returns (go_on r next)
  unfolding go_on Returns Shrinks
  go_on-Returns n (e, none) next h g = (_, refl)
  go_on-Returns n (e, some s) next (h, i) g = g s h i

  fold_all-Returns :
      (fuel : ℕ) (stack : List (Item X))
      → All IsExpected stack
      → length stack < fuel
      → Returns (fold_all fuel stack)
  unfolding fold_all fold_best Returns
  fold_all-Returns zero stack i h = absurd (omega arith)
  fold_all-Returns (suc fuel) [] i h = (_, refl)
  fold_all-Returns (suc fuel) (x ∷ l) i h =
      let s = scan-Scanned (x ∷ l) 0 0 0xff i in
      elim (Bool-cases (ltb s.prio 0xff)) [
        | inl found ↦
            let inside : s.idx < length s.items = elim s.place [
              | inl (first, unset) ↦ absurd (ground (arith, found, unset))
              | inr below ↦ omega (arith, below, s.same_length)
            ] in
            let (item, there) = item_at s.idx s.items inside in
            let more =
              go_on-Returns (length s.items) (fold_item item s.idx s.items) (fold_all fuel)
                (fold_item-Shrinks item s.idx s.items s.expected)
                (λ r k j. fold_all-Returns fuel r j (omega (arith, h, k, s.same_length))) in
            (more.0, rw (s.returns, found, there) more.1)
        | inr nothing ↦ (first_item s.items, rw (s.returns, nothing) refl)
      ]

  -- On a stack of identifiers, dots, operators and expressions `stack_to_expression` returns, with an
  -- expression or an error: each round takes items off the stack, and the place of the operator that
  -- a round folds is a place on the stack.
  pub stack_to_expression-returns :
      (stack : List (Item X))
      → All IsExpected stack
      → (r : Outcome X) × (stack_to_expression stack ≡ done r)
  unfolding stack_to_expression Returns
  stack_to_expression-returns stack i = fold_all-Returns (suc (length stack)) stack i (omega arith)
