-- ===== src/Expression/Folding/Folds.antt =====
-- What `stack_to_expression` of src/expression_engine/parser.rs makes of operators.
use r_fsm.Prelude.{
  ℕ, suc, ◌<◌, List, [], ◌∷◌, Bool, true, false, some, done, if◌then◌else◌, ltb, leb, ◌≡◌, refl,
  arith, Bool-cases, inl, inr,
}
use r_fsm.Expression.Characters.{Operator}
use r_fsm.Expression.Folding.{
  Expression, operation, Item, expression, operator, parsed, priority, scan, scanned, fold_all,
  fold_best, fold_item, fold_operator, fold_stack_at, fold_here, build, replaced, first_item, go_on,
  stack_to_expression,
}

-- The operators with two sides, but for assignments.
abbrev pub is_binary : Operator → Bool
is_binary Operator.not = false
is_binary Operator.assign = false
is_binary Operator.assign_undefined = false
is_binary _ = true

priority-bound : (o : Operator) → priority o < 0xff
unfolding priority
priority-bound Operator.multiply = omega arith
priority-bound Operator.divide = omega arith
priority-bound Operator.plus = omega arith
priority-bound Operator.minus = omega arith
priority-bound Operator.less = omega arith
priority-bound Operator.less_equal = omega arith
priority-bound Operator.greater = omega arith
priority-bound Operator.greater_equal = omega arith
priority-bound Operator.assign = omega arith
priority-bound Operator.assign_undefined = omega arith
priority-bound Operator.equal = omega arith
priority-bound Operator.not_equal = omega arith
priority-bound Operator.and = omega arith
priority-bound Operator.or = omega arith
priority-bound Operator.modulus = omega arith
priority-bound Operator.not = omega arith

priority-leb : (o : Operator) → leb (priority o) 0xff ≡ true
priority-leb o = ground (arith, priority-bound o)

priority-ltb : (o : Operator) → ltb (priority o) 0xff ≡ true
priority-ltb o = ground (arith, priority-bound o)

module _ {X : Type 0} where
  -- `x o y p z` on the stack.
  abbrev pub chain :
      Expression X → Operator → Expression X → Operator → Expression X → List (Item X)
  chain x o y p z = expression x ∷ operator o ∷ expression y ∷ operator p ∷ expression z ∷ []

  -- Two operators: the one with the smaller priority number is folded first, and of two with the
  -- same number the right one.
  abbrev pub folded :
      Expression X → Operator → Expression X → Operator → Expression X → Expression X
  folded x o y p z =
      if leb (priority p) (priority o)
      then operation o x (operation p y z)
      else operation p (operation o x y) z

  -- A binary operator is folded with its neighbours.
  fold_operator-binary :
      (o : Operator) (idx : ℕ) (stack : List (Item X))
      → is_binary o ≡ true
      → fold_operator o idx stack ≡ fold_stack_at (λ l r. some (operation o l r)) idx stack
  unfolding fold_operator build
  fold_operator-binary Operator.multiply idx stack h = refl
  fold_operator-binary Operator.divide idx stack h = refl
  fold_operator-binary Operator.plus idx stack h = refl
  fold_operator-binary Operator.minus idx stack h = refl
  fold_operator-binary Operator.less idx stack h = refl
  fold_operator-binary Operator.less_equal idx stack h = refl
  fold_operator-binary Operator.greater idx stack h = refl
  fold_operator-binary Operator.greater_equal idx stack h = refl
  fold_operator-binary Operator.assign idx stack h = cc
  fold_operator-binary Operator.assign_undefined idx stack h = cc
  fold_operator-binary Operator.equal idx stack h = refl
  fold_operator-binary Operator.not_equal idx stack h = refl
  fold_operator-binary Operator.and idx stack h = refl
  fold_operator-binary Operator.or idx stack h = refl
  fold_operator-binary Operator.modulus idx stack h = refl
  fold_operator-binary Operator.not idx stack h = cc

  -- One operator between two expressions.
  one_operator :
      (fuel : ℕ) (o : Operator) (x y : Expression X)
      → is_binary o ≡ true
      → fold_all (suc (suc fuel)) (expression x ∷ operator o ∷ expression y ∷ [])
        ≡ done (parsed (some (operation o x y)) [])
  unfolding scan scanned fold_all fold_best fold_item fold_stack_at fold_here replaced first_item
      go_on
  one_operator fuel o x y h =
      rw
        (
          priority-leb o,
          priority-ltb o,
          fold_operator-binary o 1 (expression x ∷ operator o ∷ expression y ∷ []) h,
        )
        refl

  -- A stack of three expressions with two binary operators between them becomes one expression: the
  -- operator with the smaller priority number is folded first, and of two with the same number the
  -- right one.
  pub stack_to_expression-folded :
      (x y z : Expression X) (o p : Operator)
      → is_binary o ≡ true
      → is_binary p ≡ true
      → stack_to_expression (chain x o y p z) ≡ done (parsed (some (folded x o y p z)) [])
  unfolding stack_to_expression scan scanned fold_all fold_best fold_item fold_stack_at fold_here
      replaced go_on
  stack_to_expression-folded x y z o p h k = elim (Bool-cases (leb (priority p) (priority o))) [
    | inl right ↦
        rw (priority-leb o, right, priority-ltb p, fold_operator-binary p 3 (chain x o y p z) k)
          (one_operator 3 o x (operation p y z) h)
    | inr left ↦
        rw (priority-leb o, left, priority-ltb o, fold_operator-binary o 1 (chain x o y p z) h)
          (one_operator 3 p (operation o x y) z k)
  ]
