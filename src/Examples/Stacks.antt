-- ===== src/Examples/Stacks.antt =====
-- The theorems on the stack of src/expression_engine/parser.rs at concrete inputs.
use r_fsm.Prelude.{ℕ, List, [], ◌∷◌, some, done, ◌≡◌, refl}
use r_fsm.Expression.Characters.{Operator}
use r_fsm.Expression.Folding.{
  Expression, operation, Item, identifier, dot, operator, Outcome, parsed, priority,
  stack_to_expression,
}
use r_fsm.Expression.Folding.Folds.{chain, stack_to_expression-folded}
use r_fsm.Expression.Folding.Ends.{stack_to_expression-returns}

abbrev constant : ℕ → Expression ℕ
constant n = Expression.other n

-- 10 - 3 - 2 becomes 10 - (3 - 2).
stack_to_expression-folded_example :
    stack_to_expression
      (chain (constant 10) Operator.minus (constant 3) Operator.minus (constant 2))
    ≡ done (
        parsed
          (some (
            operation Operator.minus
              (constant 10)
              (operation Operator.minus (constant 3) (constant 2))))
          [])
unfolding priority
stack_to_expression-folded_example =
    stack_to_expression-folded (constant 10) (constant 3) (constant 2) Operator.minus Operator.minus
      refl refl

-- a . b <
abbrev unfinished : List (Item ℕ)
unfinished = identifier (0x61 ∷ []) ∷ dot ∷ identifier (0x62 ∷ []) ∷ operator Operator.less ∷ []

stack_to_expression-returns_example : (r : Outcome ℕ) × (stack_to_expression unfinished ≡ done r)
stack_to_expression-returns_example =
    stack_to_expression-returns unfinished (tt, (tt, (tt, (tt, tt))))
