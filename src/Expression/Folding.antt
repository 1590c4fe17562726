-- ===== src/Expression/Folding.antt =====
-- `fold_stack_at` and `stack_to_expression` of src/expression_engine/parser.rs: a stack of
-- expressions and operators is folded at the operator of the least priority number.
pub mod Folds
pub mod Ends
use r_fsm.Prelude.{
  ℕ, zero, suc, ◌+◌, ◌-◌, List, [], ◌∷◌, ◌++◌, Bool, true, false, ◌&&◌, Option, none, some, Run,
  done, panic, stuck, ◌>>=◌, if◌then◌else◌, ◌==◌, ltb, leb, length, get_elem?, take, drop, unwrap,
}
use r_fsm.Expression.Characters.{
  Operator, multiply, divide, plus, minus, less, less_equal, greater, greater_equal, assign,
  assign_undefined, equal, not_equal, and, or, modulus, not,
}

-- The expressions that the folding builds or looks into; `other` stands for the other ones.
mutual
  pub data Expression (X : Type 0) : Type 0 where
    variable : List ℕ → Expression X
    method : List ℕ → Arguments X → Expression X
    operation : Operator → Expression X → Expression X → Expression X
    assignment : Expression X → Expression X → Expression X
    assignment_undefined : Expression X → Expression X → Expression X
    negation : Expression X → Expression X
    member_access : Expression X → List ℕ → Expression X
    other : X → Expression X

  pub data Arguments (X : Type 0) : Type 0 where
    no_arguments : Arguments X
    argument : Expression X → Arguments X → Arguments X

-- The items of the stack. Any token but these three makes `stack_to_expression` panic.
pub data Item (X : Type 0) : Type 0 where
  identifier : List ℕ → Item X
  dot : Item X
  operator : Operator → Item X
  unexpected : Item X
  expression : Expression X → Item X

-- `Err` with its text, by where it comes from.
pub data ParseError : Type 0 where
  at_operator : Operator → ParseError
  at_separator at_item : ParseError

unfoldable pub priority : Operator → ℕ
priority not = 3
priority and = 5
priority multiply = 5
priority divide = 5
priority modulus = 5
priority or = 6
priority plus = 6
priority minus = 6
priority less = 9
priority less_equal = 9
priority greater = 9
priority greater_equal = 9
priority equal = 10
priority not_equal = 10
priority assign = 16
priority assign_undefined = 16

pub data Outcome (X : Type 0) : Type 0 where
  parsed : Option (Expression X) → List (Item X) → Outcome X
  failed : ParseError → Outcome X

module _ {X : Type 0} where
  -- The loop over the stack: identifiers become variables, and the place of the least priority
  -- number is kept, the last one of several operators, the first one of several dots.
  scanned : Item X → Run (List (Item X) × ℕ × ℕ) → Run (List (Item X) × ℕ × ℕ)
  scanned i run = run >>= λ (items, best_idx, prio). done (i ∷ items, best_idx, prio)

  scan : List (Item X) → ℕ → ℕ → ℕ → Run (List (Item X) × ℕ × ℕ)
  unfolding scanned priority
  scan [] si best_idx best_idx_prio = done ([], best_idx, best_idx_prio)
  scan (identifier name ∷ l) si best_idx best_idx_prio =
      scanned (expression (variable name)) (scan l (suc si) best_idx best_idx_prio)
  scan (dot ∷ l) si best_idx best_idx_prio = scanned dot (
      scan l (suc si) (if ltb 2 best_idx_prio then si else best_idx)
        (if ltb 2 best_idx_prio then 2 else best_idx_prio))
  scan (operator o ∷ l) si best_idx best_idx_prio = scanned (operator o) (
      scan l (suc si) (if leb (priority o) best_idx_prio then si else best_idx)
        (if leb (priority o) best_idx_prio then priority o else best_idx_prio))
  scan (unexpected ∷ l) si best_idx best_idx_prio = panic
  scan (expression e ∷ l) si best_idx best_idx_prio =
      scanned (expression e) (scan l (suc si) best_idx best_idx_prio)

  -- The neighbours of an item and the item itself are replaced by an expression.
  replaced : List (Item X) → Option (Expression X) → List (Item X) → Option (List (Item X))
  replaced before none after = none
  replaced before (some e) after = some (before ++ expression e ∷ after)

  fold_here :
      (Expression X → Expression X → Option (Expression X))
      → List (Item X)
      → List (Item X)
      → Option (List (Item X))
  unfolding replaced
  fold_here f before (expression le ∷ item ∷ expression re ∷ after) =
      replaced before (f le re) after
  fold_here f before _ = none

  fold_stack_at :
      (Expression X → Expression X → Option (Expression X))
      → ℕ
      → List (Item X)
      → Option (List (Item X))
  unfolding fold_here
  fold_stack_at f idx stack =
      if idx == 0 then none else fold_here f (take (idx - 1) stack) (drop (idx - 1) stack)

  fold_not : List (Item X) → List (Item X) → Option (List (Item X))
  fold_not before (item ∷ expression re ∷ after) = some (before ++ expression (negation re) ∷ after)
  fold_not before _ = none

  -- The right side of a dot is a field or a method, which gets the left side as first argument.
  member : Expression X → Expression X → Option (Expression X)
  member le (variable name) = some (member_access le name)
  member le (method name args) = some (method name (argument le args))
  member le _ = none

  build : Operator → Expression X → Expression X → Option (Expression X)
  build assign le re = some (assignment le re)
  build assign_undefined le re = some (assignment_undefined le re)
  build o le re = some (operation o le re)

  fold_operator : Operator → ℕ → List (Item X) → Option (List (Item X))
  unfolding fold_stack_at fold_not build
  fold_operator not idx stack = fold_not (take idx stack) (drop idx stack)
  fold_operator o idx stack = fold_stack_at (build o) idx stack

  -- The item at the place that was found, folded with its neighbours, or the error.
  fold_item : Item X → ℕ → List (Item X) → ParseError × Option (List (Item X))
  unfolding fold_operator fold_stack_at member
  fold_item (operator o) idx stack = (at_operator o, fold_operator o idx stack)
  fold_item dot idx stack = (at_separator, fold_stack_at member idx stack)
  fold_item _ idx stack = (at_item, none)

  -- Without an operator the first expression is taken, and the rest stays on the stack.
  first_item : List (Item X) → Outcome X
  first_item (expression e ∷ rest) = parsed (some e) rest
  first_item _ = failed at_item

  go_on : ParseError × Option (List (Item X)) → (List (Item X) → Run (Outcome X)) → Run (Outcome X)
  go_on (e, none) next = done (failed e)
  go_on (e, some stack) next = next stack

  fold_best : List (Item X) × ℕ × ℕ → (List (Item X) → Run (Outcome X)) → Run (Outcome X)
  unfolding go_on fold_item first_item
  fold_best (items, best_idx, best_idx_prio) next =
      let more =
        unwrap (get_elem? items best_idx) >>= λ item. go_on (fold_item item best_idx items) next in
      if ltb best_idx_prio 0xff then more else done (first_item items)

  fold_all : ℕ → List (Item X) → Run (Outcome X)
  unfolding scan fold_best
  fold_all zero stack = stuck
  fold_all (suc fuel) [] = done (parsed none [])
  fold_all (suc fuel) (i ∷ l) = scan (i ∷ l) 0 0 0xff >>= λ s. fold_best s (fold_all fuel)

  -- Each round takes items off the stack.
  unfoldable pub stack_to_expression : List (Item X) → Run (Outcome X)
  unfolding fold_all
  stack_to_expression stack = fold_all (suc (length stack)) stack
