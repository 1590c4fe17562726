-- ===== src/Collections/Queue.antt =====
-- `Queue<T>` of src/fsm.rs: a double-ended queue that is filled at the back.
use r_fsm.Prelude.{List, [], ◌∷◌, ◌++◌, Bool, true, false, Run, done, panic}

module _ {ℓ} {A : Type ℓ} where
  abbrev pub new : List A
  new = []

  unfoldable pub clear : List A → List A
  clear q = []

  unfoldable pub enqueue : List A → A → List A
  enqueue q e = q ++ e ∷ []

  -- `pop_front().unwrap()`: the element and the queue that is left.
  unfoldable pub dequeue : List A → Run (A × List A)
  dequeue [] = panic
  dequeue (e ∷ q) = done (e, q)

  unfoldable pub is_empty : List A → Bool
  is_empty [] = true
  is_empty (e ∷ q) = false
