-- ===== src/Collections/SeqList.antt =====
-- `List<T>` of src/fsm.rs: a vector. A method that takes `&mut self` returns the new list.
-- A closure that is handed to `filter_by`, `some` or `every` may panic, so it gives a `Run Bool`.
pub mod Laws
pub mod Deciding
pub mod Filtering
use r_fsm.Prelude.{
  ℕ, List, [], ◌∷◌, ◌++◌, Bool, true, false, Run, done, panic, ◌>>=◌, if◌then◌else◌, length,
}

module _ {ℓ} {A : Type ℓ} where
  abbrev pub new : List A
  new = []

  unfoldable pub size : List A → ℕ
  size l = length l

  unfoldable pub push : List A → A → List A
  push l t = l ++ t ∷ []

  -- `push_set`: one push for each element.
  unfoldable pub push_set : List A → List A → List A
  unfolding push
  push_set l [] = l
  push_set l (i ∷ s) = push_set (push l i) s

  unfoldable pub head : List A → Run A
  head [] = panic
  head (x ∷ l) = done x

  -- `Vec::remove(0)` panics on an empty vector.
  unfoldable pub tail : List A → Run (List A)
  tail [] = panic
  tail (x ∷ l) = done l

  -- `append` and `append_set` have the same body: the argument is walked and pushed.
  unfoldable pub append : List A → List A → List A
  unfolding push_set
  append l r = push_set l r

  filter_by_loop : (A → Run Bool) → List A → List A → Run (List A)
  unfolding push
  filter_by_loop f t [] = done t
  filter_by_loop f t (i ∷ l) = f i >>= λ keep. filter_by_loop f (if keep then push t i else t) l

  unfoldable pub filter_by : (A → Run Bool) → List A → Run (List A)
  unfolding filter_by_loop
  filter_by f l = filter_by_loop f [] l

  unfoldable pub some : (A → Run Bool) → List A → Run Bool
  some f [] = done false
  some f (si ∷ l) = let rest = some f l in f si >>= λ hit. if hit then done true else rest

  unfoldable pub every : (A → Run Bool) → List A → Run Bool
  every f [] = done true
  every f (si ∷ l) = let rest = every f l in f si >>= λ hit. if hit then rest else done false
