-- ===== src/Collections/Sort.antt =====
-- `sort_by` of the standard library, which `List::sort` and `OrderedSet::sort` call: a stable
-- sort, here by insertion. The comparison may panic.
pub mod Laws
pub mod Members
use Prim.Native.Nat.{Ordering}
use r_fsm.Prelude.{List, [], ◌∷◌, Run, done, ◌>>=◌}

module _ {ℓ} {A : Type ℓ} where
  abbrev placed : Ordering → A → A → List A → Run (List A) → Run (List A)
  placed Ordering.gt x y ys later = later >>= λ zs. done (y ∷ zs)
  placed _ x y ys later = done (x ∷ y ∷ ys)

  insert : (A → A → Run Ordering) → A → List A → Run (List A)
  insert compare x [] = done (x ∷ [])
  insert compare x (y ∷ ys) =
      let later = insert compare x ys in compare x y >>= λ o. placed o x y ys later

  unfoldable pub sort : (A → A → Run Ordering) → List A → Run (List A)
  unfolding insert
  sort compare [] = done []
  sort compare (x ∷ xs) = sort compare xs >>= λ ys. insert compare x ys
