-- ===== src/Collections/Sort/Laws.antt =====
-- A sort whose comparison returns for the elements of a list returns, with such elements.
use Prim.Native.Nat.{Ordering}
use r_fsm.Prelude.{List, [], ◌∷◌, Run, done, All, ◌≡◌, refl}
use r_fsm.Collections.Sort.{placed, insert, sort}

module _ {A : Type 0} (P : A → Type 0) (compare : A → A → Run Ordering)
    (total : (x y : A) → P x → P y → (o : Ordering) × (compare x y ≡ done o)) where
  placed-returns :
      (o : Ordering) (x y : A) (ys zs : List A)
      → P x
      → P y
      → All P ys
      → All P zs
      → (r : List A) × (placed o x y ys (done zs) ≡ done r) × All P r
  placed-returns Ordering.lt x y ys zs a b c d = (_, refl, (a, (b, c)))
  placed-returns Ordering.eq x y ys zs a b c d = (_, refl, (a, (b, c)))
  placed-returns Ordering.gt x y ys zs a b c d = (_, refl, (b, d))

  insert-returns :
      (x : A) (l : List A) → P x → All P l → (r : List A) × (insert compare x l ≡ done r) × All P r
  unfolding insert
  insert-returns x [] a i = (x ∷ [], refl, (a, tt))
  insert-returns x (y ∷ ys) a (b, i) =
      let (zs, run, j) = insert-returns x ys a i in
      let (o, e) = total x y a b in
      let (r, q, k) = placed-returns o x y ys zs a b i j in (r, rw (e, run) q, k)

  pub sort-returns : (l : List A) → All P l → (r : List A) × (sort compare l ≡ done r) × All P r
  unfolding sort
  sort-returns [] i = ([], refl, tt)
  sort-returns (x ∷ l) (a, i) =
      let (ys, run, j) = sort-returns l i in
      let (r, q, k) = insert-returns x ys a j in (r, rw run q, k)
