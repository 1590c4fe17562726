-- ===== src/Collections/Sort/Members.antt =====
-- A sort of ids whose comparison returns has the same members, each as often.
use Prim.Native.Nat.{Ordering}
use r_fsm.Prelude.{
  ℕ, List, [], ◌∷◌, true, false, ◌||◌, Run, done, All, contains, is_distinct, ◌==◌, ◌≡◌, refl,
  arith,
}
use r_fsm.Collections.Sort.{placed, insert, sort}

module _ (P : ℕ → Type 0) (compare : ℕ → ℕ → Run Ordering)
    (total : (x y : ℕ) → P x → P y → (o : Ordering) × (compare x y ≡ done o)) where
  -- The members of `r` are `x` and those of `l`.
  record Placed (x : ℕ) (l r : List ℕ) : Type 0 where
    all : All P r
    members : (e : ℕ) → contains e r ≡ (x == e || contains e l)
    distinct : is_distinct l ≡ true → contains x l ≡ false → is_distinct r ≡ true

  placed-Placed :
      (o : Ordering) (x y : ℕ) (ys zs : List ℕ)
      → P x
      → P y
      → All P ys
      → Placed x ys zs
      → (r : List ℕ) × (placed o x y ys (done zs) ≡ done r) × Placed x (y ∷ ys) r
  placed-Placed Ordering.lt x y ys zs a b c d = (
    _,
    refl,
    record { all = (a, (b, c)); members = λ e. refl; distinct = λ i j. ground (arith, i, j) },
  )
  placed-Placed Ordering.eq x y ys zs a b c d = (
    _,
    refl,
    record { all = (a, (b, c)); members = λ e. refl; distinct = λ i j. ground (arith, i, j) },
  )
  placed-Placed Ordering.gt x y ys zs a b c d = (
    _,
    refl,
    record {
      all = (b, d.all);
      members = λ e. ground (arith, d.members e);
      distinct = λ i j. ground (arith, d.members y, d.distinct, i, j);
    },
  )

  insert-Placed :
      (x : ℕ) (l : List ℕ)
      → P x
      → All P l
      → (r : List ℕ) × (insert compare x l ≡ done r) × Placed x l r
  unfolding insert
  insert-Placed x [] a i =
      (x ∷ [], refl, record { all = (a, tt); members = λ e. refl; distinct = λ i j. refl })
  insert-Placed x (y ∷ ys) a (b, i) =
      let (zs, run, j) = insert-Placed x ys a i in
      let (o, e) = total x y a b in
      let (r, q, k) = placed-Placed o x y ys zs a b i j in (r, rw (e, run) q, k)

  pub sort-members :
      (l : List ℕ)
      → All P l
      → (r : List ℕ) × (sort compare l ≡ done r)
        × All P r
        × ((e : ℕ) → contains e r ≡ contains e l)
        × (is_distinct l ≡ true → is_distinct r ≡ true)
  unfolding sort
  sort-members [] i = ([], refl, tt, λ e. refl, λ d. d)
  sort-members (x ∷ l) (a, i) =
      let (ys, run, j, members, distinct) = sort-members l i in
      let (r, q, k) = insert-Placed x ys a j in
      (
        r,
        rw run q,
        k.all,
        λ e. ground (arith, k.members e, members e),
        λ d. ground (arith, k.distinct, members x, distinct, d),
      )
