-- ===== src/Prelude/Ids.antt =====
-- Membership in a list of ids, as the Boolean test `Vec::contains`, and counting arguments on it.
use Prim.Native.Nat.{ℕ, zero, suc, ◌≤◌, ◌<◌}
use mathlib.Core.Path.{◌≡◌, refl, ap}
use mathlib.Core.Bool.{Bool, true, false, not, ◌&&◌, ◌||◌}
use mathlib.Core.List.{List, [], ◌∷◌, ◌++◌}
use native.Mathlib.Omega.{arith}
use r_fsm.Prelude.Tests.{◌==◌, if◌then◌else◌}
use r_fsm.Prelude.Lists.{length, filter}

-- Each list's `contains` in the source, at the ids (`u32`) that it is used with.
abbrev pub contains : ℕ → List ℕ → Bool
contains e [] = false
contains e (x ∷ xs) = x == e || contains e xs

pub contains-append :
    (e : ℕ) (xs ys : List ℕ) → contains e (xs ++ ys) ≡ (contains e xs || contains e ys)
contains-append e [] ys = refl
contains-append e (x ∷ xs) ys = ground (arith, contains-append e xs ys)

pub contains-filter :
    (p : ℕ → Bool) (e : ℕ) (xs : List ℕ) → contains e (filter p xs) ≡ (contains e xs && p e)
contains-filter p e [] = refl
contains-filter p e (x ∷ xs) = ground (arith, contains-filter p e xs, ap p {x = x} {y = e})

pub contains-snoc : (e x : ℕ) (xs : List ℕ) → contains e (xs ++ x ∷ []) ≡ (contains e xs || x == e)
contains-snoc e x xs = ground (arith, contains-append e xs (x ∷ []))

-- No element occurs twice.
abbrev pub is_distinct : List ℕ → Bool
is_distinct [] = true
is_distinct (x ∷ xs) = not (contains x xs) && is_distinct xs

pub is_distinct-snoc :
    (x : ℕ) (xs : List ℕ)
    → is_distinct xs ≡ true
    → contains x xs ≡ false
    → is_distinct (xs ++ x ∷ []) ≡ true
is_distinct-snoc x [] d h = refl
is_distinct-snoc x (y ∷ xs) d h = ground (arith, contains-snoc y x xs, is_distinct-snoc x xs)

pub is_distinct-filter :
    (p : ℕ → Bool) (xs : List ℕ) → is_distinct xs ≡ true → is_distinct (filter p xs) ≡ true
is_distinct-filter p [] d = refl
is_distinct-filter p (x ∷ xs) d = ground (arith, contains-filter p x xs, is_distinct-filter p xs)

abbrev other : ℕ → ℕ → Bool
other e x = not (x == e)

length-filter-other :
    (e : ℕ) (xs : List ℕ) → contains e xs ≡ false → length (filter (other e) xs) ≡ length xs
length-filter-other e [] h = refl
length-filter-other e (x ∷ xs) h = ground (arith, length-filter-other e xs)

length-le-filter-other :
    (e : ℕ) (xs : List ℕ) → is_distinct xs ≡ true → length xs ≤ suc (length (filter (other e) xs))
length-le-filter-other e [] d = omega arith
length-le-filter-other e (x ∷ xs) d =
    ground (arith, length-filter-other e xs, length-le-filter-other e xs)

-- A list of different numbers from 1 to n has at most n elements.
pub length-le-bound :
    (n : ℕ) (xs : List ℕ)
    → is_distinct xs ≡ true
    → ((x : ℕ) → contains x xs ≡ true → (0 < x) × (x ≤ n))
    → length xs ≤ n
length-le-bound n [] d b = omega arith
length-le-bound zero (x ∷ xs) d b = absurd (ground (arith, b x))
length-le-bound (suc n) (x ∷ xs) d b =
    let ys = filter (other (suc n)) (x ∷ xs) in
    let smaller : length ys ≤ n =
      length-le-bound n ys (is_distinct-filter (other (suc n)) (x ∷ xs) d)
        (λ y h. ground (arith, contains-filter (other (suc n)) y (x ∷ xs), b y)) in
    omega (arith, smaller, length-le-filter-other (suc n) (x ∷ xs) d)

pub not-contains-of_distinct :
    (xs : List ℕ) (x : ℕ) (ys : List ℕ) → is_distinct (xs ++ x ∷ ys) ≡ true → contains x xs ≡ false
not-contains-of_distinct [] x ys d = refl
not-contains-of_distinct (y ∷ xs) x ys d =
    ground (arith, contains-append y xs (x ∷ ys), not-contains-of_distinct xs x ys)

-- The elements before the first `x`.
abbrev pub until : ℕ → List ℕ → List ℕ
until x [] = []
until x (y ∷ ys) = let rest = until x ys in if y == x then [] else y ∷ rest

pub until-not_contains : (x : ℕ) (ys : List ℕ) → contains x ys ≡ false → until x ys ≡ ys
until-not_contains x [] h = refl
until-not_contains x (y ∷ ys) h = ground (arith, until-not_contains x ys)
