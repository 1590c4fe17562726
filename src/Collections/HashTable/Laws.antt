-- ===== src/Collections/HashTable/Laws.antt =====
-- Lookups after the operations of `HashTable` (src/fsm.rs).
use r_fsm.Prelude.{
  ℕ, List, [], ◌∷◌, true, false, Option, none, some, done, if◌then◌else◌, ◌==◌, ◌||◌, unwrap, Bool,
  ◌≡◌, refl, ap, ◌∙◌, arith, inl, inr, Bool-cases,
}
use mathlib.Core.Path.{subst}
use r_fsm.Collections.HashTable.{lookup, insert, put_all, put, has, get, is_some}

module _ {ℓ} {V : Type ℓ} where
  pub lookup-insert :
      (k j : ℕ) (v : V) (t : List (ℕ × V))
      → lookup k (insert j v t) ≡ (if j == k then some v else lookup k t)
  unfolding lookup insert
  lookup-insert k j v [] = refl
  lookup-insert k j v ((i, w) ∷ t) = ground (arith, lookup-insert k j v t)

  -- One entry for a key, as in a `HashMap`.
  abbrev pub IsTable : List (ℕ × V) → Type ℓ
  IsTable [] = Unit
  IsTable ((k, v) ∷ t) = (lookup k t ≡ none) × IsTable t

  abbrev pub or_else : Option V → Option V → Option V
  or_else none o = o
  or_else (some v) o = some v

  lookup-other :
      (j k : ℕ) (t : List (ℕ × V)) → (j == k) ≡ true → lookup j t ≡ none → lookup k t ≡ none
  lookup-other j k t e h =
      let same : j ≡ k = ground (arith, e) in subst (λ i. lookup i t ≡ none) same h

  or_else-entry :
      (j k : ℕ) (v : V) (r : List (ℕ × V)) (o : Option V)
      → lookup j r ≡ none
      → or_else (lookup k r) (if j == k then some v else o) ≡ or_else (lookup k ((j, v) ∷ r)) o
  unfolding lookup
  or_else-entry j k v r o h = elim (Bool-cases (j == k)) [
    | inl same ↦ rw (same, lookup-other j k r same h)
    | inr other ↦ rw other
  ]

  -- After `put_all` a key has its entry in the argument, and without one the entry that it had.
  pub lookup-put_all :
      (k : ℕ) (t r : List (ℕ × V))
      → IsTable r
      → lookup k (put_all t r) ≡ or_else (lookup k r) (lookup k t)
  unfolding put_all
  lookup-put_all k t [] i = unfold lookup in refl
  lookup-put_all k t ((j, v) ∷ r) (a, i) =
      lookup-put_all k (insert j v t) r i
      ∙ ap (or_else (lookup k r)) (lookup-insert k j v t)
      ∙ or_else-entry j k v r (lookup k t) a

  pub IsTable-insert : (k : ℕ) (v : V) (t : List (ℕ × V)) → IsTable t → IsTable (insert k v t)
  unfolding insert
  IsTable-insert k v [] i = (unfold lookup in refl, tt)
  IsTable-insert k v ((j, w) ∷ t) (a, i) = elim (Bool-cases (j == k)) [
    | inl same ↦ rw same (lookup-other j k t same a, i)
    | inr other ↦
        rw other (lookup-insert j k v t ∙ ground (arith, other, a), IsTable-insert k v t i)
  ]

  IsTable-put_all : (t r : List (ℕ × V)) → IsTable t → IsTable (put_all t r)
  unfolding put_all
  IsTable-put_all t [] i = i
  IsTable-put_all t ((k, v) ∷ r) i = IsTable-put_all (insert k v t) r (IsTable-insert k v t i)

  is_some-if :
      (b : Bool) (v : V) (o : Option V) → is_some (if b then some v else o) ≡ (b || is_some o)
  is_some-if true v o = refl
  is_some-if false v o = refl

  unwrap-if :
      (b : Bool) (v : V) (o : Option V)
      → unwrap (if b then some v else o) ≡ (if b then done v else unwrap o)
  unwrap-if true v o = refl
  unwrap-if false v o = refl

  is_some-or_else : (o p : Option V) → is_some (or_else o p) ≡ (is_some o || is_some p)
  is_some-or_else none p = refl
  is_some-or_else (some v) p = refl

  unwrap-or_else :
      (o p : Option V) → unwrap (or_else o p) ≡ (if is_some o then unwrap o else unwrap p)
  unwrap-or_else none p = refl
  unwrap-or_else (some v) p = refl

  -- `put` and `put_all` leave one entry for a key. `has` and `get` see the entry that was put, or
  -- the entry of the argument of `put_all`, and for other keys the old entry.
  pub operations-IsTable :
      (t r : List (ℕ × V)) (k j : ℕ) (v : V)
      → IsTable t
      → IsTable r
      → IsTable (put t j v)
        × (has (put t j v) k ≡ (j == k || has t k))
        × (get (put t j v) k ≡ (if j == k then done v else get t k))
        × IsTable (put_all t r)
        × (has (put_all t r) k ≡ (has r k || has t k))
        × (get (put_all t r) k ≡ (if has r k then get r k else get t k))
  unfolding put has get
  operations-IsTable t r k j v i i' =
      let p = lookup-insert k j v t in
      let q = lookup-put_all k t r i' in
      (
        IsTable-insert j v t i,
        rw p (is_some-if (j == k) v (lookup k t)),
        rw p (unwrap-if (j == k) v (lookup k t)),
        IsTable-put_all t r i,
        rw q (is_some-or_else (lookup k r) (lookup k t)),
        rw q (unwrap-or_else (lookup k r) (lookup k t)),
      )
