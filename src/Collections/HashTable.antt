-- ===== src/Collections/HashTable.antt =====
-- `HashTable<K, T>` of src/fsm.rs over a `HashMap` with ids as keys: an association list with one
-- entry for a key.
pub mod Laws
use r_fsm.Prelude.{
  ℕ, List, [], ◌∷◌, Bool, true, false, Option, none, some, Run, unwrap, if◌then◌else◌, ◌==◌,
}

-- `HashMap::get` and `HashMap::insert` of the standard library.
module _ {ℓ} {V : Type ℓ} where
  unfoldable pub lookup : ℕ → List (ℕ × V) → Option V
  lookup k [] = none
  lookup k ((j, v) ∷ t) = let rest = lookup k t in if j == k then some v else rest

  unfoldable pub insert : ℕ → V → List (ℕ × V) → List (ℕ × V)
  insert k v [] = (k, v) ∷ []
  insert k v ((j, w) ∷ t) = let rest = insert k v t in if j == k then (k, v) ∷ t else (j, w) ∷ rest

  abbrev pub is_some : Option V → Bool
  is_some none = false
  is_some (some v) = true

  abbrev pub new : List (ℕ × V)
  new = []

  unfoldable pub clear : List (ℕ × V) → List (ℕ × V)
  clear t = []

  -- `put` clones the value, `put_move` takes it: one function here.
  unfoldable pub put : List (ℕ × V) → ℕ → V → List (ℕ × V)
  put t k v = insert k v t

  unfoldable pub put_all : List (ℕ × V) → List (ℕ × V) → List (ℕ × V)
  put_all t [] = t
  put_all t ((k, v) ∷ r) = put_all (insert k v t) r

  unfoldable pub has : List (ℕ × V) → ℕ → Bool
  has t k = is_some (lookup k t)

  unfoldable pub get : List (ℕ × V) → ℕ → Run V
  get t k = unwrap (lookup k t)
