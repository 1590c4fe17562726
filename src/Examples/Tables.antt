-- ===== src/Examples/Tables.antt =====
-- The theorems on the collections of src/fsm.rs at concrete sets and tables.
use r_fsm.Prelude.{
  ℕ, List, [], ◌∷◌, true, not, ◌&&◌, ◌||◌, ◌==◌, done, if◌then◌else◌, ◌≡◌, refl, ◌↔◌,
}
use r_fsm.Collections.OrderedSet.{is_member, add, delete, union, has_intersection, to_set}
use r_fsm.Collections.OrderedSet.Laws.{IsSetOf, operations-IsSetOf}
use r_fsm.Collections.HashTable.{put, put_all, has, get, lookup}
use r_fsm.Collections.HashTable.Laws.{IsTable, operations-IsTable}

abbrev here : List ℕ
here = 2 ∷ 1 ∷ []

abbrev there : List ℕ
there = 2 ∷ 3 ∷ 3 ∷ []

operations-IsSetOf_example :
    IsSetOf (add here 5)
    × (is_member (add here 5) 3 ≡ (is_member here 3 || 5 == 3))
    × IsSetOf (delete here 5)
    × (is_member (delete here 5) 3 ≡ (is_member here 3 && not (3 == 5)))
    × IsSetOf (union here there)
    × (is_member (union here there) 3 ≡ (is_member here 3 || is_member there 3))
    × IsSetOf (to_set there)
    × (is_member (to_set there) 3 ≡ is_member there 3)
    × ((has_intersection here there ≡ true)
        ↔ ((y : ℕ) × (is_member here y ≡ true) × (is_member there y ≡ true)))
operations-IsSetOf_example = operations-IsSetOf here there 5 3 refl

abbrev old_table : List (ℕ × ℕ)
old_table = (1, 10) ∷ (2, 20) ∷ []

abbrev new_table : List (ℕ × ℕ)
new_table = (2, 21) ∷ (3, 31) ∷ []

old_table-IsTable : IsTable old_table
unfolding lookup
old_table-IsTable = (refl, (refl, tt))

new_table-IsTable : IsTable new_table
unfolding lookup
new_table-IsTable = (refl, (refl, tt))

operations-IsTable_example :
    IsTable (put old_table 3 7)
    × (has (put old_table 3 7) 2 ≡ (3 == 2 || has old_table 2))
    × (get (put old_table 3 7) 2 ≡ (if 3 == 2 then done 7 else get old_table 2))
    × IsTable (put_all old_table new_table)
    × (has (put_all old_table new_table) 2 ≡ (has new_table 2 || has old_table 2))
    × (get (put_all old_table new_table) 2
        ≡ (if has new_table 2 then get new_table 2 else get old_table 2))
operations-IsTable_example =
    operations-IsTable old_table new_table 2 3 7 old_table-IsTable new_table-IsTable
