-- ===== src/Collections/OrderedSet.antt =====
-- `OrderedSet<T>` of src/fsm.rs: a vector without repetition. It is used at state and transition
-- ids only, so `T` is ℕ. A method that takes `&mut self` returns the new set.
pub mod Laws
use r_fsm.Prelude.{
  ℕ, List, [], ◌∷◌, ◌++◌, Bool, true, false, not, Run, done, if◌then◌else◌, length, filter,
  contains, ◌==◌,
}
use r_fsm.Collections.SeqList

abbrev pub OrderedSet : Type 0
OrderedSet = List ℕ

abbrev pub new : OrderedSet
new = []

unfoldable pub from_array : List ℕ → OrderedSet
from_array l = l

unfoldable pub size : OrderedSet → ℕ
size s = length s

unfoldable pub is_member : OrderedSet → ℕ → Bool
is_member s e = contains e s

unfoldable pub add : OrderedSet → ℕ → OrderedSet
add s e = if not (contains e s) then s ++ e ∷ [] else s

unfoldable pub delete : OrderedSet → ℕ → OrderedSet
delete s e = filter (λ x. not (x == e)) s

-- Every element of the second set is added, if it is not there already.
unfoldable pub union : OrderedSet → OrderedSet → OrderedSet
unfolding is_member add
union s [] = s
union s (si ∷ r) = union (if not (is_member s si) then add s si else s) r

unfoldable pub has_intersection : OrderedSet → OrderedSet → Bool
unfolding is_member
has_intersection [] s = false
has_intersection (si ∷ r) s =
    let rest = has_intersection r s in if is_member s si then true else rest

unfoldable pub is_empty : OrderedSet → Bool
unfolding size
is_empty s = size s == 0

unfoldable pub clear : OrderedSet → OrderedSet
clear s = []

to_list_loop : List ℕ → List ℕ → List ℕ
unfolding SeqList.push
to_list_loop l [] = l
to_list_loop l (e ∷ s) = to_list_loop (SeqList.push l e) s

unfoldable pub to_list : OrderedSet → List ℕ
unfolding to_list_loop
to_list s = to_list_loop [] s

to_set_loop : OrderedSet → List ℕ → OrderedSet
unfolding add
to_set_loop s [] = s
to_set_loop s (e ∷ l) = to_set_loop (add s e) l

-- `List::to_set`.
unfoldable pub to_set : List ℕ → OrderedSet
unfolding to_set_loop
to_set l = to_set_loop [] l
