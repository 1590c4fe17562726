-- ===== src/Collections/OrderedSet/Laws.antt =====
-- Membership and absence of repetition through the operations of `OrderedSet` (src/fsm.rs).
use r_fsm.Prelude.{
  ℕ, List, [], ◌∷◌, ◌++◌, true, false, not, ◌&&◌, ◌||◌, ◌==◌, contains, is_distinct,
  is_distinct-snoc, is_distinct-filter, contains-snoc, contains-filter, ◌≡◌, refl, sym, ap, arith,
  Bool-cases, inl, inr, ◌↔◌,
}
use mathlib.Core.List.{append-nil, append_assoc}
use r_fsm.Collections.SeqList
use r_fsm.Collections.OrderedSet.{
  OrderedSet, is_member, add, delete, union, has_intersection, to_list, to_list_loop, to_set,
  to_set_loop, is_empty,
}

abbrev pub IsSetOf : OrderedSet → Type 0
IsSetOf s = is_distinct s ≡ true

pub contains-add : (e x : ℕ) (s : OrderedSet) → contains e (add s x) ≡ (contains e s || x == e)
unfolding add
contains-add e x s =
    ground (arith, contains-snoc e x s, ap (λ (k : ℕ). contains k s) {x = x} {y = e})

pub add-IsSetOf : (x : ℕ) (s : OrderedSet) → IsSetOf s → IsSetOf (add s x)
unfolding add
add-IsSetOf x s h = ground (arith, is_distinct-snoc x s)

pub contains-delete :
    (e x : ℕ) (s : OrderedSet) → contains e (delete s x) ≡ (contains e s && not (e == x))
unfolding delete
contains-delete e x s = contains-filter (λ y. not (y == x)) e s

pub delete-IsSetOf : (x : ℕ) (s : OrderedSet) → IsSetOf s → IsSetOf (delete s x)
unfolding delete
delete-IsSetOf x s h = is_distinct-filter (λ y. not (y == x)) s h

-- `union` tests for the element before `add` tests again.
union-add : (s : OrderedSet) (x : ℕ) (r : OrderedSet) → union s (x ∷ r) ≡ union (add s x) r
unfolding union
union-add s x r = ground arith

pub contains-union :
    (e : ℕ) (s r : OrderedSet) → contains e (union s r) ≡ (contains e s || contains e r)
contains-union e s [] = unfold union in ground arith
contains-union e s (x ∷ r) =
    rw (union-add s x r) (ground (arith, contains-union e (add s x) r, contains-add e x s))

pub union-IsSetOf : (s r : OrderedSet) → IsSetOf s → IsSetOf (union s r)
union-IsSetOf s [] h = unfold union in h
union-IsSetOf s (x ∷ r) h = rw (union-add s x r) (union-IsSetOf (add s x) r (add-IsSetOf x s h))

contains-to_set_loop :
    (e : ℕ) (s : OrderedSet) (l : List ℕ)
    → contains e (to_set_loop s l) ≡ (contains e s || contains e l)
unfolding to_set_loop
contains-to_set_loop e s [] = ground arith
contains-to_set_loop e s (x ∷ l) =
    ground (arith, contains-to_set_loop e (add s x) l, contains-add e x s)

pub contains-to_set : (e : ℕ) (l : List ℕ) → contains e (to_set l) ≡ contains e l
unfolding to_set
contains-to_set e l = contains-to_set_loop e [] l

to_set_loop-IsSetOf : (s : OrderedSet) (l : List ℕ) → IsSetOf s → IsSetOf (to_set_loop s l)
unfolding to_set_loop
to_set_loop-IsSetOf s [] h = h
to_set_loop-IsSetOf s (x ∷ l) h = to_set_loop-IsSetOf (add s x) l (add-IsSetOf x s h)

pub to_set-IsSetOf : (l : List ℕ) → IsSetOf (to_set l)
unfolding to_set
to_set-IsSetOf l = to_set_loop-IsSetOf [] l refl

to_list_loop_lem : (l s : List ℕ) → to_list_loop l s ≡ l ++ s
unfolding to_list_loop
to_list_loop_lem l [] = sym (append-nil l)
to_list_loop_lem l (x ∷ s) =
    rw (to_list_loop_lem (SeqList.push l x) s) (unfold SeqList.push in append_assoc l (x ∷ []) s)

pub to_list_lem : (s : OrderedSet) → to_list s ≡ s
unfolding to_list
to_list_lem s = to_list_loop_lem [] s

-- Two sets intersect exactly when some element is in both.
pub has_intersection-of_common :
    (e : ℕ) (s r : OrderedSet)
    → contains e s ≡ true
    → contains e r ≡ true
    → has_intersection s r ≡ true
unfolding has_intersection
has_intersection-of_common e [] r h k = cc
has_intersection-of_common e (x ∷ s) r h k =
    ground (arith, has_intersection-of_common e s r, ap (λ (y : ℕ). contains y r) {x = x} {y = e})

pub common-of_has_intersection :
    (s r : OrderedSet)
    → has_intersection s r ≡ true
    → (e : ℕ) × (contains e s ≡ true) × (contains e r ≡ true)
unfolding has_intersection
common-of_has_intersection [] r h = cc
common-of_has_intersection (x ∷ s) r h = elim (Bool-cases (contains x r)) [
  | inl there ↦ (x, ground arith, there)
  | inr gone ↦ let (e, p, q) = common-of_has_intersection s r (rw gone at h) in (e, ground arith, q)
]

pub is_empty-cons : (x : ℕ) (s : OrderedSet) → is_empty (x ∷ s) ≡ false
unfolding is_empty
is_empty-cons x s = ground arith

pub is_empty-nil : is_empty [] ≡ true
unfolding is_empty
is_empty-nil = refl

-- `add`, `delete`, `union` and `to_set` never make an element occur twice, and act on membership as
-- the operations on sets; `isMember` tests it, and `hasIntersection` tests for a common element.
pub operations-IsSetOf :
    (s r : OrderedSet) (x e : ℕ)
    → IsSetOf s
    → IsSetOf (add s x)
      × (is_member (add s x) e ≡ (is_member s e || x == e))
      × IsSetOf (delete s x)
      × (is_member (delete s x) e ≡ (is_member s e && not (e == x)))
      × IsSetOf (union s r)
      × (is_member (union s r) e ≡ (is_member s e || is_member r e))
      × IsSetOf (to_set r)
      × (is_member (to_set r) e ≡ is_member r e)
      × ((has_intersection s r ≡ true)
          ↔ ((y : ℕ) × (is_member s y ≡ true) × (is_member r y ≡ true)))
unfolding is_member
operations-IsSetOf s r x e h = (
  add-IsSetOf x s h,
  contains-add e x s,
  delete-IsSetOf x s h,
  contains-delete e x s,
  union-IsSetOf s r h,
  contains-union e s r,
  to_set-IsSetOf r,
  contains-to_set e r,
  (common-of_has_intersection s r, λ p. has_intersection-of_common p.0 s r p.1 p.2),
)
