-- ===== src/Fsm/Conflicts/Disjoint.antt =====
-- The result of `removeConflictingTransitions` (src/fsm.rs) is free of conflicts.
use r_fsm.Prelude.{
  ℕ, List, [], ◌∷◌, true, false, not, ◌&&◌, ◌||◌, Option, none, some, done, ◌==◌, contains, All,
  ◌≡◌, ◌≢◌, refl, sym, ap, ◌∙◌, arith, Bool-cases, ℕ_discrete, inl, inr, ◌⊎◌,
}
use mathlib.Core.Path.{subst}
use r_fsm.Collections.OrderedSet
use r_fsm.Collections.OrderedSet.{OrderedSet}
use r_fsm.Collections.OrderedSet.Laws.{
  contains-add, add-IsSetOf, contains-delete, delete-IsSetOf, to_list_lem, IsSetOf,
}
use r_fsm.Fsm.Types.{Fsm}
use r_fsm.Fsm.Tree.Order.{IsStateId, All-of_members, All-member}
use r_fsm.Fsm.WellFormed.{IsWellFormed, IsHistoryOf}
use r_fsm.Fsm.Domain.{HistoryTable}
use r_fsm.Fsm.Exit.Members.{IsTransitionId}
use r_fsm.Fsm.Conflicts.{delete_all, settle, conflict_loop, remove_conflicting_transitions}
use r_fsm.Fsm.Conflicts.Verdicts.{Conflict, Preempted, Conflict-sym, Verdict, preempt_loop_lem}

contains-delete_all :
    (e : ℕ) (s l : OrderedSet) → contains e (delete_all s l) ≡ (contains e s && not (contains e l))
unfolding delete_all
contains-delete_all e s [] = ground arith
contains-delete_all e s (x ∷ l) =
    ground (arith, contains-delete_all e (OrderedSet.delete s x) l, contains-delete e x s)

delete_all-IsSetOf : (s l : OrderedSet) → IsSetOf s → IsSetOf (delete_all s l)
unfolding delete_all
delete_all-IsSetOf s [] h = h
delete_all-IsSetOf s (x ∷ l) h = delete_all-IsSetOf (OrderedSet.delete s x) l (delete-IsSetOf x s h)

head-not_in_tail : (x e : ℕ) (l : List ℕ) → IsSetOf (x ∷ l) → contains e l ≡ true → x ≢ e
head-not_in_tail x e l once h p =
    let there : contains x l ≡ true = ap (λ y. contains y l) p ∙ h in ground (arith, once, there)

module _ {m : Fsm} (w : IsWellFormed m) (hist : HistoryTable) (v : IsHistoryOf m hist)
    (configuration : OrderedSet) (active : All (IsStateId m) configuration) where
  -- The kept transitions: different, taken from `enabled`, and pairwise without conflict.
  record Kept (enabled filtered : OrderedSet) : Type 0 where
    distinct : IsSetOf filtered
    chosen : (e : ℕ) → contains e filtered ≡ true → contains e enabled ≡ true
    apart :
        (x y : ℕ)
        → contains x filtered ≡ true
        → contains y filtered ≡ true
        → x ≢ y
        → ¬ Conflict m hist configuration x y

  contains-settle :
      (e tid1 : ℕ) (filtered r : OrderedSet)
      → contains e (settle filtered tid1 (some r))
        ≡ (contains e filtered && not (contains e r) || tid1 == e)
  unfolding settle
  contains-settle e tid1 filtered r = rw (to_list_lem r) (
      contains-add e tid1 (delete_all filtered r)
      ∙ ground (arith, contains-delete_all e filtered r))

  settle-Kept :
      (enabled : OrderedSet) (tid1 : ℕ) (filtered : OrderedSet) (o : Option OrderedSet)
      → IsTransitionId m tid1
      → contains tid1 enabled ≡ true
      → Verdict w hist v configuration active tid1 filtered [] o
      → Kept enabled filtered
      → Kept enabled (settle filtered tid1 o)
  settle-Kept enabled tid1 filtered none i c verdict k = unfold settle in k
  settle-Kept enabled tid1 filtered (some r) i c (grows, rest, why) k = record {
    distinct =
        unfold settle in
        rw (to_list_lem r)
          (add-IsSetOf tid1 (delete_all filtered r) (delete_all-IsSetOf filtered r k.distinct));
    chosen = λ e h. elim (ℕ_discrete tid1 e) [
      | yes p ↦ ground (arith, p)
      | no p ↦ k.chosen e (ground (arith, contains-settle e tid1 filtered r))
    ];
    apart = λ x y h h' ne. elim (ℕ_discrete tid1 x) [
      | yes p ↦
          subst (λ z. ¬ Conflict m hist configuration z y) p
            (rest y (ground (arith, contains-settle y tid1 filtered r))
              (ground (arith, contains-settle y tid1 filtered r)))
      | no p ↦ elim (ℕ_discrete tid1 y) [
        | yes q ↦ λ c.
            rest x (ground (arith, contains-settle x tid1 filtered r))
              (ground (arith, contains-settle x tid1 filtered r))
              (subst (λ z. Conflict m hist configuration z x) (sym q) (Conflict-sym c))
        | no q ↦
            k.apart x y (ground (arith, contains-settle x tid1 filtered r))
              (ground (arith, contains-settle y tid1 filtered r)) ne
      ]
    ];
  }

  -- Why a transition is not kept: it gives way to another enabled one.
  abbrev Accounted : OrderedSet → OrderedSet → ℕ → Type 0
  Accounted enabled r e =
      (contains e r ≡ true)
      ⊎ ((y : ℕ) × (contains y enabled ≡ true) × (e ≢ y) × Preempted m hist configuration e y)

  -- Nothing but `tid1` is new.
  settle_new :
      (e tid1 : ℕ) (filtered : OrderedSet) (o : Option OrderedSet)
      → contains e filtered ≡ false
      → tid1 ≢ e
      → contains e (settle filtered tid1 o) ≡ false
  settle_new e tid1 filtered none absent ne = unfold settle in absent
  settle_new e tid1 filtered (some r) absent ne =
      ground (arith, contains-settle e tid1 filtered r, ne)

  settle_member :
      (tid1 : ℕ) (filtered : OrderedSet) (o : Option OrderedSet)
      → Verdict w hist v configuration active tid1 filtered [] o
      → (y : ℕ) × (contains y (settle filtered tid1 o) ≡ true)
  settle_member tid1 filtered none (y, c, k) = (y, unfold settle in c)
  settle_member tid1 filtered (some r) k =
      (tid1, ground (arith, contains-settle tid1 tid1 filtered r))

  settle-Accounted :
      (enabled : OrderedSet) (tid1 : ℕ) (filtered : OrderedSet) (o : Option OrderedSet) (e : ℕ)
      → contains tid1 enabled ≡ true
      → contains tid1 filtered ≡ false
      → Verdict w hist v configuration active tid1 filtered [] o
      → Kept enabled filtered
      → (tid1 == e || contains e filtered) ≡ true
      → Accounted enabled (settle filtered tid1 o) e
  settle-Accounted enabled tid1 filtered none e i new (y, c, why) k h = elim (ℕ_discrete tid1 e) [
    | yes p ↦ inr (
      y,
      k.chosen y c,
      λ q. cc (sym new ∙ ap (λ x. contains x filtered) (p ∙ q) ∙ c),
      subst (λ x. Preempted m hist configuration x y) p why,
    )
    | no p ↦ inl (unfold settle in ground arith)
  ]
  settle-Accounted enabled tid1 filtered (some r) e i new (grows, rest, why) k h =
      elim (ℕ_discrete tid1 e) [
        | yes p ↦ inl (ground (arith, contains-settle e tid1 filtered r, p))
        | no p ↦ elim (Bool-cases (contains e r)) [
          | inr stays ↦ inl (ground (arith, contains-settle e tid1 filtered r))
          | inl gone ↦ elim (why e gone) [
            | inl absent ↦ cc
            | inr loses ↦ inr (tid1, i, (λ q. p (sym q)), loses)
          ]
        ]
      ]

  conflict_loop_lem :
      (enabled l filtered : OrderedSet)
      → All (IsTransitionId m) enabled
      → ((e : ℕ) → contains e l ≡ true → contains e enabled ≡ true)
      → IsSetOf l
      → ((e : ℕ) → contains e l ≡ true → contains e filtered ≡ false)
      → Kept enabled filtered
      → (r : OrderedSet) × (conflict_loop m hist configuration l filtered ≡ done r)
        × Kept enabled r
        × ((e : ℕ) → (contains e l || contains e filtered) ≡ true → Accounted enabled r e)
        × ((e : ℕ) → (contains e l || contains e filtered) ≡ true → (y : ℕ) × (contains y r ≡ true))
  unfolding conflict_loop
  conflict_loop_lem enabled [] filtered ids sub once fresh k =
      (filtered, refl, k, (λ e h. inl h), λ e h. (e, h))
  conflict_loop_lem enabled (tid1 ∷ l) filtered ids sub once fresh k =
      let here = sub tid1 (ground arith) in
      let (t1, found) = All-member (IsTransitionId m) tid1 enabled ids here in
      let known =
        All-of_members (IsTransitionId m) filtered
          (λ e h. All-member (IsTransitionId m) e enabled ids (k.chosen e h)) in
      let (o, run, verdict) =
        preempt_loop_lem w hist v configuration active tid1 t1 filtered [] found known in
      let filtered' = settle filtered tid1 o in
      let (r, run', kept, accounted, some_kept) =
        conflict_loop_lem enabled l filtered' ids (λ e h. sub e (ground arith)) (ground arith)
          (λ e h.
            settle_new e tid1 filtered o (fresh e (ground arith))
              (head-not_in_tail tid1 e l once h))
          (settle-Kept enabled tid1 filtered o (t1, found) here verdict k) in
      let (y, first) = settle_member tid1 filtered o verdict in
      (
        r,
        rw (found, to_list_lem filtered, run) run',
        kept,
        (λ e h. elim (Bool-cases (contains e l)) [
          | inl later ↦ accounted e (ground arith)
          | inr now ↦
              elim (settle-Accounted enabled tid1 filtered o e here (fresh tid1 (ground arith))
                verdict k (ground arith)) [
                  | inl kept_now ↦ accounted e (ground arith)
                  | inr loses ↦ inr loses
                ]
        ]),
        λ e h. some_kept y (ground arith),
      )

  -- For enabled transitions that are listed once each `removeConflictingTransitions` returns. What it
  -- keeps are different enabled transitions, no two of which leave a common state. A transition that
  -- is dropped leaves a common state with another enabled one, and its source is not below the source
  -- of that one. Something is kept if something is enabled.
  pub remove_conflicting_transitions-apart :
      (enabled : OrderedSet)
      → IsSetOf enabled
      → All (IsTransitionId m) enabled
      → (r : OrderedSet) × (remove_conflicting_transitions m hist configuration enabled ≡ done r)
        × IsSetOf r
        × ((e : ℕ) → contains e r ≡ true → contains e enabled ≡ true)
        × ((x y : ℕ)
            → contains x r ≡ true
            → contains y r ≡ true
            → x ≢ y
            → ¬ Conflict m hist configuration x y)
        × ((e : ℕ)
            → contains e enabled ≡ true
            → (contains e r ≡ true)
              ⊎ ((y : ℕ) × (contains y enabled ≡ true)
                  × (e ≢ y)
                  × Preempted m hist configuration e y))
        × ((e : ℕ) → contains e enabled ≡ true → (y : ℕ) × (contains y r ≡ true))
  unfolding remove_conflicting_transitions
  remove_conflicting_transitions-apart enabled once ids =
      let start : Kept enabled [] = record {
        distinct = refl;
        chosen = λ e h. cc;
        apart = λ x y h. cc;
      } in
      let (r, run, kept, accounted, some_kept) =
        conflict_loop_lem enabled enabled [] ids (λ e h. h) once (λ e h. refl) start in
      (
        r,
        rw (to_list_lem enabled) run,
        kept.distinct,
        kept.chosen,
        kept.apart,
        (λ e h. accounted e (ground arith)),
        λ e h. some_kept e (ground arith),
      )
