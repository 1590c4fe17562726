-- ===== src/Fsm/Conflicts/Verdicts.antt =====
-- The inner loop of `removeConflictingTransitions` (src/fsm.rs): how a transition fares against the
-- ones that are kept so far.
use r_fsm.Prelude.{
  ℕ, List, [], ◌∷◌, true, false, Option, none, some, done, contains, All, ◌≡◌, refl, sym, ap, ◌∙◌,
  arith, Bool-cases, ℕ_discrete, inl, inr, ◌⊎◌,
}
use mathlib.Core.Path.{subst, ap₂}
use r_fsm.Collections.OrderedSet
use r_fsm.Collections.OrderedSet.{OrderedSet}
use r_fsm.Collections.OrderedSet.Laws.{
  contains-add, has_intersection-of_common, common-of_has_intersection,
}
use r_fsm.Fsm.Types.{Transition, Fsm, get_transition_by_id}
use r_fsm.Fsm.Tree.{is_descendant}
use r_fsm.Fsm.Tree.Chain.{done-injective}
use r_fsm.Fsm.Tree.Order.{IsStateId, is_descendant-ancestors, ancestors-asym}
use r_fsm.Fsm.WellFormed.{IsWellFormed, IsHistoryOf}
use r_fsm.Fsm.Domain.{HistoryTable}
use r_fsm.Fsm.Exit.{compute_exit_set}
use r_fsm.Fsm.Exit.Members.{IsTransitionId, compute_exit_set-Exited}
use r_fsm.Fsm.Conflicts.{preempt_loop}

-- The two transitions leave a common active state.
pub record Conflict (m : Fsm) (hist : HistoryTable) (configuration : OrderedSet) (x y : ℕ)
    : Type 0 where
  pub state : ℕ
  pub exit1 : OrderedSet
  pub exit2 : OrderedSet
  pub run1 : compute_exit_set m hist configuration (x ∷ []) ≡ done exit1
  pub run2 : compute_exit_set m hist configuration (y ∷ []) ≡ done exit2
  pub left1 : contains state exit1 ≡ true
  pub left2 : contains state exit2 ≡ true

pub Conflict-sym :
    {m : Fsm} {hist : HistoryTable} {configuration : OrderedSet} {x y : ℕ}
    → Conflict m hist configuration x y
    → Conflict m hist configuration y x
Conflict-sym c = record {
  state = c.state;
  exit1 = c.exit2;
  exit2 = c.exit1;
  run1 = c.run2;
  run2 = c.run1;
  left1 = c.left2;
  left2 = c.left1;
}

-- Why `x` gives way to `y`: they leave a common state, and the source of `x` is not below the source
-- of `y`.
pub record Preempted (m : Fsm) (hist : HistoryTable) (configuration : OrderedSet) (x y : ℕ)
    : Type 0 where
  pub conflict : Conflict m hist configuration x y
  pub t1 : Transition
  pub t2 : Transition
  pub found1 : get_transition_by_id m x ≡ done t1
  pub found2 : get_transition_by_id m y ≡ done t2
  pub not_inner : is_descendant m t1.source t2.source ≡ done false

module _ {m : Fsm} (w : IsWellFormed m) (hist : HistoryTable) (v : IsHistoryOf m hist)
    (configuration : OrderedSet) (active : All (IsStateId m) configuration) where
  abbrev pub Env : Fsm × HistoryTable × OrderedSet
  Env = (m, hist, configuration)

  exit_of :
      (tid : ℕ)
      → IsTransitionId m tid
      → (r : OrderedSet) × (compute_exit_set m hist configuration (tid ∷ []) ≡ done r)
  exit_of tid i =
      let (r, run, distinct, members) =
        compute_exit_set-Exited w hist v configuration active (tid ∷ []) (i, tt) in
      (r, run)

  abbrev pub Conflicting : ℕ → ℕ → Type 0
  Conflicting x y = Conflict m hist configuration x y

  abbrev pub GivesWay : ℕ → ℕ → Type 0
  GivesWay x y = Preempted m hist configuration x y

  -- What the inner loop says about the kept transitions `l`.
  abbrev pub Verdict : ℕ → List ℕ → OrderedSet → Option OrderedSet → Type 0
  Verdict tid1 l to_remove none = (y : ℕ) × (contains y l ≡ true) × GivesWay tid1 y
  Verdict tid1 l to_remove (some r) =
      ((e : ℕ) → contains e to_remove ≡ true → contains e r ≡ true)
      × ((e : ℕ) → contains e l ≡ true → contains e r ≡ false → ¬ Conflicting tid1 e)
      × ((e : ℕ) → contains e r ≡ true → (contains e to_remove ≡ true) ⊎ GivesWay e tid1)

  disjoint-not_conflict :
      {x y : ℕ} {r1 r2 : OrderedSet}
      → compute_exit_set m hist configuration (x ∷ []) ≡ done r1
      → compute_exit_set m hist configuration (y ∷ []) ≡ done r2
      → OrderedSet.has_intersection r1 r2 ≡ false
      → ¬ Conflicting x y
  disjoint-not_conflict {r1} {r2} run1 run2 apart c =
      let same1 : c.exit1 ≡ r1 = done-injective (sym c.run1 ∙ run1) in
      let same2 : c.exit2 ≡ r2 = done-injective (sym c.run2 ∙ run2) in
      let meet = has_intersection-of_common c.state c.exit1 c.exit2 c.left1 c.left2 in
      cc (sym apart ∙ sym (ap₂ OrderedSet.has_intersection same1 same2) ∙ meet)

  Verdict-pass :
      (tid1 tid2 : ℕ) (l to_remove : OrderedSet) (o : Option OrderedSet)
      → ¬ Conflicting tid1 tid2
      → Verdict tid1 l to_remove o
      → Verdict tid1 (tid2 ∷ l) to_remove o
  Verdict-pass tid1 tid2 l to_remove none apart (y, c, k) = (y, ground arith, k)
  Verdict-pass tid1 tid2 l to_remove (some r) apart (grows, rest, why) = (
    grows,
    λ e h gone. elim (ℕ_discrete tid2 e) [
      | yes p ↦ subst (λ x. ¬ Conflicting tid1 x) p apart
      | no p ↦ rest e (ground arith) gone
    ],
    why,
  )

  Verdict-remove :
      (tid1 tid2 : ℕ) (l to_remove : OrderedSet) (o : Option OrderedSet)
      → GivesWay tid2 tid1
      → Verdict tid1 l (OrderedSet.add to_remove tid2) o
      → Verdict tid1 (tid2 ∷ l) to_remove o
  Verdict-remove tid1 tid2 l to_remove none c (y, k, c') = (y, ground arith, c')
  Verdict-remove tid1 tid2 l to_remove (some r) c (grows, rest, why) = (
    λ e h. grows e (ground (arith, contains-add e tid2 to_remove)),
    λ e h gone. elim (ℕ_discrete tid2 e) [
      | yes p ↦ absurd (ground (arith, grows e, contains-add e tid2 to_remove))
      | no p ↦ rest e (ground arith) gone
    ],
    λ e h. elim (why e h) [
      | inr k ↦ inr k
      | inl k ↦ elim (ℕ_discrete tid2 e) [
        | yes p ↦ inr (subst (λ x. GivesWay x tid1) p c)
        | no p ↦ inl (ground (arith, contains-add e tid2 to_remove))
      ]
    ],
  )

  met :
      {x y : ℕ} {r1 r2 : OrderedSet}
      → compute_exit_set m hist configuration (x ∷ []) ≡ done r1
      → compute_exit_set m hist configuration (y ∷ []) ≡ done r2
      → OrderedSet.has_intersection r1 r2 ≡ true
      → Conflicting x y
  met {r1} {r2} run1 run2 h =
      let (e, left1, left2) = common-of_has_intersection r1 r2 h in
      record {
        state = e;
        exit1 = r1;
        exit2 = r2;
        run1 = run1;
        run2 = run2;
        left1 = left1;
        left2 = left2;
      }

  -- The source of `tid1` is below the one of `tid2`, which gives way.
  inner-GivesWay :
      (tid1 tid2 : ℕ) (t1 t2 : Transition)
      → get_transition_by_id m tid1 ≡ done t1
      → get_transition_by_id m tid2 ≡ done t2
      → Conflicting tid1 tid2
      → contains t2.source (w.tree.ancestors t1.source) ≡ true
      → GivesWay tid2 tid1
  inner-GivesWay tid1 tid2 t1 t2 found1 found2 c inner = record {
    conflict = Conflict-sym c;
    t1 = t2;
    t2 = t1;
    found1 = found2;
    found2 = found1;
    not_inner =
        is_descendant-ancestors w.tree t2.source t1.source (w.source tid2 t2 found2)
        ∙ ap done (ancestors-asym w.tree t1.source t2.source (w.source tid1 t1 found1) inner);
  }

  pub preempt_loop_lem :
      (tid1 : ℕ) (t1 : Transition) (l to_remove : OrderedSet)
      → get_transition_by_id m tid1 ≡ done t1
      → All (IsTransitionId m) l
      → (o : Option OrderedSet) × (preempt_loop Env tid1 t1 l to_remove ≡ done o)
        × Verdict tid1 l to_remove o
  unfolding preempt_loop
  preempt_loop_lem tid1 t1 [] to_remove i k =
      (some to_remove, refl, ((λ e h. h), (λ e h. cc), λ e h. inl h))
  preempt_loop_lem tid1 t1 (tid2 ∷ l) to_remove i ((t2, found), ks) =
      let (r1, run1) = exit_of tid1 (t1, i) in
      let (r2, run2) = exit_of tid2 (t2, found) in
      let below = is_descendant-ancestors w.tree t1.source t2.source (w.source tid1 t1 i) in
      elim (Bool-cases (OrderedSet.has_intersection r1 r2)) [
        | inr apart ↦
            let (o, run, verdict) = preempt_loop_lem tid1 t1 l to_remove i ks in
            (
              o,
              rw (run1, run2, apart) run,
              Verdict-pass tid1 tid2 l to_remove o (disjoint-not_conflict run1 run2 apart) verdict,
            )
        | inl meet ↦ elim (Bool-cases (contains t2.source (w.tree.ancestors t1.source))) [
          | inl inner ↦
              let (o, run, verdict) =
                preempt_loop_lem tid1 t1 l (OrderedSet.add to_remove tid2) i ks in
              (
                o,
                rw (run1, run2, meet, found, below, inner) run,
                Verdict-remove tid1 tid2 l to_remove o
                    (inner-GivesWay tid1 tid2 t1 t2 i found (met run1 run2 meet) inner) verdict,
              )
          | inr outer ↦ (
            none,
            rw (run1, run2, meet, found, below, outer) refl,
            (
              tid2,
              ground arith,
              record {
                conflict = met run1 run2 meet;
                t1 = t1;
                t2 = t2;
                found1 = i;
                found2 = found;
                not_inner = below ∙ ap done outer;
              },
            ),
          )
        ]
      ]
