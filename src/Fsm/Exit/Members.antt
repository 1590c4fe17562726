-- ===== src/Fsm/Exit/Members.antt =====
-- `computeExitSet` of src/fsm.rs returns exactly the active states that are below the domain of
-- one of the transitions.
use r_fsm.Prelude.{
  ℕ, List, [], ◌∷◌, true, false, ◌&&◌, ◌||◌, done, if◌then◌else◌, contains, All, ◌≡◌, refl, sym, ap,
  ◌∙◌, arith, Bool-cases, ℕ_discrete, inl, inr, ◌⊎◌, ◌↔◌,
}
use mathlib.Core.Path.{subst}
use r_fsm.Collections.OrderedSet
use r_fsm.Collections.OrderedSet.{OrderedSet}
use r_fsm.Collections.OrderedSet.Laws.{contains-add, add-IsSetOf, IsSetOf}
use r_fsm.Fsm.Types.{Transition, Fsm, get_transition_by_id}
use r_fsm.Fsm.Tree.{is_descendant, no_ids}
use r_fsm.Fsm.Tree.Chain.{done-injective}
use r_fsm.Fsm.Tree.Order.{IsStateId, All-member, is_descendant-ancestors}
use r_fsm.Fsm.WellFormed.{IsWellFormed, IsHistoryOf}
use r_fsm.Fsm.Domain.{HistoryTable, get_transition_domain}
use r_fsm.Fsm.Domain.Scope.{get_transition_domain-IsDomain}
use r_fsm.Fsm.Exit.{exit_loop, exit_one, exit_all, compute_exit_set}

-- Transition ids that are in the table.
abbrev pub IsTransitionId : Fsm → ℕ → Type 0
IsTransitionId m tid = (t : Transition) × (get_transition_by_id m tid ≡ done t)

-- The state `e` lies below the domain of the transition `tid`, which has targets.
pub record Leaves (m : Fsm) (hist : HistoryTable) (tid e : ℕ) : Type 0 where
  pub transition : Transition
  pub found : get_transition_by_id m tid ≡ done transition
  pub targeted : no_ids transition.target ≡ false
  pub domain : ℕ
  pub domain_lem : get_transition_domain m hist transition ≡ done domain
  pub below : is_descendant m e domain ≡ done true

module _ {m : Fsm} (w : IsWellFormed m) where
  exit_loop_lem :
      (d : ℕ) (l : List ℕ) (acc : OrderedSet)
      → All (IsStateId m) l
      → (r : OrderedSet) × (exit_loop m d l acc ≡ done r)
        × ((e : ℕ)
            → contains e r ≡ (contains e acc || contains e l && contains d (w.tree.ancestors e)))
        × (IsSetOf acc → IsSetOf r)
  unfolding exit_loop
  exit_loop_lem d [] acc i = (acc, refl, λ e. ground arith, λ h. h)
  exit_loop_lem d (s ∷ l) acc (i, j) =
      let acc' = if contains d (w.tree.ancestors s) then OrderedSet.add acc s else acc in
      let (r, run, members, distinct) = exit_loop_lem d l acc' j in
      (
        r,
        rw (is_descendant-ancestors w.tree s d i) run,
        λ e. ground (
          arith,
          members e,
          contains-add e s acc,
          ap (λ (x : ℕ). contains d (w.tree.ancestors x)) {x = s} {y = e},
        ),
        λ h. distinct (ground (arith, add-IsSetOf s acc h)),
      )

one_member : (x y : ℕ) → contains y (x ∷ []) ≡ true → x ≡ y
one_member x y h = ground arith

Leaves-found :
    {m : Fsm} {hist : HistoryTable} {tid e : ℕ} {t : Transition} {d : ℕ} (x : ℕ)
    → Leaves m hist x e
    → tid ≡ x
    → get_transition_by_id m tid ≡ done t
    → (no_ids t.target ≡ false)
      × (get_transition_domain m hist t ≡ done d → is_descendant m e d ≡ done true)
Leaves-found {m} {hist} {tid} {e} {t} {d} x leaves p found =
    let same : leaves.transition ≡ t =
      done-injective (sym leaves.found ∙ ap (get_transition_by_id m) (sym p) ∙ found) in
    (
      ap (λ (z : Transition). no_ids z.target) (sym same) ∙ leaves.targeted,
      λ run.
          let domains : leaves.domain ≡ d =
            done-injective (sym leaves.domain_lem ∙ ap (get_transition_domain m hist) same ∙ run) in
          subst (λ y. is_descendant m e y ≡ done true) domains leaves.below,
    )

-- What a round, or all rounds, over the transitions `l` have done to `acc`.
pub record Exited (m : Fsm) (hist : HistoryTable) (configuration : OrderedSet) (l : List ℕ)
    (acc r : OrderedSet) : Type 0 where
  pub sound :
      (e : ℕ)
      → contains e r ≡ true
      → (contains e acc ≡ true)
        ⊎ ((tid : ℕ) × (contains tid l ≡ true)
            × (contains e configuration ≡ true)
            × Leaves m hist tid e)
  pub keeps : (e : ℕ) → contains e acc ≡ true → contains e r ≡ true
  pub complete :
      (e tid : ℕ)
      → contains tid l ≡ true
      → contains e configuration ≡ true
      → Leaves m hist tid e
      → contains e r ≡ true
  pub distinct : IsSetOf acc → IsSetOf r

module _ {m : Fsm} (w : IsWellFormed m) (hist : HistoryTable) (v : IsHistoryOf m hist)
    (configuration : OrderedSet) (active : All (IsStateId m) configuration) where
  exit_one_lem :
      (tid : ℕ) (acc : OrderedSet)
      → IsTransitionId m tid
      → (r : OrderedSet) × (exit_one m hist configuration tid acc ≡ done r)
        × Exited m hist configuration (tid ∷ []) acc r
  unfolding exit_one
  exit_one_lem tid acc (t, found) = elim (Bool-cases (no_ids t.target)) [
    | inl untargeted ↦ (
      acc,
      rw (found, untargeted) refl,
      record {
        sound = λ e h. inl h;
        keeps = λ e h. h;
        complete =
            λ e x h k leaves. cc ((Leaves-found {d = 0} x leaves (one_member tid x h) found).0);
        distinct = λ h. h;
      },
    )
    | inr targeted ↦
        let (rs, d, resolved, run, domain) =
          get_transition_domain-IsDomain w hist t v (w.source tid t found)
            (w.targets tid t found) in
        let (r, loop, members, distinct) = exit_loop_lem w d configuration acc active in
        (
          r,
          rw (found, targeted, run) loop,
          record {
            sound = λ e h. elim (Bool-cases (contains e acc)) [
              | inl old ↦ inl old
              | inr new ↦
                  let here : contains e configuration ≡ true = ground (arith, members e) in
                  let below : contains d (w.tree.ancestors e) ≡ true = ground (arith, members e) in
                  let known = All-member (IsStateId m) e configuration active here in
                  inr (
                    tid,
                    ground arith,
                    here,
                    record {
                      transition = t;
                      found = found;
                      targeted = targeted;
                      domain = d;
                      domain_lem = run;
                      below = is_descendant-ancestors w.tree e d known ∙ ap done below;
                    },
                  )
            ];
            keeps = λ e h. ground (arith, members e);
            complete = λ e x h k leaves.
                let known = All-member (IsStateId m) e configuration active k in
                let below = (Leaves-found x leaves (one_member tid x h) found).1 run in
                let above : contains d (w.tree.ancestors e) ≡ true =
                  done-injective (sym (is_descendant-ancestors w.tree e d known) ∙ below) in
                ground (arith, members e);
            distinct = distinct;
          },
        )
  ]

  Exited-step :
      (tid : ℕ) (l : List ℕ) (acc acc' r : OrderedSet)
      → Exited m hist configuration (tid ∷ []) acc acc'
      → Exited m hist configuration l acc' r
      → Exited m hist configuration (tid ∷ l) acc r
  Exited-step tid l acc acc' r one rest = record {
    sound = λ e h. elim (rest.sound e h) [
      | inr (x, c, k, leaves) ↦ inr (x, ground arith, k, leaves)
      | inl k ↦ elim (one.sound e k) [
        | inl old ↦ inl old
        | inr (x, c, k', leaves) ↦ inr (x, ground arith, k', leaves)
      ]
    ];
    keeps = λ e h. rest.keeps e (one.keeps e h);
    complete = λ e x h k leaves. elim (ℕ_discrete tid x) [
      | yes p ↦ rest.keeps e (one.complete e x (ground arith) k leaves)
      | no p ↦ rest.complete e x (ground arith) k leaves
    ];
    distinct = λ h. rest.distinct (one.distinct h);
  }

  exit_all_lem :
      (l : List ℕ) (acc : OrderedSet)
      → All (IsTransitionId m) l
      → (r : OrderedSet) × (exit_all m hist configuration l acc ≡ done r)
        × Exited m hist configuration l acc r
  unfolding exit_all
  exit_all_lem [] acc i = (
    acc,
    refl,
    record { sound = λ e h. inl h; keeps = λ e h. h; complete = λ e x h. cc; distinct = λ h. h },
  )
  exit_all_lem (tid ∷ l) acc (i, j) =
      let (acc', run, one) = exit_one_lem tid acc i in
      let (r, run', rest) = exit_all_lem l acc' j in
      (r, rw run run', Exited-step tid l acc acc' r one rest)

  -- `computeExitSet` returns, and an id is in its result exactly when it is an active state below
  -- the domain of one of the transitions; no id is twice in it.
  pub compute_exit_set-Exited :
      (l : List ℕ)
      → All (IsTransitionId m) l
      → (r : OrderedSet) × (compute_exit_set m hist configuration l ≡ done r)
        × IsSetOf r
        × ((e : ℕ)
            → (contains e r ≡ true) ↔ (
                (contains e configuration ≡ true)
                × ((tid : ℕ) × (contains tid l ≡ true) × Leaves m hist tid e)))
  unfolding compute_exit_set
  compute_exit_set-Exited l i =
      let (r, run, all) = exit_all_lem l [] i in
      (
        r,
        run,
        all.distinct refl,
        λ e. (
          λ h. elim (all.sound e h) [
            | inl old ↦ cc
            | inr (tid, c, k, leaves) ↦ (k, (tid, c, leaves))
          ],
          λ h. all.complete e h.1.0 h.1.1 h.0 h.1.2,
        ),
      )
