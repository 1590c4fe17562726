-- ===== src/Fsm/Entry/Computes.antt =====
-- `computeEntrySet` of src/fsm.rs returns, and enters the targets and what lies between them and the
-- domain.
use r_fsm.Prelude.{
  ℕ, ◌+◌, ◌*◌, ◌≤◌, List, true, Run, done, contains, All, length, ◌≡◌, ◌≢◌, refl, sym, ap, ◌∙◌,
  arith, ℕ_discrete, inl, inr, ◌⊎◌,
}
use mathlib.Core.Path.{subst}
use r_fsm.Collections.OrderedSet.{OrderedSet}
use r_fsm.Fsm.Types.{Transition, Fsm, get_transition_by_id}
use r_fsm.Fsm.Tree.{is_descendant}
use r_fsm.Fsm.Tree.Chain.{Chain-state, done-injective}
use r_fsm.Fsm.Tree.Walks.{zero_below, zero-not_contained}
use r_fsm.Fsm.Tree.Order.{
  IsStateId, All-of_members, All-member, is_descendant-ancestors, ancestor-IsStateId,
  get_proper_ancestors-member,
}
use r_fsm.Fsm.WellFormed.{IsWellFormed, IsHistoryOf}
use r_fsm.Fsm.Domain.{get_transition_domain}
use r_fsm.Fsm.Domain.Resolved.{Resolves, IsResolved}
use r_fsm.Fsm.Domain.Targets.{get_effective_target_states-IsResolved}
use r_fsm.Fsm.Domain.Scope.{targets-below-domain}
use r_fsm.Fsm.Exit.Members.{IsTransitionId}
use r_fsm.Fsm.Entry.{
  EntrySets, enter_transition, compute_entry_set, entry_rounds, add_descendant_states_to_enter,
  add_ancestor_states_to_enter,
}
use r_fsm.Fsm.Entry.Enterable.{
  IsEnterable, IsRecorded, IsRecorded-IsHistoryOf, depth, room-bound, Ready, always-Ready,
}
use r_fsm.Fsm.Entry.Steps.{IsEntry, Enters, each-Enters, Spacious, add_ancestor-Enters, between}
use r_fsm.Fsm.Entry.Returns.{add_descendant-Enters}

-- What a transition enters: the states that its targets stand for, and their ancestors below the
-- domain, or all ancestors if there is no domain.
pub data Entered {m : Fsm} (w : IsWellFormed m) (hist : List (ℕ × OrderedSet)) (tid y : ℕ)
    : Type 0 where
  target :
      {t : Transition} (x : ℕ)
      → get_transition_by_id m tid ≡ done t
      → contains x t.target ≡ true
      → Resolves m hist y x
      → Entered w hist tid y
  ancestor :
      {t : Transition} (x z d : ℕ)
      → get_transition_by_id m tid ≡ done t
      → contains x t.target ≡ true
      → Resolves m hist z x
      → get_transition_domain m hist t ≡ done d
      → contains y (w.tree.ancestors z) ≡ true
      → (d ≡ 0) ⊎ (contains d (w.tree.ancestors y) ≡ true)
      → Entered w hist tid y

module _ {m : Fsm} (w : IsWellFormed m) (hist : List (ℕ × OrderedSet)) (n : IsEnterable w)
    (k : IsRecorded w hist) where
  v : IsHistoryOf m hist
  v = IsRecorded-IsHistoryOf w hist k

  abbrev all_rounds : ℕ
  all_rounds = entry_rounds m hist

  rounds-enough : length m.states * (length m.states + 2) + length m.states + 2 ≤ all_rounds
  unfolding entry_rounds
  rounds-enough = omega arith

  ready : (x : ℕ) → IsStateId m x → Ready w all_rounds x
  ready x i = always-Ready w all_rounds x i rounds-enough

  abbrev again : ℕ → EntrySets → Run EntrySets
  again = add_descendant_states_to_enter m hist all_rounds

  abbrev Stand : ℕ → ℕ → Type 0
  Stand x y = Resolves m hist y x

  descends :
      (x : ℕ) (e : EntrySets)
      → Ready w all_rounds x
      → IsEntry m e
      → Enters m e (again x e) (Stand x)
  descends = add_descendant-Enters w hist n k all_rounds

  abbrev Up : ℕ → ℕ → ℕ → Type 0
  Up d x y =
      (contains y (w.tree.ancestors x) ≡ true)
      × ((d ≡ 0) ⊎ (contains d (w.tree.ancestors y) ≡ true))

  ancestors-Up :
      (d x : ℕ) (e : EntrySets)
      → IsStateId m x
      → (d ≢ 0 → is_descendant m x d ≡ done true)
      → IsEntry m e
      → Enters m e (add_ancestor_states_to_enter m hist again x d e) (Up d x)
  ancestors-Up d x e i below u = elim (ℕ_discrete d 0) [
    | yes top ↦
        let (l, run, member) = get_proper_ancestors-member w.tree x 0 i (zero_below m x) in
        let no_zero = zero-not_contained (Chain-state (w.tree.line x i) refl).2 in
        let spacious = All-of_members (Spacious w hist n all_rounds again Stand descends) l λ y h. (
          ancestor-IsStateId w.tree x y i (ground (arith, member y, h)),
          n.above x y i (ground (arith, member y, h)),
          omega (arith, rounds-enough, room-bound w (depth w y)),
        ) in
        let all =
          add_ancestor-Enters w hist n all_rounds again Stand descends x 0 l e run spacious u in
        record {
          result = all.result;
          returns =
              subst (λ z. add_ancestor_states_to_enter m hist again x z e ≡ done all.result)
                (sym top) all.returns;
          entry = all.entry;
          grows = all.grows;
          reached = λ y q. all.reached y (ground (arith, member y, no_zero, q.0));
        }
    | no inner ↦
        let under = done-injective (sym (is_descendant-ancestors w.tree x d i) ∙ below inner) in
        let (l, run, spacious, complete) =
          between w hist n all_rounds again Stand descends d x
            (ancestor-IsStateId w.tree x d i under) (i, under)
            (omega (arith, rounds-enough, room-bound w (depth w d))) in
        let all =
          add_ancestor-Enters w hist n all_rounds again Stand descends x d l e run spacious u in
        record {
          result = all.result;
          returns = all.returns;
          entry = all.entry;
          grows = all.grows;
          reached = λ y q.
              all.reached y
                (complete y (ancestor-IsStateId w.tree x y i q.0, under_domain d y inner q.1) q.0);
        }
  ]
    where
      under_domain :
          (d y : ℕ)
          → d ≢ 0
          → (d ≡ 0) ⊎ (contains d (w.tree.ancestors y) ≡ true)
          → contains d (w.tree.ancestors y) ≡ true
      under_domain d y inner (inl top) = absurd (inner top)
      under_domain d y inner (inr up) = up

  Entered-cases :
      (tid : ℕ) (t : Transition) (d : ℕ) (r : OrderedSet)
      → get_transition_by_id m tid ≡ done t
      → get_transition_domain m hist t ≡ done d
      → IsResolved m hist t.target r
      → (y : ℕ) → Entered w hist tid y
      → ((x : ℕ) × (contains x t.target ≡ true) × Stand x y)
        ⊎ ((x : ℕ) × (contains x r ≡ true) × Up d x y)
  Entered-cases tid t d r found domain resolved y (target {t = t'} x found' c res) =
      let same : t' ≡ t = done-injective (sym found' ∙ found) in
      inl (x, subst (λ (q : Transition). contains x q.target ≡ true) same c, res)
  Entered-cases tid t d r found domain resolved y
        (ancestor {t = t'} x z d' found' c res domain' up alt) =
      let same : t' ≡ t = done-injective (sym found' ∙ found) in
      let equal : d' ≡ d =
        done-injective (sym domain' ∙ ap (get_transition_domain m hist) same ∙ domain) in
      let here = subst (λ (q : Transition). contains x q.target ≡ true) same c in
      inr (
        z,
        resolved.complete z x here res,
        (up, subst (λ q. (q ≡ 0) ⊎ (contains q (w.tree.ancestors y) ≡ true)) equal alt),
      )

  enter_transition-Enters :
      (tid : ℕ) (e : EntrySets)
      → IsTransitionId m tid
      → IsEntry m e
      → Enters m e (enter_transition m hist all_rounds tid e) (Entered w hist tid)
  unfolding enter_transition
  enter_transition-Enters tid e (t, found) u =
      let i = w.targets tid t found in
      let (r, effective, resolved) = get_effective_target_states-IsResolved w hist v t i in
      let (r', d, effective', domain, below) =
        targets-below-domain w hist t v (w.source tid t found) i in
      let same : r' ≡ r = done-injective (sym effective' ∙ effective) in
      let one =
        each-Enters again (IsStateId m) Stand (λ x f j. descends x f (ready x j)) t.target e i u in
      let states =
        All-of_members (λ x. IsStateId m x × (d ≢ 0 → is_descendant m x d ≡ done true)) r
          λ x h. (
            resolved.states x h,
            λ q.
                All-member (λ s. is_descendant m s d ≡ done true) x r
                  (subst (λ z. All (λ s. is_descendant m s d ≡ done true) z) same (below q)) h,
          ) in
      let two =
        each-Enters (λ s f. add_ancestor_states_to_enter m hist again s d f)
          (λ x. IsStateId m x × (d ≢ 0 → is_descendant m x d ≡ done true)) (Up d)
          (λ x f p q. ancestors-Up d x f p.0 p.1 q) r one.result states one.entry in
      record {
        result = two.result;
        returns = rw (found, one.returns, domain, effective) two.returns;
        entry = two.entry;
        grows = λ x h. two.grows x (one.grows x h);
        reached = λ y q. elim (Entered-cases tid t d r found domain resolved y q) [
          | inl direct ↦ two.grows y (one.reached y direct)
          | inr above ↦ two.reached y above
        ];
      }

  -- In a well-formed machine whose initial and history targets lie where SCXML wants them,
  -- `computeEntrySet` returns for every list of its transitions. What it enters are states, each
  -- once; among them are the states that the targets stand for and all their ancestors below the
  -- transition's domain, and what was to be entered before.
  pub compute_entry_set-Enters :
      (l : List ℕ) (e : EntrySets)
      → All (IsTransitionId m) l
      → IsEntry m e
      → Enters m e
          (compute_entry_set m hist l e)
          (λ y. (tid : ℕ) × (contains tid l ≡ true) × Entered w hist tid y)
  unfolding compute_entry_set
  compute_entry_set-Enters l e i u =
      each-Enters (enter_transition m hist all_rounds) (IsTransitionId m) (Entered w hist)
        enter_transition-Enters l e i u
