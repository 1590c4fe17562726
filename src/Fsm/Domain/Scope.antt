-- ===== src/Fsm/Domain/Scope.antt =====
-- `getTransitionDomain` of src/fsm.rs: it returns, and the domain contains what the transition
-- leaves and enters.
use r_fsm.Prelude.{
  ℕ, [], ◌∷◌, true, false, done, All, ◌≡◌, ◌≢◌, refl, sym, ap, arith, Bool-cases, inl, inr, ◌⊎◌,
}
use mathlib.Core.Path.{subst}
use r_fsm.Collections.OrderedSet.{OrderedSet}
use r_fsm.Collections.OrderedSet.Laws.{is_empty-cons, is_empty-nil}
use r_fsm.Collections.SeqList.Laws.{append_lem}
use r_fsm.Fsm.Types.{Fsm, Transition, TransitionType}
use r_fsm.Fsm.Tree.{is_descendant, is_compound_state}
use r_fsm.Fsm.Tree.Chain.{Chain-state}
use r_fsm.Fsm.Tree.Order.{IsStateId, All-of_members}
use r_fsm.Fsm.WellFormed.{IsWellFormed, IsHistoryOf}
use r_fsm.Fsm.Domain.{
  HistoryTable, get_effective_target_states, get_transition_domain, stays_inside, is_internal,
}
use r_fsm.Fsm.Domain.Lcca.{
  IsLeast, find_lcca-IsLeast, every_below, all_below, all_below-All, All-all_below,
}
use r_fsm.Fsm.Domain.Targets.{get_effective_target_states-IsResolved}
use r_fsm.Fsm.Domain.Resolved.{IsResolved}

-- An internal transition whose source is compound and above all states `r`.
abbrev Inner : Fsm → Transition → OrderedSet → Type 0
Inner m t r =
    (t.transition_type ≡ TransitionType.internal)
    × (is_compound_state m t.source ≡ done true)
    × All (λ s. is_descendant m s t.source ≡ done true) r

-- The domain `d` of a transition whose targets stand for the states `r`.
pub data IsDomain (m : Fsm) (w : IsWellFormed m) (t : Transition) (r : OrderedSet) (d : ℕ)
    : Type 0 where
  targetless : r ≡ [] → d ≡ 0 → IsDomain m w t r d
  inside : r ≢ [] → Inner m t r → d ≡ t.source → IsDomain m w t r d
  outside : r ≢ [] → ¬ Inner m t r → IsLeast w.tree (t.source ∷ r) d → IsDomain m w t r d

module _ {m : Fsm} (w : IsWellFormed m) where
  compound_returns :
      (s : ℕ)
      → IsStateId m s
      → (is_compound_state m s ≡ done true) ⊎ (is_compound_state m s ≡ done false)
  unfolding is_compound_state
  compound_returns s i =
      let (st, e, above) = Chain-state (w.tree.line s i) refl in rw e (ground arith)

  stays_inside_lem :
      (t : Transition) (r : OrderedSet)
      → IsStateId m t.source
      → All (IsStateId m) r
      → (stays_inside m t r ≡ done false) ⊎ (stays_inside m t r ≡ done true) × Inner m t r
  unfolding stays_inside
  stays_inside_lem t r i j = elim (Bool-cases (is_internal t.transition_type)) [
    | inr no_type ↦ inl (rw no_type)
    | inl type ↦ elim (compound_returns t.source i) [
      | inr simple ↦ inl (rw (type, simple))
      | inl compound ↦ elim (Bool-cases (all_below w.tree t.source r)) [
        | inr miss ↦ inl (rw (type, compound, every_below w.tree t.source r j) (ap done miss))
        | inl hit ↦ inr (
          rw (type, compound, every_below w.tree t.source r j) (ap done hit),
          (ground arith, compound, all_below-All w.tree t.source r j hit),
        )
      ]
    ]
  ]

  not-Inner :
      (t : Transition) (r : OrderedSet)
      → All (IsStateId m) r
      → stays_inside m t r ≡ done false
      → ¬ Inner m t r
  unfolding stays_inside
  not-Inner t r j out (type, compound, below) =
      let hit = All-all_below w.tree t.source r j below in
      let inner : stays_inside m t r ≡ done true =
        rw (type, compound, every_below w.tree t.source r j) (ap done hit) in
      cc

  IsDomain-of :
      (hist : HistoryTable) (t : Transition) (r : OrderedSet)
      → get_effective_target_states m hist t ≡ done r
      → IsStateId m t.source
      → All (IsStateId m) r
      → (d : ℕ) × (get_transition_domain m hist t ≡ done d) × IsDomain m w t r d
  unfolding get_transition_domain
  IsDomain-of hist t [] e i j = (0, rw (e, is_empty-nil) refl, targetless refl refl)
  IsDomain-of hist t (x ∷ r) e i j = elim (stays_inside_lem t (x ∷ r) i j) [
    | inr (inner, all) ↦
        (t.source, rw (e, is_empty-cons x r, inner) refl, inside (λ z. cc) all refl)
    | inl outer ↦
        let (d, f, least) = find_lcca-IsLeast w.tree t.source (x ∷ r) i j in
        (
          d,
          rw (e, is_empty-cons x r, outer, append_lem (t.source ∷ []) (x ∷ r)) f,
          outside (λ z. cc) (not-Inner t (x ∷ r) j outer) least,
        )
  ]

  -- `getTransitionDomain` returns 0 for a transition without targets, the source for an internal
  -- transition that stays inside its compound source, and the least common compound ancestor of
  -- the source and the targets otherwise.
  pub get_transition_domain-IsDomain :
      (hist : HistoryTable) (t : Transition)
      → IsHistoryOf m hist
      → IsStateId m t.source
      → All (IsStateId m) t.target
      → (r : OrderedSet) × (d : ℕ) × IsResolved m hist t.target r
        × (get_transition_domain m hist t ≡ done d)
        × IsDomain m w t r d
  get_transition_domain-IsDomain hist t v i j =
      let (r, e, resolved) = get_effective_target_states-IsResolved w hist v t j in
      let (d, f, domain) =
        IsDomain-of hist t r e i (All-of_members (IsStateId m) r resolved.states) in
      (r, d, resolved, f, domain)

  below_domain :
      (t : Transition) (r : OrderedSet) (d : ℕ)
      → IsDomain m w t r d
      → d ≢ 0
      → All (λ s. is_descendant m s d ≡ done true) r
  below_domain t r d (targetless e z) n = absurd (n z)
  below_domain t r d (inside some_target inner e) n =
      subst (λ x. All (λ s. is_descendant m s x ≡ done true) r) (sym e) inner.2
  below_domain t r d (outside some_target beyond (inl (z, alone))) n = absurd (n z)
  below_domain t r d (outside some_target beyond (inr (common, least))) n = common.1.1

  -- `getEffectiveTargetStates` and `getTransitionDomain` return, and if there is a domain (not 0),
  -- each effective target state is a descendant of it.
  pub targets-below-domain :
      (hist : HistoryTable) (t : Transition)
      → IsHistoryOf m hist
      → IsStateId m t.source
      → All (IsStateId m) t.target
      → (r : OrderedSet) × (d : ℕ) × (get_effective_target_states m hist t ≡ done r)
        × (get_transition_domain m hist t ≡ done d)
        × (d ≢ 0 → All (λ s. is_descendant m s d ≡ done true) r)
  targets-below-domain hist t v i j =
      let (r, e, resolved) = get_effective_target_states-IsResolved w hist v t j in
      let (d, f, domain) =
        IsDomain-of hist t r e i (All-of_members (IsStateId m) r resolved.states) in
      (r, d, e, f, λ n. below_domain t r d domain n)
