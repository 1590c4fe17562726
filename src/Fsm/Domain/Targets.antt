-- ===== src/Fsm/Domain/Targets.antt =====
-- `getEffectiveTargetStates` of src/fsm.rs: it returns the states that the targets stand for.
use r_fsm.Prelude.{
  ℕ, zero, suc, ◌<◌, List, [], ◌∷◌, Run, done, ◌>>=◌, if◌then◌else◌, length, All, ◌≡◌, refl, ◌∙◌,
  arith, Bool-cases, Option-cases, inl, inr,
}
use r_fsm.Collections.OrderedSet
use r_fsm.Collections.OrderedSet.{OrderedSet}
use r_fsm.Collections.OrderedSet.Laws.{contains-add, contains-union, add-IsSetOf, union-IsSetOf}
use r_fsm.Collections.HashTable
use r_fsm.Fsm.Types.{Fsm, Transition}
use r_fsm.Fsm.Tree.{is_history_state, not_none, rounds}
use r_fsm.Fsm.Tree.Chain.{Chain-state}
use r_fsm.Fsm.Tree.Order.{IsStateId, All-weaken}
use r_fsm.Fsm.WellFormed.{IsWellFormed, IsHistoryOf}
use r_fsm.Fsm.Domain.{
  HistoryTable, effective_targets, target_loop, history_targets, get_effective_target_states,
}
use r_fsm.Fsm.Domain.Resolved.{
  Adds, Collected, Collected-step, IsResolved, Stands, Stands-default, Stands-plain,
  Stands-recorded,
}

module _ {m : Fsm} (w : IsWellFormed m) (hist : HistoryTable) (v : IsHistoryOf m hist)
    (rec : Transition → Run OrderedSet) (fuel : ℕ)
    (recurs : (t : Transition)
      → All (IsStateId m) t.target
      → All (λ x. w.rank x < fuel) t.target
      → (r : OrderedSet) × (rec t ≡ done r) × IsResolved m hist t.target r) where
  abbrev one_target : ℕ → OrderedSet → Run OrderedSet
  one_target sid acc = is_history_state m sid >>= λ b.
      (if b then history_targets rec m hist sid acc else done (OrderedSet.add acc sid))

  -- One round of the loop, whatever kind of state the target is.
  one_target_lem :
      (sid : ℕ) (acc : OrderedSet)
      → IsStateId m sid
      → w.rank sid < suc fuel
      → (s : OrderedSet) × (acc' : OrderedSet) × (one_target sid acc ≡ done acc')
        × Stands m hist sid s
        × Adds acc s acc'
  unfolding is_history_state history_targets HashTable.has HashTable.get
  one_target_lem sid acc i k =
      let (st, g, above) = Chain-state (w.tree.line sid i) refl in
      elim (Bool-cases (not_none st.history_type)) [
        | inr n ↦ (
          sid ∷ [],
          OrderedSet.add acc sid,
          rw (g, n) refl,
          Stands-plain g n i,
          record {
            members = λ e. contains-add e sid acc ∙ ground arith;
            distinct = add-IsSetOf sid acc;
          },
        )
        | inl n ↦ elim (Option-cases (HashTable.lookup sid hist)) [
          | inr (s, l) ↦ (
            s,
            OrderedSet.union acc s,
            rw (g, n, l) refl,
            Stands-recorded g n l (v.stored sid s l),
            record { members = λ e. contains-union e acc s; distinct = union-IsSetOf acc s },
          )
          | inl l ↦
              let d = w.defaults sid st g n in
              let (r, e, res) = recurs d.transition (w.targets d.tid d.transition d.found) (
                All-weaken (λ x. w.rank x < w.rank sid) (λ x. w.rank x < fuel) d.transition.target
                  (λ x lt. omega arith) d.smaller) in
              (
                r,
                OrderedSet.union acc r,
                rw (g, n, l, d.first, d.found, e) refl,
                Stands-default g n l d.first d.found res,
                record { members = λ e. contains-union e acc r; distinct = union-IsSetOf acc r },
              )
        ]
      ]

  target_loop_lem :
      (l : List ℕ) (acc : OrderedSet)
      → All (IsStateId m) l
      → All (λ x. w.rank x < suc fuel) l
      → (r : OrderedSet) × (target_loop rec m hist l acc ≡ done r) × Collected m hist acc l r
  unfolding target_loop
  target_loop_lem [] acc i k = (
    acc,
    refl,
    record { sound = λ e h. inl h; keeps = λ e h. h; complete = λ e x h. cc; distinct = λ h. h },
  )
  target_loop_lem (sid ∷ l) acc (i, is) (k, ks) =
      let (s, acc', e, stands, adds) = one_target_lem sid acc i k in
      let (r, e', rest) = target_loop_lem l acc' is ks in
      (r, ground (arith, e, e'), Collected-step sid acc s acc' l r stands adds rest)

Collected-IsResolved :
    (m : Fsm) (hist : HistoryTable) (l : List ℕ) (r : OrderedSet)
    → Collected m hist [] l r
    → IsResolved m hist l r
Collected-IsResolved m hist l r all = record {
  sound = λ e h. elim (all.sound e h) [ inl k ↦ cc | inr (x, c, res, i) ↦ (x, c, res) ];
  complete = all.complete;
  distinct = all.distinct refl;
  states = λ e h. elim (all.sound e h) [ inl k ↦ cc | inr (x, c, res, i) ↦ i ];
}

module _ {m : Fsm} (w : IsWellFormed m) (hist : HistoryTable) (v : IsHistoryOf m hist) where
  no_targets :
      (l : List ℕ)
      → All (λ x. w.rank x < 0) l
      → (r : OrderedSet) × (target_loop (effective_targets m hist 0) m hist l [] ≡ done r)
        × IsResolved m hist l r
  unfolding target_loop
  no_targets [] k = (
    [],
    refl,
    record { sound = λ e h. cc; complete = λ e x h. cc; distinct = refl; states = λ e h. cc },
  )
  no_targets (x ∷ l) k = absurd (omega (arith, k.0))

  effective_lem :
      (fuel : ℕ) (t : Transition)
      → All (IsStateId m) t.target
      → All (λ x. w.rank x < fuel) t.target
      → (r : OrderedSet) × (effective_targets m hist (suc fuel) t ≡ done r)
        × IsResolved m hist t.target r
  unfolding effective_targets
  effective_lem zero t i k = let (r, e, nothing) = no_targets t.target k in (r, e, nothing)
  effective_lem (suc fuel) t i k =
      let (r, e, all) =
        target_loop_lem w hist v (effective_targets m hist (suc fuel)) fuel (effective_lem fuel)
          t.target [] i k in
      (r, e, Collected-IsResolved m hist t.target r all)

  -- The recursion through default transitions ends, and its result is the set of the states that
  -- the targets stand for, each once.
  pub get_effective_target_states-IsResolved :
      (t : Transition)
      → All (IsStateId m) t.target
      → (r : OrderedSet) × (get_effective_target_states m hist t ≡ done r)
        × IsResolved m hist t.target r
  unfolding get_effective_target_states rounds
  get_effective_target_states-IsResolved t i = effective_lem (length m.states) t i (
      All-weaken (IsStateId m) (λ x. w.rank x < length m.states) t.target (λ x ok. w.rank_lt x ok)
        i)
