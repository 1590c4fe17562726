-- ===== src/Fsm/Entry/Returns.antt =====
-- The entry of a state in src/fsm.rs returns within the rounds that it is given.
use r_fsm.Prelude.{
  ℕ, zero, suc, ◌+◌, ◌≤◌, ◌<◌, List, true, false, not, ◌||◌, Run, done, All, length, ◌==◌, ◌≡◌,
  refl, sym, ◌∙◌, arith, Bool-cases, Option-cases, inl, inr,
}
use mathlib.Core.Path.{subst}
use r_fsm.Collections.HashTable
use r_fsm.Collections.OrderedSet
use r_fsm.Collections.OrderedSet.{OrderedSet}
use r_fsm.Fsm.Types.{State, Fsm, get_state_by_id}
use r_fsm.Fsm.Tree.{not_none, no_ids, is_parallel_state, is_compound_state, is_history_state}
use r_fsm.Fsm.Tree.Chain.{state_id_bounds, done-injective}
use r_fsm.Fsm.Tree.Order.{All-of_members, All-member}
use r_fsm.Fsm.WellFormed.{IsWellFormed}
use r_fsm.Fsm.Domain.Resolved.{Resolves, Resolves-proper, Resolves-recorded, Resolves-default}
use r_fsm.Fsm.Entry.{
  EntrySets, enter_history, enter_initial, enter_state, enter_kind, add_descendant_states_to_enter,
}
use r_fsm.Fsm.Entry.Enterable.{
  Below, IsProper, IsEnterable, IsRecorded, depth, room, Ready, Below-Ready, Proper-Ready,
}
use r_fsm.Fsm.Entry.Steps.{
  IsEntry, Enters, add-IsEntry, added_keeps, added_here, fill_children-Enters, enter_targets-Enters,
}

module _ {m : Fsm} (w : IsWellFormed m) (hist : List (ℕ × OrderedSet)) (n : IsEnterable w)
    (k : IsRecorded w hist) where
  abbrev Descends : ℕ → Type 0
  Descends fuel =
      (x : ℕ) (e : EntrySets)
      → Ready w fuel x
      → IsEntry m e
      → Enters m e (add_descendant_states_to_enter m hist fuel x e) (λ y. Resolves m hist y x)

  module _ (fuel : ℕ) (recurs : Descends fuel) (s : ℕ) (st : State)
      (g : get_state_by_id m s ≡ done st) where
    abbrev again : ℕ → EntrySets → Run EntrySets
    again = add_descendant_states_to_enter m hist fuel

    abbrev Stand : ℕ → ℕ → Type 0
    Stand x y = Resolves m hist y x

    enter_history-Enters :
        (e : EntrySets)
        → not_none st.history_type ≡ true
        → room w (depth w st.parent) + w.rank s ≤ fuel
        → IsEntry m e
        → Enters m e (enter_history m hist again s st e) (λ y. Resolves m hist y s)
    unfolding enter_history HashTable.has HashTable.get
    enter_history-Enters e h enough v = elim (Option-cases (HashTable.lookup s hist)) [
      | inr (l, kept) ↦
          let past = k s l kept in
          let same : past.state ≡ st = done-injective (sym past.found ∙ g) in
          let below = subst (λ (q : State). All (Below w.tree q.parent) l) same past.below in
          let proper = past.proper in
          let ready = All-of_members (Ready w fuel) l λ x c.
            Proper-Ready w fuel st.parent x (All-member (Below w.tree st.parent) x l below c)
              (All-member (IsProper m) x l proper c) (omega (arith, enough)) in
          let all =
            enter_targets-Enters w hist n fuel again Stand recurs st.parent l e
              (n.inner_history s st g h) (omega (arith, enough)) below ready v in
          record {
            result = all.result;
            returns = rw kept all.returns;
            entry = all.entry;
            grows = all.grows;
            reached = λ y q.
                let c = Resolves-recorded g h kept q in
                let (sy, gy, plain) = All-member (IsProper m) y l proper c in
                all.reached y (y, c, Resolves.plain gy plain);
          }
      | inl fresh ↦
          let d = w.defaults s st g h in
          let t = d.transition in
          let e' : EntrySets = record e {
            default_history_content = HashTable.put e.default_history_content st.parent t.content;
          } in
          let v' : IsEntry m e' = record {
            states = v.states;
            distinct = v.distinct;
            proper = v.proper;
          } in
          let below = n.default s st d.tid t g h d.first d.found in
          let ready = All-of_members (Ready w fuel) t.target λ x c.
            let smaller = All-member (λ x. w.rank x < w.rank s) x t.target d.smaller c in
            Below-Ready w fuel st.parent x (All-member (Below w.tree st.parent) x t.target below c)
              (omega (arith, enough, smaller)) in
          let all =
            enter_targets-Enters w hist n fuel again Stand recurs st.parent t.target e'
              (n.inner_history s st g h) (omega (arith, enough)) below ready v' in
          record {
            result = all.result;
            returns = rw (fresh, d.first, d.found) all.returns;
            entry = all.entry;
            grows = all.grows;
            reached = λ y q. all.reached y (Resolves-default g h fresh d.first d.found q);
          }
    ]

    enter_state-Enters :
        (e : EntrySets)
        → not_none st.history_type ≡ false
        → room w (depth w s) + suc (length m.states) ≤ fuel
        → IsEntry m e
        → Enters m e (enter_state m hist again s st e) (λ y. Resolves m hist y s)
    unfolding enter_state enter_initial is_compound_state is_parallel_state
    enter_state-Enters e h enough v =
        let i = state_id_bounds m s g in
        let some_id : (s == 0) ≡ false = ground (arith, i) in
        let e' : EntrySets = record e { states_to_enter = OrderedSet.add e.states_to_enter s } in
        let v' = add-IsEntry s e i (st, g, h) v in
        let here : Enters m e (done e') (λ y. Resolves m hist y s) = record {
          result = e';
          returns = refl;
          entry = v';
          grows = λ x c. added_keeps x s e.states_to_enter c;
          reached = λ y q. added_here s y e.states_to_enter (Resolves-proper g h q);
        } in
        elim (Bool-cases (not (st.is_final || st.is_parallel || no_ids st.states))) [
          | inl compound ↦
              let e'' : EntrySets = record e' {
                states_for_default_entry = OrderedSet.add e.states_for_default_entry s;
              } in
              let v'' : IsEntry m e'' = record {
                states = v'.states;
                distinct = v'.distinct;
                proper = v'.proper;
              } in
              elim (Bool-cases (st.initial == 0)) [
                | inl bare ↦ record {
                  result = e'';
                  returns = rw (some_id, g, compound, bare);
                  entry = v'';
                  grows = here.grows;
                  reached = here.reached;
                }
                | inr led ↦
                    let (t, found, below) = n.initial s st g led in
                    let ready = All-of_members (Ready w fuel) t.target λ x c.
                      let b = All-member (Below w.tree s) x t.target below c in
                      Below-Ready w fuel s x b (omega (arith, enough, w.rank_lt x b.0)) in
                    let all =
                      enter_targets-Enters w hist n fuel again Stand recurs s t.target e'' i
                        (omega (arith, enough)) below ready v'' in
                    record {
                      result = all.result;
                      returns = rw (some_id, g, compound, led, found) all.returns;
                      entry = all.entry;
                      grows = λ x c. all.grows x (here.grows x c);
                      reached = λ y q. all.grows y (here.reached y q);
                    }
              ]
          | inr simple ↦ elim (Bool-cases st.is_parallel) [
            | inl parallel ↦
                let all =
                  fill_children-Enters w hist n fuel again Stand recurs s e' i
                    (omega (arith, enough)) v' in
                record {
                  result = all.result;
                  returns = rw (some_id, g, simple, parallel) all.returns;
                  entry = all.entry;
                  grows = λ x c. all.grows x (here.grows x c);
                  reached = λ y q. all.grows y (here.reached y q);
                }
            | inr other ↦ record {
              result = here.result;
              returns = rw (some_id, g, simple, other);
              entry = here.entry;
              grows = here.grows;
              reached = here.reached;
            }
          ]
        ]

  -- With the rounds that a state takes, its entry returns, and what the state stands for is entered.
  pub add_descendant-Enters : (fuel : ℕ) → Descends fuel
  unfolding add_descendant_states_to_enter enter_kind is_history_state
  add_descendant-Enters zero s e ready v = absurd (omega (arith, ready.enough))
  add_descendant-Enters (suc fuel) s e ready v =
      let st = ready.state in
      let g = ready.found in
      let recurs = add_descendant-Enters fuel in
      elim (Bool-cases (not_none st.history_type)) [
        | inl history ↦
            let room_left : room w (depth w st.parent) + w.rank s ≤ fuel =
              let q = rw history at ready.enough in omega (arith, q) in
            let all = enter_history-Enters fuel recurs s st g e history room_left v in
            record {
              result = all.result;
              returns = rw (g, history) all.returns;
              entry = all.entry;
              grows = all.grows;
              reached = all.reached;
            }
        | inr proper ↦
            let room_left : room w (depth w s) + suc (length m.states) ≤ fuel =
              let q = rw proper at ready.enough in omega (arith, q) in
            let all = enter_state-Enters fuel recurs s st g e proper room_left v in
            record {
              result = all.result;
              returns = rw (g, proper) all.returns;
              entry = all.entry;
              grows = all.grows;
              reached = all.reached;
            }
      ]
