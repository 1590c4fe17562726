-- ===== src/Fsm/Final/Decided.antt =====
-- `isInFinalState` of src/fsm.rs answers for each state of a tree, and what its answer means.
use r_fsm.Prelude.{
  ℕ, zero, suc, ◌+◌, ◌<◌, List, [], ◌∷◌, Bool, true, false, not, ◌&&◌, ◌||◌, done, if◌then◌else◌,
  ◌==◌, contains, length, ◌≡◌, refl, sym, ap, ◌∙◌, arith, inl, inr, ◌⊎◌, Bool-cases,
}
use mathlib.Core.Path.{subst}
use r_fsm.Collections.OrderedSet
use r_fsm.Collections.OrderedSet.{OrderedSet}
use r_fsm.Collections.SeqList
use r_fsm.Collections.SeqList.Deciding.{Decides, every-Decides, some-Decides, true-not_false}
use r_fsm.Collections.SeqList.Laws.{push_set_lem}
use r_fsm.Fsm.Types.{State, Fsm, get_state_by_id}
use r_fsm.Fsm.Tree.{
  get_child_states, is_compound_state, is_parallel_state, is_final_state_id, no_ids, rounds,
}
use r_fsm.Fsm.Tree.Chain.{Chain, Chain-state, state_id_bounds, Chain-length, done-injective}
use r_fsm.Fsm.Tree.Order.{IsTree, IsStateId}
use r_fsm.Fsm.Final.{in_final_state, is_in_final_state, final_and_active}

-- Each child of a state is a state, and has it as its parent.
abbrev pub HasParents : Fsm → Type 0
HasParents m =
    (s : ℕ) (st : State)
    → get_state_by_id m s ≡ done st
    → (c : ℕ) → contains c st.states ≡ true
    → (ct : State) × (get_state_by_id m c ≡ done ct) × (ct.parent ≡ s)

-- A compound state with an active final child, or a parallel state, all of whose children are so.
pub data InFinal (m : Fsm) (configuration : OrderedSet) : ℕ → Type 0 where
  by_child :
      {s : ℕ} {st : State}
      → get_state_by_id m s ≡ done st
      → is_compound_state m s ≡ done true
      → (c : ℕ) → contains c st.states ≡ true
      → is_final_state_id m c ≡ done true
      → contains c configuration ≡ true
      → InFinal m configuration s
  by_children :
      {s : ℕ} {st : State}
      → get_state_by_id m s ≡ done st
      → is_compound_state m s ≡ done false
      → st.is_parallel ≡ true
      → ((c : ℕ) → contains c st.states ≡ true → InFinal m configuration c)
      → InFinal m configuration s

module _ (m : Fsm) (t : IsTree m) (parents : HasParents m) (configuration : OrderedSet) where
  both : {a b : Bool} → (a && b) ≡ true → (a ≡ true) × (b ≡ true)
  both {a = true} {b = true} h = (refl, refl)
  both {a = true} {b = false} h = cc
  both {a = false} h = cc

  active-Decides :
      (c : ℕ) (ct : State)
      → get_state_by_id m c ≡ done ct
      → Decides
          (final_and_active m configuration c)
          ((is_final_state_id m c ≡ done true) × (contains c configuration ≡ true))
  unfolding final_and_active is_final_state_id OrderedSet.is_member
  active-Decides c ct g = record {
    answer = ct.is_final && contains c configuration;
    returns = rw g;
    means =
        rw g (λ a. (ap done (both a).0, (both a).1), λ q. ground (arith, done-injective q.0, q.1));
  }

  in_final_state-compound :
      (fuel s : ℕ) (st : State)
      → get_state_by_id m s ≡ done st
      → is_compound_state m s ≡ done true
      → in_final_state m configuration (suc fuel) s
        ≡ SeqList.some (final_and_active m configuration) st.states
  unfolding in_final_state get_child_states
  in_final_state-compound fuel s st g c = rw (c, g, push_set_lem [] st.states)

  in_final_state-plain :
      (fuel s : ℕ) (st : State)
      → get_state_by_id m s ≡ done st
      → is_compound_state m s ≡ done false
      → in_final_state m configuration (suc fuel) s ≡ (
          if st.is_parallel
          then SeqList.every (in_final_state m configuration fuel) st.states
          else done false)
  unfolding in_final_state get_child_states is_parallel_state
  in_final_state-plain fuel s st g c =
      let some_id : (s == 0) ≡ false = ground (arith, state_id_bounds m s g) in
      rw (c, some_id, g, push_set_lem [] st.states)

  compound-Decides :
      (s : ℕ) (st : State)
      → get_state_by_id m s ≡ done st
      → (is_compound_state m s ≡ done true) ⊎ (is_compound_state m s ≡ done false)
  unfolding is_compound_state
  compound-Decides s st g =
      let some_id : (s == 0) ≡ false = ground (arith, state_id_bounds m s g) in
      rw (some_id, g)
        (elim (Bool-cases (not (st.is_final || st.is_parallel || no_ids st.states))) [
          | inl compound ↦ inl (ap done compound)
          | inr plain ↦ inr (ap done plain)
        ])

  InFinal-compound :
      {s : ℕ} {st : State}
      → get_state_by_id m s ≡ done st
      → is_compound_state m s ≡ done true
      → InFinal m configuration s
      → (c : ℕ) × (contains c st.states ≡ true)
        × (is_final_state_id m c ≡ done true)
        × (contains c configuration ≡ true)
  InFinal-compound g k (by_child g' k' c child final active) =
      let same = done-injective (sym g' ∙ g) in
      (c, subst (λ (q : State). contains c q.states ≡ true) same child, final, active)
  InFinal-compound g k (by_children g' k' p all) =
      absurd (true-not_false (done-injective (sym k ∙ k')))

  InFinal-plain :
      {s : ℕ} {st : State}
      → get_state_by_id m s ≡ done st
      → is_compound_state m s ≡ done false
      → InFinal m configuration s
      → (st.is_parallel ≡ true)
        × ((c : ℕ) → contains c st.states ≡ true → InFinal m configuration c)
  InFinal-plain g k (by_child g' k' c child final active) =
      absurd (true-not_false (done-injective (sym k' ∙ k)))
  InFinal-plain g k (by_children g' k' p all) =
      let same = done-injective (sym g' ∙ g) in
      (
        subst (λ (q : State). q.is_parallel ≡ true) same p,
        λ c child. all c (subst (λ (q : State). contains c q.states ≡ true) (sym same) child),
      )

  in_final_state-Decides :
      (fuel s : ℕ) (l : List ℕ)
      → Chain m s (s ∷ l)
      → length m.states < fuel + length (s ∷ l)
      → Decides (in_final_state m configuration fuel s) (InFinal m configuration s)
  in_final_state-Decides zero s l chain bound = absurd (omega (arith, Chain-length chain))
  in_final_state-Decides (suc fuel) s l chain bound =
      let (st, g, above) = Chain-state chain refl in
      let children = parents s st g in
      let active =
        some-Decides (final_and_active m configuration) _ st.states
          (λ c k. active-Decides c (children c k).0 (children c k).1) in
      let finals =
        every-Decides (in_final_state m configuration fuel) (InFinal m configuration) st.states
          (λ c k.
            let (ct, gc, p) = children c k in
            in_final_state-Decides fuel c (s ∷ l)
              (Chain.up gc (subst (λ q. Chain m q (s ∷ l)) (sym p) chain))
              (omega (arith, bound))) in
      elim (compound-Decides s st g) [
        | inl compound ↦ record {
          answer = active.answer;
          returns = in_final_state-compound fuel s st g compound ∙ active.returns;
          means = (
            λ a. let (c, k, f) = active.means.0 a in by_child g compound c k f.0 f.1,
            λ q. let (c, k, f, b) = InFinal-compound g compound q in active.means.1 (c, k, (f, b)),
          );
        }
        | inr plain ↦ elim (Bool-cases st.is_parallel) [
          | inl parallel ↦ record {
            answer = finals.answer;
            returns = in_final_state-plain fuel s st g plain ∙ rw parallel finals.returns;
            means = (
              λ a. by_children g plain parallel (finals.means.0 a),
              λ q. finals.means.1 (InFinal-plain g plain q).1,
            );
          }
          | inr other ↦ record {
            answer = false;
            returns = in_final_state-plain fuel s st g plain ∙ rw other;
            means = (λ a. cc, λ q. sym other ∙ (InFinal-plain g plain q).0);
          }
        ]
      ]

  -- In a tree whose states are the parents of their children, the test returns for each state, and
  -- is true exactly if the state is compound with an active final child, or parallel and true for
  -- all its children.
  pub is_in_final_state-Decides :
      (s : ℕ)
      → IsStateId m s
      → Decides (is_in_final_state m configuration s) (InFinal m configuration s)
  unfolding is_in_final_state
  is_in_final_state-Decides s i =
      in_final_state-Decides (rounds m) s _ (t.line s i) (unfold rounds in omega arith)
