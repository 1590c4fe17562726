-- ===== src/Examples/Selections.antt =====
-- The theorems on event names, final states and domains of src/fsm.rs at concrete inputs.
use r_fsm.Prelude.{
  not, ◌&&◌, none, ℕ, zero, suc, List, [], ◌∷◌, true, false, done, All, contains, ◌==◌, ◌≡◌, ◌≢◌,
  refl, sym, arith, inl, inr, ◌⊎◌, ◌↔◌,
}
use mathlib.Core.Path.{subst}
use r_fsm.Collections.OrderedSet.{OrderedSet}
use r_fsm.Collections.SeqList.Deciding.{Decides}
use r_fsm.Fsm.Types.{State, Text, Transition, get_state_by_id, get_transition_by_id}
use r_fsm.Fsm.Tree.{is_descendant}
use r_fsm.Fsm.Tree.Chain.{state_id_bounds, done-injective}
use r_fsm.Fsm.Domain.{get_effective_target_states, get_transition_domain}
use r_fsm.Collections.HashTable
use r_fsm.Collections.SeqList
use r_fsm.Collections.OrderedSet
use r_fsm.Fsm.Tree
use r_fsm.Fsm.Domain
use r_fsm.Fsm.Domain.Scope.{targets-below-domain}
use r_fsm.Fsm.Selection.{name_match}
use r_fsm.Fsm.Exit.Members.{IsTransitionId}
use r_fsm.Fsm.Selection.{Conditions, no_texts, select_transitions, select_eventless_transitions}
use r_fsm.Fsm.Selection.Returns.{
  HasTransitions, Selected, select_transitions-Selected, select_eventless_transitions-Selected,
}
use r_fsm.Fsm.Selection.Names.{MatchesOne, name_match-Matches, name_match-two_bytes}
use r_fsm.Fsm.Final.{is_in_final_state}
use r_fsm.Fsm.Final.Decided.{HasParents, InFinal, is_in_final_state-Decides}
use r_fsm.Fsm.Entry.{compute_entry_set, entry_rounds}
use r_fsm.Examples.Machine.{machine, machine-tree, machine-IsWellFormed, no_history, transition}

abbrev on_event : List Text → Transition
on_event events = record (transition 20 2 4) { events = events }

-- "a.b" and the descriptors "a" and "ä".
name_match-Matches_example :
    (name_match (on_event ((0x61 ∷ []) ∷ [])) (0x61 ∷ 0x2e ∷ 0x62 ∷ []) ≡ true) ↔ (
      ((on_event ((0x61 ∷ []) ∷ [])).wildcard ≡ true)
      ⊎ MatchesOne (0x61 ∷ 0x2e ∷ 0x62 ∷ []) ((0x61 ∷ []) ∷ []))
name_match-Matches_example =
    name_match-Matches (on_event ((0x61 ∷ []) ∷ [])) (0x61 ∷ 0x2e ∷ 0x62 ∷ [])
      ((omega arith, tt), tt)

name_match-two_bytes_example :
    name_match (on_event ((0xe4 ∷ []) ∷ [])) (0xe4 ∷ 0x2e ∷ 0x62 ∷ []) ≡ false
name_match-two_bytes_example =
    name_match-two_bytes (on_event ((0xe4 ∷ []) ∷ [])) 0xe4 0x62 [] (omega arith) (omega arith) refl
      refl refl

nothing : false ≡ true → ⊥
nothing e = cc

same_id : (c d : ℕ) → (d == c) ≡ true → d ≡ c
same_id c d h = ground (arith, h)

pub pair : (a b c : ℕ) → contains c (a ∷ b ∷ []) ≡ true → (a ≡ c) ⊎ (b ≡ c)
pair a b c h = ground (arith, h)

pub HasParent : ℕ → ℕ → Type 0
HasParent s c = (ct : State) × (get_state_by_id machine c ≡ done ct) × (ct.parent ≡ s)

children1 : (c : ℕ) → contains c (2 ∷ 3 ∷ []) ≡ true → HasParent 1 c
unfolding HasParent get_state_by_id
children1 c k = elim (pair 2 3 c k) [
  | inl one ↦ subst (HasParent 1) one (_, refl, refl)
  | inr two ↦ subst (HasParent 1) two (_, refl, refl)
]

children2 : (c : ℕ) → contains c (4 ∷ 5 ∷ []) ≡ true → HasParent 2 c
unfolding HasParent get_state_by_id
children2 c k = elim (pair 4 5 c k) [
  | inl one ↦ subst (HasParent 2) one (_, refl, refl)
  | inr two ↦ subst (HasParent 2) two (_, refl, refl)
]

children3 : (c : ℕ) → contains c (6 ∷ 7 ∷ []) ≡ true → HasParent 3 c
unfolding HasParent get_state_by_id
children3 c k = elim (pair 6 7 c k) [
  | inl one ↦ subst (HasParent 3) one (_, refl, refl)
  | inr two ↦ subst (HasParent 3) two (_, refl, refl)
]

pub machine-HasParents : HasParents machine
unfolding get_state_by_id HasParent
machine-HasParents zero st g c k = cc
machine-HasParents (suc zero) st g c k =
    children1 c (subst (λ (q : State). contains c q.states ≡ true) (sym (done-injective g)) k)
machine-HasParents (suc (suc zero)) st g c k =
    children2 c (subst (λ (q : State). contains c q.states ≡ true) (sym (done-injective g)) k)
machine-HasParents (suc (suc (suc zero))) st g c k =
    children3 c (subst (λ (q : State). contains c q.states ≡ true) (sym (done-injective g)) k)
machine-HasParents (suc (suc (suc (suc zero)))) st g c k =
    absurd (nothing (subst (λ (q : State). contains c q.states ≡ true) (sym (done-injective g)) k))
machine-HasParents (suc (suc (suc (suc (suc zero))))) st g c k =
    absurd (nothing (subst (λ (q : State). contains c q.states ≡ true) (sym (done-injective g)) k))
machine-HasParents (suc (suc (suc (suc (suc (suc zero)))))) st g c k =
    absurd (nothing (subst (λ (q : State). contains c q.states ≡ true) (sym (done-injective g)) k))
machine-HasParents (suc (suc (suc (suc (suc (suc (suc zero))))))) st g c k =
    absurd (nothing (subst (λ (q : State). contains c q.states ≡ true) (sym (done-injective g)) k))
machine-HasParents (suc (suc (suc (suc (suc (suc (suc (suc zero)))))))) st g c k =
    absurd (nothing (subst (λ (q : State). contains c q.states ≡ true) (sym (done-injective g)) k))
machine-HasParents (suc (suc (suc (suc (suc (suc (suc (suc (suc n))))))))) st g c k = absurd (
    omega
      (arith, state_id_bounds machine (suc (suc (suc (suc (suc (suc (suc (suc (suc n))))))))) g))

is_in_final_state-Decides_example :
    Decides
      (is_in_final_state machine (1 ∷ 3 ∷ 6 ∷ 7 ∷ []) 3)
      (InFinal machine (1 ∷ 3 ∷ 6 ∷ 7 ∷ []) 3)
is_in_final_state-Decides_example =
    is_in_final_state-Decides machine machine-tree machine-HasParents (1 ∷ 3 ∷ 6 ∷ 7 ∷ []) 3
      (omega arith)

targets-below-domain_example :
    (r : OrderedSet) × (d : ℕ) × (get_effective_target_states machine [] (transition 13 6 8)
      ≡ done r)
    × (get_transition_domain machine [] (transition 13 6 8) ≡ done d)
    × (d ≢ 0 → All (λ s. is_descendant machine s d ≡ done true) r)
targets-below-domain_example =
    targets-below-domain machine-IsWellFormed [] (transition 13 6 8) no_history (omega arith)
      (omega arith)

-- The entry into the parallel state 3, from the outside.
entered :
    compute_entry_set machine []
      (11 ∷ [])
      (record { states_to_enter = []; states_for_default_entry = []; default_history_content = [] })
    ≡ done (record {
      states_to_enter = 3 ∷ 6 ∷ 7 ∷ [];
      states_for_default_entry = [];
      default_history_content = [];
    })
unfolding compute_entry_set entry_rounds get_transition_by_id HashTable.lookup get_state_by_id
    Tree.is_history_state Tree.is_compound_state Tree.is_parallel_state Tree.get_child_states
    SeqList.push_set SeqList.some OrderedSet.add is_descendant Tree.rounds get_transition_domain
    get_effective_target_states OrderedSet.is_empty Domain.find_lcca SeqList.head SeqList.append
    Tree.get_proper_ancestors HashTable.has SeqList.every SeqList.filter_by SeqList.push
    SeqList.tail OrderedSet.to_list Tree.is_compound_state_or_scxml_element OrderedSet.is_member
entered = refl

-- A data model without state, in which every condition fails with an error.
abbrev failing : Conditions
failing = record {
  Model = ℕ;
  execute_condition = λ d text. (d, none);
  internal_error_execution = λ d. suc d;
}

listed :
    (s : ℕ) (st : State)
    → get_state_by_id machine s ≡ done st
    → All (IsTransitionId machine) st.transitions
unfolding get_state_by_id get_transition_by_id HashTable.lookup
listed zero st g = cc
listed (suc zero) st g =
    subst (λ (q : State). All (IsTransitionId machine) q.transitions) (done-injective g) tt
listed (suc (suc zero)) st g =
    subst (λ (q : State). All (IsTransitionId machine) q.transitions) (done-injective g) tt
listed (suc (suc (suc zero))) st g =
    subst (λ (q : State). All (IsTransitionId machine) q.transitions) (done-injective g) tt
listed (suc (suc (suc (suc zero)))) st g =
    subst (λ (q : State). All (IsTransitionId machine) q.transitions) (done-injective g) tt
listed (suc (suc (suc (suc (suc zero))))) st g =
    subst (λ (q : State). All (IsTransitionId machine) q.transitions) (done-injective g) tt
listed (suc (suc (suc (suc (suc (suc zero)))))) st g =
    subst (λ (q : State). All (IsTransitionId machine) q.transitions) (done-injective g) tt
listed (suc (suc (suc (suc (suc (suc (suc zero))))))) st g =
    subst (λ (q : State). All (IsTransitionId machine) q.transitions) (done-injective g) tt
listed (suc (suc (suc (suc (suc (suc (suc (suc zero)))))))) st g =
    subst (λ (q : State). All (IsTransitionId machine) q.transitions) (done-injective g)
      ((transition 12 8 4, refl), tt)
listed (suc (suc (suc (suc (suc (suc (suc (suc (suc n))))))))) st g = absurd (
    omega
      (arith, state_id_bounds machine (suc (suc (suc (suc (suc (suc (suc (suc (suc n))))))))) g))

pub machine-HasTransitions : HasTransitions machine
unfolding get_state_by_id get_transition_by_id HashTable.lookup
machine-HasTransitions = record { listed = listed; own_id = λ tid t e. ground arith }

select_transitions-Selected_example :
    (r : OrderedSet) × (d' : ℕ) × (select_transitions failing machine
        (0x61 ∷ [])
        []
        (1 ∷ 2 ∷ 4 ∷ [])
        0
      ≡ done (r, d'))
    × Selected machine []
        (1 ∷ 2 ∷ 4 ∷ [])
        (λ t. not (no_texts t.events) && name_match t (0x61 ∷ []))
        r
select_transitions-Selected_example =
    select_transitions-Selected machine-IsWellFormed machine-HasTransitions failing []
      (1 ∷ 2 ∷ 4 ∷ []) 0 (0x61 ∷ []) no_history (omega arith)

select_eventless_transitions-Selected_example :
    (r : OrderedSet) × (d' : ℕ) × (select_eventless_transitions failing machine []
        (1 ∷ 2 ∷ 4 ∷ [])
        0
      ≡ done (r, d'))
    × Selected machine [] (1 ∷ 2 ∷ 4 ∷ []) (λ t. no_texts t.events) r
select_eventless_transitions-Selected_example =
    select_eventless_transitions-Selected machine-IsWellFormed machine-HasTransitions failing []
      (1 ∷ 2 ∷ 4 ∷ []) 0 no_history (omega arith)
