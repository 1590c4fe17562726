-- ===== src/Examples/Entries.antt =====
-- The theorems on the entry set of src/fsm.rs at concrete inputs.
use r_fsm.Prelude.{
  ℕ, zero, suc, [], ◌∷◌, true, false, done, contains, All, ◌==◌, ◌≡◌, refl, sym, ap, ◌∙◌, arith,
}
use mathlib.Core.Path.{subst}
use r_fsm.Collections.HashTable
use r_fsm.Collections.SeqList
use r_fsm.Fsm.Types.{State, Transition, get_state_by_id, get_transition_by_id}
use r_fsm.Fsm.Tree.{not_none}
use r_fsm.Fsm.Tree.Chain.{state_id_bounds, done-injective}
use r_fsm.Fsm.Tree.Order.{IsStateId}
use r_fsm.Fsm.Entry.{EntrySets, compute_entry_set}
use r_fsm.Fsm.Entry.Enterable.{Below, IsProper, IsEnterable, IsRecorded}
use r_fsm.Fsm.Entry.Steps.{IsEntry, Enters}
use r_fsm.Fsm.Entry.Computes.{Entered, compute_entry_set-Enters}
use r_fsm.Examples.Machine.{machine, machine-tree, machine-IsWellFormed, ancestors}
use r_fsm.Examples.Selections.{machine-HasParents}

proper : (a : ℕ) → contains a (1 ∷ 2 ∷ 3 ∷ []) ≡ true → IsProper machine a
unfolding get_state_by_id
proper zero h = cc
proper (suc zero) h = (_, refl, refl)
proper (suc (suc zero)) h = (_, refl, refl)
proper (suc (suc (suc zero))) h = (_, refl, refl)
proper (suc (suc (suc (suc a)))) h = absurd (ground (arith, h))

inner : (x a : ℕ) → contains a (ancestors x) ≡ true → contains a (1 ∷ 2 ∷ 3 ∷ []) ≡ true
inner zero a h = cc
inner (suc zero) a h = cc
inner (suc (suc zero)) a h = ground (arith, h)
inner (suc (suc (suc zero))) a h = ground (arith, h)
inner (suc (suc (suc (suc zero)))) a h = ground (arith, h)
inner (suc (suc (suc (suc (suc zero))))) a h = ground (arith, h)
inner (suc (suc (suc (suc (suc (suc zero)))))) a h = ground (arith, h)
inner (suc (suc (suc (suc (suc (suc (suc zero))))))) a h = ground (arith, h)
inner (suc (suc (suc (suc (suc (suc (suc (suc n)))))))) a h = ground (arith, h)

pub no_initial :
    (s : ℕ) (st : State)
    → get_state_by_id machine s ≡ done st
    → (st.initial == 0) ≡ false
    → true ≡ false
unfolding get_state_by_id
no_initial zero st g h = cc
no_initial (suc zero) st g h = cc
no_initial (suc (suc zero)) st g h = cc
no_initial (suc (suc (suc zero))) st g h = cc
no_initial (suc (suc (suc (suc zero)))) st g h = cc
no_initial (suc (suc (suc (suc (suc zero))))) st g h = cc
no_initial (suc (suc (suc (suc (suc (suc zero)))))) st g h = cc
no_initial (suc (suc (suc (suc (suc (suc (suc zero))))))) st g h = cc
no_initial (suc (suc (suc (suc (suc (suc (suc (suc zero)))))))) st g h = cc
no_initial (suc (suc (suc (suc (suc (suc (suc (suc (suc n))))))))) st g h = absurd (
    omega
      (arith, state_id_bounds machine (suc (suc (suc (suc (suc (suc (suc (suc (suc n))))))))) g))

-- The only history state is 8.
pub only_history :
    (s : ℕ) (st : State)
    → get_state_by_id machine s ≡ done st
    → not_none st.history_type ≡ true
    → s ≡ 8
unfolding get_state_by_id
only_history zero st g h = cc
only_history (suc zero) st g h = cc
only_history (suc (suc zero)) st g h = cc
only_history (suc (suc (suc zero))) st g h = cc
only_history (suc (suc (suc (suc zero)))) st g h = cc
only_history (suc (suc (suc (suc (suc zero))))) st g h = cc
only_history (suc (suc (suc (suc (suc (suc zero)))))) st g h = cc
only_history (suc (suc (suc (suc (suc (suc (suc zero))))))) st g h = cc
only_history (suc (suc (suc (suc (suc (suc (suc (suc zero)))))))) st g h = refl
only_history (suc (suc (suc (suc (suc (suc (suc (suc (suc n))))))))) st g h = absurd (
    omega
      (arith, state_id_bounds machine (suc (suc (suc (suc (suc (suc (suc (suc (suc n))))))))) g))

pub machine-IsEnterable : IsEnterable machine-IsWellFormed
unfolding get_state_by_id get_transition_by_id HashTable.lookup SeqList.head
machine-IsEnterable = record {
  children = λ s st g c k. machine-HasParents s st g c k;
  initial = λ s st g h. absurd (ground (arith, no_initial s st g h));
  inner_history = λ s st g h. parent s st g (only_history s st g h);
  default = λ s st tid t g h f e. fallback s st tid t g f e (only_history s st g h);
  above = λ x a i h. proper a (inner x a h);
}
  where
    parent :
        (s : ℕ) (st : State)
        → get_state_by_id machine s ≡ done st
        → s ≡ 8
        → IsStateId machine st.parent
    parent s st g e =
        let same = done-injective (sym g ∙ ap (get_state_by_id machine) e) in
        subst (λ (q : State). IsStateId machine q.parent) (sym same) (omega arith)

    fallback :
        (s : ℕ) (st : State) (tid : ℕ) (t : Transition)
        → get_state_by_id machine s ≡ done st
        → SeqList.head st.transitions ≡ done tid
        → get_transition_by_id machine tid ≡ done t
        → s ≡ 8
        → All (Below machine-tree st.parent) t.target
    fallback s st tid t g f e h =
        let same = done-injective (sym g ∙ ap (get_state_by_id machine) h) in
        let first =
          done-injective
            (sym (subst (λ (q : State). SeqList.head q.transitions ≡ done tid) same f)) in
        let only = done-injective (sym e ∙ ap (get_transition_by_id machine) first) in
        subst (λ (q : State). All (Below machine-tree q.parent) t.target) (sym same)
          (subst (λ (q : Transition). All (Below machine-tree 2) q.target) (sym only)
            (((omega arith, omega arith), refl), tt))

pub nothing-IsRecorded : IsRecorded machine-IsWellFormed []
unfolding HashTable.lookup
nothing-IsRecorded = λ h l e. cc

abbrev pub nothing_entered : EntrySets
nothing_entered = record {
  states_to_enter = [];
  states_for_default_entry = [];
  default_history_content = [];
}

pub nothing-IsEntry : IsEntry machine nothing_entered
nothing-IsEntry = record { states = tt; distinct = refl; proper = tt }

-- The way into state 3 and the way through the history state 8.
compute_entry_set-Enters_example :
    Enters machine nothing_entered
      (compute_entry_set machine [] (11 ∷ 13 ∷ []) nothing_entered)
      (λ y.
        (tid : ℕ) × (contains tid (11 ∷ 13 ∷ []) ≡ true) × Entered machine-IsWellFormed [] tid y)
unfolding get_transition_by_id HashTable.lookup
compute_entry_set-Enters_example =
    compute_entry_set-Enters machine-IsWellFormed [] machine-IsEnterable nothing-IsRecorded
      (11 ∷ 13 ∷ []) nothing_entered ((_, refl), ((_, refl), tt)) nothing-IsEntry
