-- ===== src/Examples/Machines.antt =====
-- The theorems on the tree, on domains, on exit sets and on conflicts, at the small machine.
use r_fsm.Prelude.{
  ℕ, List, [], ◌∷◌, Bool, inr, true, false, done, ◌≡◌, ◌≢◌, ◌⊎◌, ◌↔◌, refl, arith, contains,
}
use r_fsm.Collections.HashTable
use r_fsm.Collections.OrderedSet.{OrderedSet}
use r_fsm.Collections.OrderedSet.Laws.{IsSetOf}
use r_fsm.Fsm.Types.{get_transition_by_id}
use r_fsm.Fsm.Tree.{is_descendant, get_proper_ancestors}
use r_fsm.Fsm.Tree.Ancestry.{Ancestor, is_descendant-Ancestor, get_proper_ancestors-Ancestor}
use r_fsm.Fsm.Domain.{find_lcca, get_effective_target_states, get_transition_domain}
use r_fsm.Fsm.Domain.Lcca.{IsLeast, find_lcca-IsLeast}
use r_fsm.Fsm.Domain.Targets.{get_effective_target_states-IsResolved}
use r_fsm.Fsm.Domain.Resolved.{IsResolved}
use r_fsm.Fsm.Domain.Scope.{IsDomain, get_transition_domain-IsDomain}
use r_fsm.Fsm.Exit.{compute_exit_set}
use r_fsm.Fsm.Exit.Members.{Leaves, compute_exit_set-Exited}
use r_fsm.Fsm.Conflicts.{remove_conflicting_transitions}
use r_fsm.Fsm.Conflicts.Disjoint.{remove_conflicting_transitions-apart}
use r_fsm.Fsm.Conflicts.Verdicts.{Conflict, Preempted}
use r_fsm.Examples.Machine.{machine, machine-tree, machine-IsWellFormed, no_history, transition}

found13 : get_transition_by_id machine 13 ≡ done (transition 13 6 8)
unfolding get_transition_by_id HashTable.lookup
found13 = refl

found11 : get_transition_by_id machine 11 ≡ done (transition 11 2 3)
unfolding get_transition_by_id HashTable.lookup
found11 = refl

is_descendant-Ancestor_example :
    (b : Bool) × (is_descendant machine 4 1 ≡ done b)
    × ((b ≡ true) ↔ Ancestor machine 1 4)
    × (is_descendant machine 4 4 ≡ done false)
is_descendant-Ancestor_example = is_descendant-Ancestor machine-tree 4 1 (omega arith)

get_proper_ancestors-Ancestor_example :
    (r : List ℕ) × (get_proper_ancestors machine 4 1 ≡ done r)
    × ((e : ℕ)
        → (contains e r ≡ true) ↔ (
            Ancestor machine e 4
            × (¬ Ancestor machine 4 1)
            × (Ancestor machine 1 4 → Ancestor machine 1 e)))
get_proper_ancestors-Ancestor_example =
    get_proper_ancestors-Ancestor machine-tree 4 1 (omega arith) (inr (omega arith))

find_lcca-IsLeast_example :
    (a : ℕ) × (find_lcca machine (4 ∷ 6 ∷ []) ≡ done a) × IsLeast machine-tree (4 ∷ 6 ∷ []) a
find_lcca-IsLeast_example = find_lcca-IsLeast machine-tree 4 (6 ∷ []) (omega arith) (omega arith)

get_effective_target_states-IsResolved_example :
    (r : OrderedSet) × (get_effective_target_states machine [] (transition 13 6 8) ≡ done r)
    × IsResolved machine [] (8 ∷ []) r
get_effective_target_states-IsResolved_example =
    get_effective_target_states-IsResolved machine-IsWellFormed [] no_history (transition 13 6 8)
      (omega arith)

get_transition_domain-IsDomain_example :
    (r : OrderedSet) × (d : ℕ) × IsResolved machine [] (8 ∷ []) r
    × (get_transition_domain machine [] (transition 13 6 8) ≡ done d)
    × IsDomain machine machine-IsWellFormed (transition 13 6 8) r d
get_transition_domain-IsDomain_example =
    get_transition_domain-IsDomain machine-IsWellFormed [] (transition 13 6 8) no_history
      (omega arith) (omega arith)

abbrev configuration : OrderedSet
configuration = 1 ∷ 3 ∷ 6 ∷ 7 ∷ []

compute_exit_set-Exited_example :
    (r : OrderedSet) × (compute_exit_set machine [] configuration (13 ∷ []) ≡ done r)
    × IsSetOf r
    × ((e : ℕ)
        → (contains e r ≡ true) ↔ (
            (contains e configuration ≡ true)
            × ((tid : ℕ) × (contains tid (13 ∷ []) ≡ true) × Leaves machine [] tid e)))
compute_exit_set-Exited_example =
    compute_exit_set-Exited machine-IsWellFormed [] no_history configuration (omega arith) (13 ∷ [])
      ((transition 13 6 8, found13), tt)

remove_conflicting_transitions-apart_example :
    (r : OrderedSet) × (remove_conflicting_transitions machine [] configuration (13 ∷ 11 ∷ [])
      ≡ done r)
    × IsSetOf r
    × ((e : ℕ) → contains e r ≡ true → contains e (13 ∷ 11 ∷ []) ≡ true)
    × ((x y : ℕ)
        → contains x r ≡ true
        → contains y r ≡ true
        → x ≢ y
        → ¬ Conflict machine [] configuration x y)
    × ((e : ℕ)
        → contains e (13 ∷ 11 ∷ []) ≡ true
        → (contains e r ≡ true)
          ⊎ ((y : ℕ) × (contains y (13 ∷ 11 ∷ []) ≡ true)
              × (e ≢ y)
              × Preempted machine [] configuration e y))
    × ((e : ℕ) → contains e (13 ∷ 11 ∷ []) ≡ true → (y : ℕ) × (contains y r ≡ true))
remove_conflicting_transitions-apart_example =
    remove_conflicting_transitions-apart machine-IsWellFormed [] no_history configuration
      (omega arith) (13 ∷ 11 ∷ []) refl
      ((transition 13 6 8, found13), ((transition 11 2 3, found11), tt))
