-- ===== src/Fsm/WellFormed.antt =====
-- Well-formed machines and histories (src/fsm.rs): what the readers of a machine establish and
-- the algorithms rely on, since they `unwrap` every lookup.
use r_fsm.Prelude.{ℕ, ◌<◌, List, true, ◌≡◌, some, All, length, done}
use r_fsm.Collections.HashTable
use r_fsm.Collections.OrderedSet.{OrderedSet}
use r_fsm.Collections.SeqList
use r_fsm.Fsm.Types.{State, Transition, Fsm, get_state_by_id, get_transition_by_id}
use r_fsm.Fsm.Tree.{not_none}
use r_fsm.Fsm.Tree.Order.{IsTree, IsStateId}

-- A history state has a default transition, which exists, and whose targets have a smaller rank:
-- default transitions do not lead round in a circle of history states.
pub record HasDefault (m : Fsm) (rank : ℕ → ℕ) (s : ℕ) (st : State) : Type 0 where
  pub tid : ℕ
  pub transition : Transition
  pub first : SeqList.head st.transitions ≡ done tid
  pub found : get_transition_by_id m tid ≡ done transition
  pub smaller : All (λ x. rank x < rank s) transition.target

pub record IsWellFormed (m : Fsm) : Type 0 where
  pub tree : IsTree m
  pub source :
      (tid : ℕ) (t : Transition) → get_transition_by_id m tid ≡ done t → IsStateId m t.source
  pub targets :
      (tid : ℕ) (t : Transition) → get_transition_by_id m tid ≡ done t → All (IsStateId m) t.target
  pub rank : ℕ → ℕ
  pub rank_lt : (s : ℕ) → IsStateId m s → rank s < length m.states
  pub defaults :
      (s : ℕ) (st : State)
      → get_state_by_id m s ≡ done st
      → not_none st.history_type ≡ true
      → HasDefault m rank s st

-- A recorded history names states of the machine.
pub record IsHistoryOf (m : Fsm) (hist : List (ℕ × OrderedSet)) : Type 0 where
  pub stored : (h : ℕ) (s : OrderedSet) → HashTable.lookup h hist ≡ some s → All (IsStateId m) s
