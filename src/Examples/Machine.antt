-- ===== src/Examples/Machine.antt =====
-- A machine with a root 1, a compound state 2 with children 4 and 5 and the history state 8, and a
-- parallel state 3 with children 6 and 7.
use r_fsm.Prelude.{
  ℕ, zero, suc, ◌<◌, List, [], ◌∷◌, true, false, done, ◌≡◌, refl, arith, All, if◌then◌else◌, ◌==◌,
}
use r_fsm.Collections.HashTable
use r_fsm.Collections.SeqList
use r_fsm.Fsm.Types.{
  State, Transition, TransitionType, HistoryType, BindingType, Fsm, get_state_by_id,
  get_transition_by_id,
}
use r_fsm.Fsm.Tree.{not_none}
use r_fsm.Fsm.Tree.Chain.{Chain, state_id_bounds}
use r_fsm.Fsm.Tree.Order.{IsTree, IsStateId}
use r_fsm.Fsm.WellFormed.{IsWellFormed, HasDefault, IsHistoryOf}

abbrev pub state : ℕ → ℕ → List ℕ → State
state n parent states = record {
  id = n;
  doc_id = n;
  name = n ∷ [];
  initial = 0;
  states = states;
  is_parallel = n == 3;
  is_final = false;
  history_type = if n == 8 then HistoryType.shallow else HistoryType.none;
  onentry = [];
  onexit = [];
  transitions = if n == 8 then 12 ∷ [] else [];
  invoke = [];
  history = if n == 2 then 8 ∷ [] else [];
  is_first_entry = true;
  parent = parent;
}

abbrev pub transition : ℕ → ℕ → ℕ → Transition
transition n source target = record {
  id = n;
  doc_id = n;
  events = [];
  wildcard = false;
  cond = [];
  source = source;
  target = target ∷ [];
  transition_type = TransitionType.external;
  content = 0;
}

abbrev pub machine : Fsm
machine = record {
  name = [];
  binding = BindingType.early;
  pseudo_root = 1;
  states =
      state 1 0 (2 ∷ 3 ∷ [])
      ∷ state 2 1 (4 ∷ 5 ∷ [])
      ∷ state 3 1 (6 ∷ 7 ∷ [])
      ∷ state 4 2 []
      ∷ state 5 2 []
      ∷ state 6 3 []
      ∷ state 7 3 []
      ∷ state 8 2 []
      ∷ [];
  transitions =
      (10, transition 10 4 5)
      ∷ (11, transition 11 2 3)
      ∷ (12, transition 12 8 4)
      ∷ (13, transition 13 6 8)
      ∷ [];
  script = 0;
}

abbrev pub ancestors : ℕ → List ℕ
ancestors zero = []
ancestors (suc zero) = []
ancestors (suc (suc zero)) = 1 ∷ []
ancestors (suc (suc (suc zero))) = 1 ∷ []
ancestors (suc (suc (suc (suc zero)))) = 2 ∷ 1 ∷ []
ancestors (suc (suc (suc (suc (suc zero))))) = 2 ∷ 1 ∷ []
ancestors (suc (suc (suc (suc (suc (suc zero)))))) = 3 ∷ 1 ∷ []
ancestors (suc (suc (suc (suc (suc (suc (suc zero))))))) = 3 ∷ 1 ∷ []
ancestors (suc (suc (suc (suc (suc (suc (suc (suc n)))))))) = 2 ∷ 1 ∷ []

pub machine-line : (s : ℕ) → IsStateId machine s → Chain machine s (s ∷ ancestors s)
unfolding get_state_by_id
machine-line zero i = absurd (omega arith)
machine-line (suc zero) i = Chain.up refl Chain.top
machine-line (suc (suc zero)) i = Chain.up refl (Chain.up refl Chain.top)
machine-line (suc (suc (suc zero))) i = Chain.up refl (Chain.up refl Chain.top)
machine-line (suc (suc (suc (suc zero)))) i =
    Chain.up refl (Chain.up refl (Chain.up refl Chain.top))
machine-line (suc (suc (suc (suc (suc zero))))) i =
    Chain.up refl (Chain.up refl (Chain.up refl Chain.top))
machine-line (suc (suc (suc (suc (suc (suc zero)))))) i =
    Chain.up refl (Chain.up refl (Chain.up refl Chain.top))
machine-line (suc (suc (suc (suc (suc (suc (suc zero))))))) i =
    Chain.up refl (Chain.up refl (Chain.up refl Chain.top))
machine-line (suc (suc (suc (suc (suc (suc (suc (suc zero)))))))) i =
    Chain.up refl (Chain.up refl (Chain.up refl Chain.top))
machine-line (suc (suc (suc (suc (suc (suc (suc (suc (suc n))))))))) i = absurd (omega arith)

abbrev pub machine-tree : IsTree machine
machine-tree = record { ancestors = ancestors; line = machine-line }

pub source :
    (tid : ℕ) (t : Transition)
    → get_transition_by_id machine tid ≡ done t
    → IsStateId machine t.source
unfolding get_transition_by_id HashTable.lookup
source tid t h = ground arith

pub targets :
    (tid : ℕ) (t : Transition)
    → get_transition_by_id machine tid ≡ done t
    → All (IsStateId machine) t.target
unfolding get_transition_by_id HashTable.lookup
targets tid t h = ground arith

abbrev pub rank : ℕ → ℕ
rank n = if n == 8 then 1 else 0

pub defaults :
    (s : ℕ) (st : State)
    → get_state_by_id machine s ≡ done st
    → not_none st.history_type ≡ true
    → HasDefault machine rank s st
unfolding get_state_by_id get_transition_by_id HashTable.lookup SeqList.head
defaults zero st g h = cc
defaults (suc zero) st g h = cc
defaults (suc (suc zero)) st g h = cc
defaults (suc (suc (suc zero))) st g h = cc
defaults (suc (suc (suc (suc zero)))) st g h = cc
defaults (suc (suc (suc (suc (suc zero))))) st g h = cc
defaults (suc (suc (suc (suc (suc (suc zero)))))) st g h = cc
defaults (suc (suc (suc (suc (suc (suc (suc zero))))))) st g h = cc
defaults (suc (suc (suc (suc (suc (suc (suc (suc zero)))))))) st g h = record {
  tid = 12;
  transition = transition 12 8 4;
  first = ground arith;
  found = refl;
  smaller = (omega arith, tt);
}
defaults (suc (suc (suc (suc (suc (suc (suc (suc (suc n))))))))) st g h = absurd (
    omega
      (arith, state_id_bounds machine (suc (suc (suc (suc (suc (suc (suc (suc (suc n))))))))) g))

pub rank_bound : (s : ℕ) → IsStateId machine s → rank s < 8
rank_bound s i = ground arith

abbrev pub machine-IsWellFormed : IsWellFormed machine
machine-IsWellFormed = record {
  tree = machine-tree;
  source = source;
  targets = targets;
  rank = rank;
  rank_lt = rank_bound;
  defaults = defaults;
}

pub no_history : IsHistoryOf machine []
unfolding HashTable.lookup
no_history = record { stored = λ h s e. cc }
