-- ===== src/Fsm/Selection.antt =====
-- `selectEventlessTransitions`, `selectTransitions`, `conditionMatch` and `nameMatch` of src/fsm.rs.
pub mod Names
pub mod Returns
use r_fsm.Prelude.{
  ℕ, zero, suc, ◌+◌, List, [], ◌∷◌, Bool, true, false, not, ◌&&◌, ◌||◌, Option, none, some, Run,
  done, ◌>>=◌, if◌then◌else◌, ◌==◌, ltb, get_elem?,
}
use r_fsm.Collections.OrderedSet
use r_fsm.Collections.OrderedSet.{OrderedSet}
use r_fsm.Collections.SeqList
use r_fsm.Collections.Sort
use r_fsm.Fsm.Types.{
  Text, State, Transition, Fsm, get_state_by_id, get_transition_by_id, state_document_order,
  transition_document_order,
}
use r_fsm.Fsm.Tree.{get_proper_ancestors, is_atomic_state_id, no_ids}
use r_fsm.Fsm.Domain.{HistoryTable}
use r_fsm.Fsm.Conflicts.{remove_conflicting_transitions}

-- `str::len` counts bytes: 1 to 4 for a code point.
abbrev pub char_len : ℕ → ℕ
char_len c = if ltb c 0x80 then 1 else if ltb c 0x800 then 2 else if ltb c 0x10000 then 3 else 4

abbrev pub byte_len : Text → ℕ
byte_len [] = 0
byte_len (c ∷ s) = char_len c + byte_len s

abbrev pub starts_with : Text → Text → Bool
starts_with name [] = true
starts_with [] (d ∷ e) = false
starts_with (c ∷ name) (d ∷ e) = c == d && starts_with name e

abbrev pub is_dot : Option ℕ → Bool
is_dot none = false
is_dot (some c) = c == 0x2e

-- `name.chars().nth(e.len())`: a count of bytes is used as a position among the characters.
match_one : Text → Text → Bool
match_one name e =
    starts_with name e && (byte_len name == byte_len e || is_dot (get_elem? name (byte_len e)))

match_loop : List Text → Text → Bool
unfolding match_one
match_loop [] name = false
match_loop (e ∷ l) name = if match_one name e then true else match_loop l name

unfoldable pub name_match : Transition → Text → Bool
unfolding match_loop
name_match t name = if t.wildcard then true else match_loop t.events name

-- The data model that evaluates conditions: its state after the evaluation, and `none` for `Err`.
pub record Conditions : Type 1 where
  pub Model : Type 0
  pub execute_condition : Model → Text → Model × Option Bool
  pub internal_error_execution : Model → Model

abbrev pub no_texts : List Text → Bool
no_texts [] = true
no_texts (x ∷ l) = false

to_transition_list : Fsm → List ℕ → Run (List Transition)
to_transition_list m [] = done []
to_transition_list m (tid ∷ l) = do
  t ← get_transition_by_id m tid
  ts ← to_transition_list m l
  done (t ∷ ts)

-- The ids of the transitions that pass the test.
passing : (Transition → Bool) → List Transition → List ℕ
passing p [] = []
passing p (t ∷ l) = let rest = passing p l in if p t then t.id ∷ rest else rest

abbrev joined : List ℕ → List ℕ → List ℕ
joined l r = SeqList.append l r

-- The candidates of a state and its ancestors, each state's transitions in document order.
candidates : Fsm → (Transition → Bool) → List ℕ → Run (List ℕ)
unfolding to_transition_list passing
candidates m p [] = done []
candidates m p (s ∷ l) = do
  state ← get_state_by_id m s
  transitions ← to_transition_list m state.transitions
  sorted ← Sort.sort transition_document_order transitions
  later ← candidates m p l
  done (joined (passing p sorted) later)

module _ (c : Conditions) (m : Fsm) where
  open c use {Model, execute_condition, internal_error_execution}

  -- An error of the data model counts as false.
  abbrev condition_result : Model × Option Bool → Bool × Model
  condition_result (d, some v) = (v, d)
  condition_result (d, none) = (false, internal_error_execution d)

  unfoldable pub condition_match : Model → ℕ → Run (Bool × Model)
  condition_match d tid = do
    t ← get_transition_by_id m tid
    done (if no_ids t.cond then (true, d) else condition_result (execute_condition d t.cond))

  -- The first candidate whose condition holds is enabled.
  first_match : List ℕ → Model → OrderedSet → Run (OrderedSet × Model)
  unfolding condition_match
  first_match [] d enabled = done (enabled, d)
  first_match (ct ∷ l) d enabled = do
    (holds, d') ← condition_match d ct
    if holds then done (OrderedSet.add enabled ct, d') else first_match l d' enabled

  select_loop : (Transition → Bool) → List ℕ → Model → OrderedSet → Run (OrderedSet × Model)
  unfolding candidates first_match
  select_loop p [] d enabled = done (enabled, d)
  select_loop p (sid ∷ l) d enabled = do
    above ← get_proper_ancestors m sid 0
    cond_t ← candidates m p (SeqList.push_set (sid ∷ []) above)
    (enabled', d') ← first_match cond_t d enabled
    select_loop p l d' enabled'

  -- The body that `selectEventlessTransitions` and `selectTransitions` share: they differ in the
  -- test on a transition.
  select_by : (Transition → Bool) → HistoryTable → OrderedSet → Model → Run (OrderedSet × Model)
  unfolding select_loop
  select_by p hist configuration d = do
    atomic ← SeqList.filter_by (is_atomic_state_id m) (OrderedSet.to_list configuration)
    sorted ← Sort.sort (state_document_order m) atomic
    (enabled, d') ← select_loop p sorted d []
    kept ← remove_conflicting_transitions m hist configuration enabled
    done (kept, d')

  unfoldable pub select_eventless_transitions :
      HistoryTable → OrderedSet → Model → Run (OrderedSet × Model)
  unfolding select_by
  select_eventless_transitions hist configuration d =
      select_by (λ t. no_texts t.events) hist configuration d

  unfoldable pub select_transitions :
      Text → HistoryTable → OrderedSet → Model → Run (OrderedSet × Model)
  unfolding select_by name_match
  select_transitions name hist configuration d =
      select_by (λ t. not (no_texts t.events) && name_match t name) hist configuration d
