-- ===== src/Fsm/Types.antt =====
-- The data of src/fsm.rs: `State`, `Transition`, `Fsm` and their enums, with the access by id.
-- Ids are `u32` counters; 0 stands for "none". A text is the list of its code points.
use r_fsm.Prelude.{
  ℕ, ◌-◌, List, Bool, Run, panic, unwrap, if◌then◌else◌, ◌==◌, ltb, get_elem?, ◌>>=◌, done,
}
use Prim.Native.Nat.{Ordering}
use r_fsm.Collections.HashTable

abbrev pub Text : Type 0
Text = List ℕ

pub data BindingType : Type 0 where
  early late : BindingType

pub data HistoryType : Type 0 where
  shallow deep none : HistoryType

pub data TransitionType : Type 0 where
  internal external : TransitionType

-- `ordinal` and `from_ordinal` of the three enums, as the serializer uses them.
unfoldable pub binding_ordinal : BindingType → ℕ
binding_ordinal early = 1
binding_ordinal late = 2

unfoldable pub binding_from_ordinal : ℕ → Run BindingType
binding_from_ordinal n = if n == 1 then done early else if n == 2 then done late else panic

unfoldable pub history_ordinal : HistoryType → ℕ
history_ordinal shallow = 1
history_ordinal deep = 2
history_ordinal none = 0

unfoldable pub history_from_ordinal : ℕ → HistoryType
history_from_ordinal n = if n == 1 then shallow else if n == 2 then deep else none

unfoldable pub transition_ordinal : TransitionType → ℕ
transition_ordinal internal = 0
transition_ordinal external = 1

unfoldable pub transition_from_ordinal : ℕ → Run TransitionType
transition_from_ordinal n =
    if n == 0 then done internal else if n == 1 then done external else panic

-- `Invoke`: what the interpreter itself reads of it. Its type, source and parameters go to the data
-- model only.
pub record Invoke : Type 0 where
  pub doc_id : ℕ
  pub finalize : ℕ
  pub autoforward : Bool

-- `State`. The data elements and the done data of a state go to the data model only.
pub record State : Type 0 where
  pub id : ℕ
  pub doc_id : ℕ
  pub name : Text
  pub initial : ℕ
  pub states : List ℕ
  pub is_parallel : Bool
  pub is_final : Bool
  pub history_type : HistoryType
  pub onentry : List ℕ
  pub onexit : List ℕ
  pub transitions : List ℕ
  pub invoke : List Invoke
  pub history : List ℕ
  pub is_first_entry : Bool
  pub parent : ℕ

-- `Transition`. A condition is a source text of the data model; `[]` is the empty one.
pub record Transition : Type 0 where
  pub id : ℕ
  pub doc_id : ℕ
  pub events : List Text
  pub wildcard : Bool
  pub cond : Text
  pub source : ℕ
  pub target : List ℕ
  pub transition_type : TransitionType
  pub content : ℕ

pub record Fsm : Type 0 where
  pub name : Text
  pub binding : BindingType
  pub pseudo_root : ℕ
  pub states : List State
  pub transitions : List (ℕ × Transition)
  pub script : ℕ

-- `(state_id - 1) as usize`: id 0 underflows, which panics or names no state.
unfoldable pub get_state_by_id : Fsm → ℕ → Run State
get_state_by_id m sid = if sid == 0 then panic else unwrap (get_elem? m.states (sid - 1))

unfoldable pub get_transition_by_id : Fsm → ℕ → Run Transition
get_transition_by_id m tid = unwrap (HashTable.lookup tid m.transitions)

-- The three-way comparison that the order functions write as a match with guards.
abbrev pub by_doc_id : ℕ → ℕ → Ordering
by_doc_id d1 d2 = if ltb d2 d1 then Ordering.gt else if d1 == d2 then Ordering.eq else Ordering.lt

unfoldable pub state_document_order : Fsm → ℕ → ℕ → Run Ordering
state_document_order m sid1 sid2 = do
  s1 ← get_state_by_id m sid1
  s2 ← get_state_by_id m sid2
  done (by_doc_id s1.doc_id s2.doc_id)

unfoldable pub state_entry_order : Fsm → ℕ → ℕ → Run Ordering
unfolding state_document_order
state_entry_order m s1 s2 = state_document_order m s1 s2

unfoldable pub state_exit_order : Fsm → ℕ → ℕ → Run Ordering
unfolding state_document_order
state_exit_order m s1 s2 = state_document_order m s2 s1

unfoldable pub transition_document_order : Transition → Transition → Run Ordering
transition_document_order t1 t2 = done (by_doc_id t1.doc_id t2.doc_id)
