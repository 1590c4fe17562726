-- ===== src/Fsm/Interpreter/Validity.antt =====
-- The invariant of a running session (src/fsm.rs) and its preservation by `exitStates`.
use r_fsm.Prelude.{ℕ, Bool, true, false, contains, All, ◌≡◌, sym, ◌∙◌, arith, inl, inr}
use mathlib.Core.Path.{subst}
use r_fsm.Collections.OrderedSet.{OrderedSet}
use r_fsm.Collections.OrderedSet.Laws.{IsSetOf}
use r_fsm.Fsm.Types.{Fsm}
use r_fsm.Fsm.Tree.Chain.{done-injective}
use r_fsm.Fsm.Tree.Order.{IsStateId, All-member, All-of_members, is_descendant-ancestors}
use r_fsm.Fsm.WellFormed.{IsWellFormed}
use r_fsm.Fsm.Entry.Enterable.{Below, IsProper, Recorded, IsRecorded, depth-parent}
use r_fsm.Fsm.Interpreter.{Host, Global}
use r_fsm.Fsm.Interpreter.Frames.{Framed}
use r_fsm.Fsm.Interpreter.Leaving.{is_deep}
use r_fsm.Fsm.Interpreter.Leaving.Records.{Kept}
use r_fsm.Fsm.Interpreter.Leaving.Tables.{Remembers}
use r_fsm.Fsm.Interpreter.Leaving.Leaves.{Left}

-- The configuration has states of the machine, each once, and no history states; what is recorded
-- for a history state lies below its parent.
pub record IsValid {h : Host} {m : Fsm} (w : IsWellFormed m) (g : Global h) : Type 0 where
  pub states : All (IsStateId m) g.configuration
  pub distinct : IsSetOf g.configuration
  pub proper : All (IsProper m) g.configuration
  pub recorded : IsRecorded w g.history_value

Kept-Below :
    {m : Fsm} (w : IsWellFormed m) (configuration : OrderedSet) (s x : ℕ) (deep : Bool)
    → IsStateId m s
    → All (IsStateId m) configuration
    → Kept m configuration s deep x
    → Below w.tree s x
Kept-Below {m} w configuration s x true i active (c, atomic, below) =
    let j = All-member (IsStateId m) x configuration active c in
    (j, done-injective (sym (is_descendant-ancestors w.tree x s j) ∙ below))
Kept-Below {m} w configuration s x false i active (c, (xt, g, p)) = (depth-parent w x s xt g p i).0

Kept-active :
    (m : Fsm) (configuration : OrderedSet) (s x : ℕ) (deep : Bool)
    → Kept m configuration s deep x
    → contains x configuration ≡ true
Kept-active m configuration s x true (c, atomic, below) = c
Kept-active m configuration s x false (c, child) = c

module _ {h : Host} {m : Fsm} (w : IsWellFormed m) where
  pub Framed-IsValid : (g g' : Global h) → Framed g g' → IsValid w g → IsValid w g'
  Framed-IsValid g g' f v = record {
    states = subst (All (IsStateId m)) (sym f.configuration) v.states;
    distinct = subst IsSetOf (sym f.configuration) v.distinct;
    proper = subst (All (IsProper m)) (sym f.configuration) v.proper;
    recorded = subst (IsRecorded w) (sym f.history_value) v.recorded;
  }

  Remembers-Recorded :
      (g : Global h) (exits : OrderedSet) (hid : ℕ) (l : OrderedSet)
      → IsValid w g
      → All (IsStateId m) exits
      → Remembers m g.configuration exits hid l
      → Recorded w hid l
  Remembers-Recorded g exits hid l v ids r =
      let deep = is_deep r.state.history_type in
      let i = All-member (IsStateId m) r.state.parent exits ids r.left in
      record {
        state = r.state;
        found = r.found;
        history = r.history;
        below =
            All-of_members (Below w.tree r.state.parent) l
              λ x k. Kept-Below w g.configuration r.state.parent x deep i v.states ((r.kept x).0 k);
        proper = All-of_members (IsProper m) l λ x k.
            All-member (IsProper m) x g.configuration v.proper
              (Kept-active m g.configuration r.state.parent x deep ((r.kept x).0 k));
      }

  pub Left-IsValid :
      (exits : OrderedSet) (g g' : Global h) → Left m exits g g' → IsValid w g → IsValid w g'
  Left-IsValid exits g g' left v =
      let ids =
        All-of_members (IsStateId m) exits
          λ x k. All-member (IsStateId m) x g.configuration v.states (left.active x k) in
      let before : (x : ℕ)
          → contains x g'.configuration ≡ true
          → contains x g.configuration ≡ true =
        λ x k. ground (arith, left.configuration x, k) in
      record {
        states =
            All-of_members (IsStateId m) g'.configuration
              λ x k. All-member (IsStateId m) x g.configuration v.states (before x k);
        distinct = left.distinct v.distinct;
        proper =
            All-of_members (IsProper m) g'.configuration
              λ x k. All-member (IsProper m) x g.configuration v.proper (before x k);
        recorded = λ hid l e. elim (left.origin hid l e) [
          | inl new ↦ Remembers-Recorded g exits hid l v ids new
          | inr old ↦ v.recorded hid l old
        ];
      }
