-- ===== src/Fsm/Entry/Steps.antt =====
-- The pieces of the entry of a state (src/fsm.rs) return, if the recursive calls do.
use r_fsm.Prelude.{
  ℕ, ◌+◌, ◌≤◌, List, [], ◌∷◌, true, false, Run, done, contains, All, length, ◌==◌, ◌≡◌, ◌≢◌, refl,
  sym, ap, ◌∙◌, arith, Bool-cases, inl, inr, ◌⊎◌,
}
use mathlib.Core.Path.{subst}
use r_fsm.Collections.SeqList.Deciding.{some-returns, member-cases}
use r_fsm.Collections.SeqList.Laws.{push_set_lem}
use r_fsm.Collections.OrderedSet
use r_fsm.Collections.OrderedSet.{OrderedSet}
use r_fsm.Collections.OrderedSet.Laws.{IsSetOf, add-IsSetOf, contains-add}
use r_fsm.Fsm.Types.{Fsm}
use r_fsm.Fsm.Tree.{is_descendant, is_parallel_state, get_child_states, get_proper_ancestors}
use r_fsm.Fsm.Tree.Chain.{Chain-state}
use r_fsm.Fsm.Tree.Order.{
  IsStateId, All-of_members, All-member, is_descendant-ancestors, ancestor-IsStateId,
  get_proper_ancestors-member,
}
use r_fsm.Fsm.WellFormed.{IsWellFormed}
use r_fsm.Fsm.Entry.{
  EntrySets, each, enter_child, fill_children, enter_ancestor, add_ancestor_states_to_enter,
  enter_targets,
}
use r_fsm.Fsm.Entry.Enterable.{
  Below, IsProper, IsEnterable, depth, depth-Below, depth-parent, depth-bound, room, room-deeper,
  Ready, Below-Ready,
}

-- The states to enter are states, each once, and no history states.
pub record IsEntry (m : Fsm) (e : EntrySets) : Type 0 where
  pub states : All (IsStateId m) e.states_to_enter
  pub distinct : IsSetOf e.states_to_enter
  pub proper : All (IsProper m) e.states_to_enter

-- A step from `e` returns; it keeps what is to be entered, and adds the states that satisfy `Q`.
pub record Enters (m : Fsm) (e : EntrySets) (r : Run EntrySets) (Q : ℕ → Type 0) : Type 0 where
  pub result : EntrySets
  pub returns : r ≡ done result
  pub entry : IsEntry m result
  pub grows :
      (x : ℕ) → contains x e.states_to_enter ≡ true → contains x result.states_to_enter ≡ true
  pub reached : (x : ℕ) → Q x → contains x result.states_to_enter ≡ true

module _ {m : Fsm} where
  -- One state more.
  pub add-IsEntry :
      (s : ℕ) (e : EntrySets)
      → IsStateId m s
      → IsProper m s
      → IsEntry m e
      → IsEntry m (record e { states_to_enter = OrderedSet.add e.states_to_enter s })
  add-IsEntry s e i q v = record {
    states = All-of_members (IsStateId m) (OrderedSet.add e.states_to_enter s) λ x h.
        elim (member-add x s e.states_to_enter h) [
          | inl old ↦ All-member (IsStateId m) x e.states_to_enter v.states old
          | inr new ↦ subst (IsStateId m) new i
        ];
    distinct = add-IsSetOf s e.states_to_enter v.distinct;
    proper = All-of_members (IsProper m) (OrderedSet.add e.states_to_enter s) λ x h.
        elim (member-add x s e.states_to_enter h) [
          | inl old ↦ All-member (IsProper m) x e.states_to_enter v.proper old
          | inr new ↦ subst (IsProper m) new q
        ];
  }
    where
      member-add :
          (x s : ℕ) (l : OrderedSet)
          → contains x (OrderedSet.add l s) ≡ true
          → (contains x l ≡ true) ⊎ (s ≡ x)
      member-add x s l h = ground (arith, contains-add x s l, h)

  pub each-Enters :
      (f : ℕ → EntrySets → Run EntrySets) (P : ℕ → Type 0) (Q : ℕ → ℕ → Type 0)
      → ((x : ℕ) (e : EntrySets) → P x → IsEntry m e → Enters m e (f x e) (Q x))
      → (l : List ℕ) (e : EntrySets) → All P l
      → IsEntry m e
      → Enters m e (each f l e) (λ y. (x : ℕ) × (contains x l ≡ true) × Q x y)
  unfolding each
  each-Enters f P Q step [] e i v = record {
    result = e;
    returns = refl;
    entry = v;
    grows = λ x h. h;
    reached = λ y q. cc;
  }
  each-Enters f P Q step (x ∷ l) e (a, i) v =
      let one = step x e a v in
      let rest = each-Enters f P Q step l one.result i one.entry in
      record {
        result = rest.result;
        returns = rw one.returns rest.returns;
        entry = rest.entry;
        grows = λ y h. rest.grows y (one.grows y h);
        reached = λ y (z, k, q). elim (member-cases z x l k) [
          | inl here ↦ rest.grows y (one.reached y (subst (λ i. Q i y) (sym here) q))
          | inr there ↦ rest.reached y (z, there, q)
        ];
      }

pub added_keeps :
    (x s : ℕ) (l : OrderedSet) → contains x l ≡ true → contains x (OrderedSet.add l s) ≡ true
added_keeps x s l h = ground (arith, contains-add x s l, h)

pub added_here : (s y : ℕ) (l : OrderedSet) → s ≡ y → contains y (OrderedSet.add l s) ≡ true
added_here s y l h = ground (arith, contains-add y s l, h)

module _ {m : Fsm} (w : IsWellFormed m) (hist : List (ℕ × OrderedSet)) (n : IsEnterable w)
    (fuel : ℕ) (rec : ℕ → EntrySets → Run EntrySets) (Q : ℕ → ℕ → Type 0)
    (recurs : (x : ℕ) (e : EntrySets)
      → Ready w fuel x
      → IsEntry m e
      → Enters m e (rec x e) (Q x)) where
  abbrev Nothing : ℕ → Type 0
  Nothing y = y ≢ y

  enter_child-Enters :
      (c : ℕ) (e : EntrySets)
      → Ready w fuel c
      → IsEntry m e
      → Enters m e (enter_child m hist rec c e) Nothing
  unfolding enter_child
  enter_child-Enters c e ready v =
      let (b, run) =
        some-returns (λ s. is_descendant m s c) e.states_to_enter
          λ s h. (
            _,
            is_descendant-ancestors w.tree s c
                (All-member (IsStateId m) s e.states_to_enter v.states h),
          ) in
      elim (Bool-cases b) [
        | inl inside ↦ record {
          result = e;
          returns = rw (run, inside);
          entry = v;
          grows = λ x h. h;
          reached = λ y q. absurd (q refl);
        }
        | inr outside ↦
            let more = recurs c e ready v in
            record {
              result = more.result;
              returns = rw (run, outside) more.returns;
              entry = more.entry;
              grows = more.grows;
              reached = λ y q. absurd (q refl);
            }
      ]

  not_above : (a x : ℕ) → IsStateId m a → Below w.tree a x → is_descendant m a x ≡ done false
  not_above a x i b = elim (Bool-cases (contains x (w.tree.ancestors a))) [
    | inl round ↦
        let up = depth-Below w x a (i, round) in
        let down = depth-Below w a x b in absurd (omega arith)
    | inr apart ↦ is_descendant-ancestors w.tree a x i ∙ ap done apart
  ]

  pub fill_children-Enters :
      (s : ℕ) (e : EntrySets)
      → IsStateId m s
      → room w (depth w s) + length m.states ≤ fuel
      → IsEntry m e
      → Enters m e (fill_children m hist rec s e) Nothing
  unfolding fill_children get_child_states
  fill_children-Enters s e i enough v =
      let (st, g, above) = Chain-state (w.tree.line s i) refl in
      let ready = All-of_members (Ready w fuel) st.states λ c h.
        let (ct, gc, p) = n.children s st g c h in
        let (below, deep) = depth-parent w c s ct gc p i in
        Below-Ready w fuel s c below (omega (arith, w.rank_lt c below.0)) in
      let all =
        each-Enters (enter_child m hist rec) (Ready w fuel) (λ x. Nothing) enter_child-Enters
          st.states e ready v in
      record {
        result = all.result;
        returns = rw (g, push_set_lem [] st.states) all.returns;
        entry = all.entry;
        grows = all.grows;
        reached = λ y q. absurd (q refl);
      }

  -- What is asked of an ancestor to enter.
  abbrev pub Spacious : ℕ → Type 0
  Spacious s = IsStateId m s × IsProper m s × (room w (depth w s) + length m.states ≤ fuel)

  enter_ancestor-Enters :
      (s : ℕ) (e : EntrySets)
      → Spacious s
      → IsEntry m e
      → Enters m e (enter_ancestor m hist rec s e) (λ y. s ≡ y)
  unfolding enter_ancestor is_parallel_state
  enter_ancestor-Enters s e (i, q, enough) v =
      let (st, g, above) = Chain-state (w.tree.line s i) refl in
      let some_id : (s == 0) ≡ false = ground arith in
      let e' : EntrySets = record e { states_to_enter = OrderedSet.add e.states_to_enter s } in
      elim (Bool-cases st.is_parallel) [
        | inl parallel ↦
            let all = fill_children-Enters s e' i enough (add-IsEntry s e i q v) in
            record {
              result = all.result;
              returns = rw (some_id, g, parallel) all.returns;
              entry = all.entry;
              grows = λ x h. all.grows x (added_keeps x s e.states_to_enter h);
              reached = λ y p. all.grows y (added_here s y e.states_to_enter p);
            }
        | inr single ↦ record {
          result = e';
          returns = rw (some_id, g, single);
          entry = add-IsEntry s e i q v;
          grows = λ x h. added_keeps x s e.states_to_enter h;
          reached = λ y p. added_here s y e.states_to_enter p;
        }
      ]

  pub add_ancestor-Enters :
      (x a : ℕ) (l : List ℕ) (e : EntrySets)
      → get_proper_ancestors m x a ≡ done l
      → All Spacious l
      → IsEntry m e
      → Enters m e (add_ancestor_states_to_enter m hist rec x a e) (λ y. contains y l ≡ true)
  unfolding add_ancestor_states_to_enter
  add_ancestor-Enters x a l e run i v =
      let all =
        each-Enters (enter_ancestor m hist rec) Spacious (λ s y. s ≡ y) enter_ancestor-Enters l e i
          v in
      record {
        result = all.result;
        returns = rw run all.returns;
        entry = all.entry;
        grows = all.grows;
        reached = λ y h. all.reached y (y, h, refl);
      }

  -- The ancestors between a state and one above it are spacious.
  pub between :
      (a x : ℕ)
      → IsStateId m a
      → Below w.tree a x
      → room w (depth w a) ≤ fuel
      → (l : List ℕ) × (get_proper_ancestors m x a ≡ done l)
        × All Spacious l
        × ((y : ℕ)
            → Below w.tree a y
            → contains y (w.tree.ancestors x) ≡ true
            → contains y l ≡ true)
  between a x i b enough =
      let apart = not_above a x i b in
      let (l, run, member) = get_proper_ancestors-member w.tree x a b.0 apart in
      (
        l,
        run,
        All-of_members Spacious l (λ y h. spacious y (inside y h) (narrow y h)),
        λ y k h. ground (arith, member y, b.1, k.1, h),
      )
    where
      narrow :
          (y : ℕ)
          → contains y (get_proper_ancestors-member w.tree x a b.0 (not_above a x i b)).0 ≡ true
          → Below w.tree a y
      narrow y h =
          let (l, run, member) = get_proper_ancestors-member w.tree x a b.0 (not_above a x i b) in
          (
            ancestor-IsStateId w.tree x y b.0 (ground (arith, member y, h)),
            ground (arith, member y, h, b.1),
          )

      inside :
          (y : ℕ)
          → contains y (get_proper_ancestors-member w.tree x a b.0 (not_above a x i b)).0 ≡ true
          → contains y (w.tree.ancestors x) ≡ true
      inside y h =
          let (l, run, member) = get_proper_ancestors-member w.tree x a b.0 (not_above a x i b) in
          ground (arith, member y, h)

      spacious : (y : ℕ) → contains y (w.tree.ancestors x) ≡ true → Below w.tree a y → Spacious y
      spacious y u k =
          let deeper =
            room-deeper w (depth w a) (depth w y) (depth-Below w a y k) (depth-bound w y k.0) in
          (k.0, n.above x y b.0 u, omega (arith, deeper, enough))

  pub enter_targets-Enters :
      (a : ℕ) (l : List ℕ) (e : EntrySets)
      → IsStateId m a
      → room w (depth w a) ≤ fuel
      → All (Below w.tree a) l
      → All (Ready w fuel) l
      → IsEntry m e
      → Enters m e (enter_targets m hist rec a l e) (λ y. (x : ℕ) × (contains x l ≡ true) × Q x y)
  unfolding enter_targets
  enter_targets-Enters a l e i enough below ready v =
      let one = each-Enters rec (Ready w fuel) Q recurs l e ready v in
      let two =
        each-Enters (λ s f. add_ancestor_states_to_enter m hist rec s a f) (Below w.tree a)
          (λ x. Nothing) (λ x f b u. ancestors_of x f b u) l one.result below one.entry in
      record {
        result = two.result;
        returns = rw one.returns two.returns;
        entry = two.entry;
        grows = λ x h. two.grows x (one.grows x h);
        reached = λ y q. two.grows y (one.reached y q);
      }
    where
      ancestors_of :
          (x : ℕ) (f : EntrySets)
          → Below w.tree a x
          → IsEntry m f
          → Enters m f (add_ancestor_states_to_enter m hist rec x a f) Nothing
      ancestors_of x f b u =
          let (above, run, spacious, complete) = between a x i b enough in
          let all = add_ancestor-Enters x a above f run spacious u in
          record {
            result = all.result;
            returns = all.returns;
            entry = all.entry;
            grows = all.grows;
            reached = λ y q. absurd (q refl);
          }
