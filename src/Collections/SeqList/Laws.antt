-- ===== src/Collections/SeqList/Laws.antt =====
-- What the loops of `List` (src/fsm.rs) compute when the closure does not panic.
use r_fsm.Prelude.{
  ℕ, List, [], ◌∷◌, ◌++◌, Bool, true, false, ◌&&◌, ◌||◌, filter, contains, ◌≡◌, refl, sym, ◌∙◌, ap,
  arith, Run, done, Bool-cases, inl, inr,
}
use mathlib.Core.List.{append-nil, append_assoc}
use r_fsm.Collections.SeqList.{push, push_set, append, filter_by, filter_by_loop, some, every}

module _ {ℓ} {A : Type ℓ} where
  pub push_set_lem : (l s : List A) → push_set l s ≡ l ++ s
  unfolding push_set
  push_set_lem l [] = sym (append-nil l)
  push_set_lem l (x ∷ s) = rw (push_set_lem (push l x) s) (unfold push in append_assoc l (x ∷ []) s)

  pub append_lem : (l s : List A) → append l s ≡ l ++ s
  unfolding append
  append_lem l s = push_set_lem l s

-- Over ids, with a test that is known for the members of the list.
abbrev pub any : (ℕ → Bool) → List ℕ → Bool
any g [] = false
any g (x ∷ l) = g x || any g l

abbrev pub all : (ℕ → Bool) → List ℕ → Bool
all g [] = true
all g (x ∷ l) = g x && all g l

module _ (f : ℕ → Run Bool) (g : ℕ → Bool) where
  -- `f` returns what `g` says, for each member.
  abbrev pub Agrees : List ℕ → Type 0
  Agrees [] = Unit
  Agrees (x ∷ l) = (f x ≡ done (g x)) × Agrees l

  pub some_lem : (l : List ℕ) → Agrees l → some f l ≡ done (any g l)
  unfolding some
  some_lem [] h = refl
  some_lem (x ∷ l) h = rw (h.0, some_lem l h.1) (ground arith)

  pub every_lem : (l : List ℕ) → Agrees l → every f l ≡ done (all g l)
  unfolding every
  every_lem [] h = refl
  every_lem (x ∷ l) h = rw (h.0, every_lem l h.1) (ground arith)

  filter_by_loop_lem : (t l : List ℕ) → Agrees l → filter_by_loop f t l ≡ done (t ++ filter g l)
  unfolding filter_by_loop
  filter_by_loop_lem t [] h = ap done (sym (append-nil t))
  filter_by_loop_lem t (x ∷ l) h = rw h.0 (elim (Bool-cases (g x)) [
    | inl kept ↦ rw kept (
        filter_by_loop_lem (push t x) l h.1
        ∙ (unfold push in ap done (append_assoc t (x ∷ []) (filter g l))))
    | inr dropped ↦ rw dropped (filter_by_loop_lem t l h.1)
  ])

  pub filter_by_lem : (l : List ℕ) → Agrees l → filter_by f l ≡ done (filter g l)
  unfolding filter_by
  filter_by_lem l h = filter_by_loop_lem [] l h

  pub Agrees-of_all : (l : List ℕ) → ((x : ℕ) → contains x l ≡ true → f x ≡ done (g x)) → Agrees l
  Agrees-of_all [] h = tt
  Agrees-of_all (x ∷ l) h = (h x (ground arith), Agrees-of_all l (λ y k. h y (ground arith)))
