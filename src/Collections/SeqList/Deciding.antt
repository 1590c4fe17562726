-- ===== src/Collections/SeqList/Deciding.antt =====
-- `every` and `some` of `List` (src/fsm.rs) with a test that returns for each member.
use r_fsm.Prelude.{
  ℕ, List, [], ◌∷◌, Bool, true, false, Run, done, contains, All, ◌≡◌, ◌≢◌, refl, sym, ap, ◌∙◌,
  arith, inl, inr, ◌⊎◌, ◌↔◌, Bool-cases,
}
use mathlib.Core.Path.{subst}
use r_fsm.Collections.SeqList

-- A test returns, and says whether P holds.
pub record Decides (r : Run Bool) (P : Type 0) : Type 0 where
  pub answer : Bool
  pub returns : r ≡ done answer
  pub means : (answer ≡ true) ↔ P

pub member-cases :
    (x y : ℕ) (l : List ℕ) → contains x (y ∷ l) ≡ true → (y ≡ x) ⊎ (contains x l ≡ true)
member-cases x y l h = ground (arith, h)

member-here : (y : ℕ) (l : List ℕ) → contains y (y ∷ l) ≡ true
member-here y l = ground arith

member-there : (x y : ℕ) (l : List ℕ) → contains x l ≡ true → contains x (y ∷ l) ≡ true
member-there x y l h = ground (arith, h)

pub true-not_false : true ≢ false
true-not_false e = cc

module _ (f : ℕ → Run Bool) (y : ℕ) (l : List ℕ) where
  every-holds : f y ≡ done true → SeqList.every f (y ∷ l) ≡ SeqList.every f l
  unfolding SeqList.every
  every-holds h = rw h

  every-fails : f y ≡ done false → SeqList.every f (y ∷ l) ≡ done false
  unfolding SeqList.every
  every-fails h = rw h

  some-holds : f y ≡ done true → SeqList.some f (y ∷ l) ≡ done true
  unfolding SeqList.some
  some-holds h = rw h

  some-fails : f y ≡ done false → SeqList.some f (y ∷ l) ≡ SeqList.some f l
  unfolding SeqList.some
  some-fails h = rw h

pub every-Decides :
    (f : ℕ → Run Bool) (P : ℕ → Type 0) (l : List ℕ)
    → ((x : ℕ) → contains x l ≡ true → Decides (f x) (P x))
    → Decides (SeqList.every f l) ((x : ℕ) → contains x l ≡ true → P x)
every-Decides f P [] h = record {
  answer = true;
  returns = unfold SeqList.every in refl;
  means = (λ _ x k. cc, λ _. refl);
}
every-Decides f P (y ∷ l) h =
    let d = h y (member-here y l) in
    let e = every-Decides f P l (λ x k. h x (member-there x y l k)) in
    elim (Bool-cases d.answer) [
      | inl holds ↦ record {
        answer = e.answer;
        returns = every-holds f y l (d.returns ∙ ap done holds) ∙ e.returns;
        means = (
          λ a x k. elim (member-cases x y l k) [
            | inl same ↦ subst P same (d.means.0 holds)
            | inr there ↦ e.means.0 a x there
          ],
          λ all. e.means.1 (λ x k. all x (member-there x y l k)),
        );
      }
      | inr fails ↦ record {
        answer = false;
        returns = every-fails f y l (d.returns ∙ ap done fails);
        means = (λ a. cc, λ all. sym fails ∙ d.means.1 (all y (member-here y l)));
      }
    ]

pub some-Decides :
    (f : ℕ → Run Bool) (P : ℕ → Type 0) (l : List ℕ)
    → ((x : ℕ) → contains x l ≡ true → Decides (f x) (P x))
    → Decides (SeqList.some f l) ((x : ℕ) × (contains x l ≡ true) × P x)
some-Decides f P [] h = record {
  answer = false;
  returns = unfold SeqList.some in refl;
  means = (λ a. cc, λ one. cc);
}
some-Decides f P (y ∷ l) h =
    let d = h y (member-here y l) in
    let e = some-Decides f P l (λ x k. h x (member-there x y l k)) in
    elim (Bool-cases d.answer) [
      | inl holds ↦ record {
        answer = true;
        returns = some-holds f y l (d.returns ∙ ap done holds);
        means = (λ a. (y, member-here y l, d.means.0 holds), λ one. refl);
      }
      | inr fails ↦ record {
        answer = e.answer;
        returns = some-fails f y l (d.returns ∙ ap done fails) ∙ e.returns;
        means = (
          λ a. let (x, k, p) = e.means.0 a in (x, member-there x y l k, p),
          λ one. elim (member-cases one.0 y l one.1) [
            | inl same ↦
                absurd (true-not_false (sym (d.means.1 (subst P (sym same) one.2)) ∙ fails))
            | inr there ↦ e.means.1 (one.0, there, one.2)
          ],
        );
      }
    ]

-- A filter whose test returns for the elements of a list returns, with such elements.
module _ (P : ℕ → Type 0) (f : ℕ → Run Bool)
    (total : (x : ℕ) → P x → (b : Bool) × (f x ≡ done b)) where
  All-push : (t : List ℕ) (x : ℕ) → All P t → P x → All P (SeqList.push t x)
  unfolding SeqList.push
  All-push [] x i a = (a, tt)
  All-push (y ∷ t) x (b, i) a = (b, All-push t x i a)

  filter_by_loop-returns :
      (t l : List ℕ)
      → All P t
      → All P l
      → (r : List ℕ) × (SeqList.filter_by_loop f t l ≡ done r) × All P r
  unfolding SeqList.filter_by_loop
  filter_by_loop-returns t [] i j = (t, refl, i)
  filter_by_loop-returns t (x ∷ l) i (a, j) =
      let (b, run) = total x a in
      elim (Bool-cases b) [
        | inl kept ↦
            let (r, run', k) = filter_by_loop-returns (SeqList.push t x) l (All-push t x i a) j in
            (r, rw (run, kept) run', k)
        | inr dropped ↦
            let (r, run', k) = filter_by_loop-returns t l i j in (r, rw (run, dropped) run', k)
      ]

  pub filter_by-returns :
      (l : List ℕ) → All P l → (r : List ℕ) × (SeqList.filter_by f l ≡ done r) × All P r
  unfolding SeqList.filter_by
  filter_by-returns l i = filter_by_loop-returns [] l tt i

pub some-returns :
    (f : ℕ → Run Bool) (l : List ℕ)
    → ((x : ℕ) → contains x l ≡ true → (b : Bool) × (f x ≡ done b))
    → (b : Bool) × (SeqList.some f l ≡ done b)
some-returns f l h =
    let d =
      some-Decides f (λ x. f x ≡ done true) l
        λ x k.
          let (b, run) = h x k in
          record { answer = b; returns = run; means = (λ a. run ∙ ap done a, λ q. cc) } in
    (d.answer, d.returns)
