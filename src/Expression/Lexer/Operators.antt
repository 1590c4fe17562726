-- ===== src/Expression/Lexer/Operators.antt =====
-- A combinable operator at the end of a text, in src/expression_engine/lexer.rs.
use r_fsm.Prelude.{
  ℕ, zero, suc, ◌+◌, ◌-◌, List, [], ◌∷◌, false, Option, none, some, Run, done, ◌>>=◌, get_elem?,
  drop, ◌≡◌, refl, ap, ◌∙◌, arith, inl, inr, ◌⊎◌,
}
use r_fsm.Expression.Lexer.{
  Token, Lexer, next_char, char_or_end, push_back, combined, first_or_combined, read_operator,
  stop_token, word_end, read_word, read_number, number_round, spaces, eat_space, start_token,
  next_token_with_stop, next_token,
}
use r_fsm.Expression.Characters.{Operator, number_verdict, on_hyphen, on_e, is_whitespace}

-- The operators that a following `=` changes, with what they are alone.
pub data IsCombinable : ℕ → Operator → Type 0 where
  less_sign : IsCombinable 0x3c Operator.less
  greater_sign : IsCombinable 0x3e Operator.greater
  equals_sign : IsCombinable 0x3d Operator.assign
  exclamation_mark : IsCombinable 0x21 Operator.not

-- A lexer on a text, at a position.
abbrev pub at : List ℕ → ℕ → Lexer
at text pos = record { text = text; pos = pos; buffer = [] }

get_elem?-drop : (n : ℕ) (u : List ℕ) (c : ℕ) → drop n u ≡ c ∷ [] → get_elem? u n ≡ some c
get_elem?-drop zero [] c h = cc
get_elem?-drop zero (x ∷ u) c h = cc
get_elem?-drop (suc n) [] c h = cc
get_elem?-drop (suc n) (x ∷ u) c h = get_elem?-drop n u c h

get_elem?-after : (n : ℕ) (u : List ℕ) (c : ℕ) → drop n u ≡ c ∷ [] → get_elem? u (suc n) ≡ none
get_elem?-after zero [] c h = cc
get_elem?-after zero (x ∷ []) c h = refl
get_elem?-after zero (x ∷ y ∷ u) c h = cc
get_elem?-after (suc n) [] c h = cc
get_elem?-after (suc n) (x ∷ u) c h = get_elem?-after n u c h

get_elem?-second :
    (n : ℕ) (u : List ℕ) (c d : ℕ) (v : List ℕ)
    → drop n u ≡ c ∷ d ∷ v
    → get_elem? u (suc n) ≡ some d
get_elem?-second zero [] c d v h = cc
get_elem?-second zero (x ∷ []) c d v h = cc
get_elem?-second zero (x ∷ y ∷ u) c d v h = cc
get_elem?-second (suc n) [] c d v h = cc
get_elem?-second (suc n) (x ∷ u) c d v h = get_elem?-second n u c d v h

get_elem?-first :
    (n : ℕ) (u : List ℕ) (c : ℕ) (v : List ℕ) → drop n u ≡ c ∷ v → get_elem? u n ≡ some c
get_elem?-first zero [] c v h = cc
get_elem?-first zero (x ∷ u) c v h = cc
get_elem?-first (suc n) [] c v h = cc
get_elem?-first (suc n) (x ∷ u) c v h = get_elem?-first n u c v h

first_of_two :
    (c d n : ℕ) (u v : List ℕ) → drop n u ≡ c ∷ d ∷ v → next_char (at u n) ≡ (c, at u (suc n))
unfolding next_char char_or_end
first_of_two c d n u v h = ap (λ o. char_or_end o (at u n)) (get_elem?-first n u c (d ∷ v) h)

-- The tokens of `n` calls of `next_token`.
pub tokens : {F64 : Type 0} → (List ℕ → Option F64) → ℕ → Lexer → Run (List (Token F64))
tokens parse_f64 zero l = done []
tokens parse_f64 (suc n) l = do
  (token, l') ← next_token parse_f64 l
  rest ← tokens parse_f64 n l'
  done (token ∷ rest)

abbrev pub repeated : {A : Type 0} → ℕ → A → List A
repeated zero x = []
repeated (suc n) x = x ∷ repeated n x

first_char : (c n : ℕ) (u : List ℕ) → drop n u ≡ c ∷ [] → next_char (at u n) ≡ (c, at u (suc n))
unfolding next_char char_or_end
first_char c n u h = ap (λ o. char_or_end o (at u n)) (get_elem?-drop n u c h)

no_more : (c n : ℕ) (u : List ℕ) → drop n u ≡ c ∷ [] → next_char (at u (suc n)) ≡ (0, at u (suc n))
unfolding next_char char_or_end
no_more c n u h = ap (λ o. char_or_end o (at u (suc n))) (get_elem?-after n u c h)

stay :
    (c n : ℕ) (u : List ℕ)
    → drop n u ≡ c ∷ []
    → is_whitespace c ≡ false
    → eat_space (at u n) ≡ at u n
unfolding eat_space spaces
stay c n u h b =
    let none : spaces (drop n u) ≡ 0 = ap spaces h ∙ rw b refl in
    let here : n + spaces (drop n u) ≡ n = omega (arith, none) in ap (at u) here

module _ {F64 : Type 0} (parse_f64 : List ℕ → Option F64) where
  one_back :
      (n : ℕ) (u : List ℕ) (k : Token F64)
      → ◌≡◌ {A = Token F64 × Lexer} (k, at u (suc n - 1)) (k, at u n)
  one_back n u k = let back : suc n - 1 ≡ n = omega arith in ap (λ p. (k, at u p)) back

  -- An operator that gives the character after it back, at the end of the text.
  given_back :
      (c n : ℕ) (o : Operator) (u : List ℕ)
      → IsCombinable c o
      → drop n u ≡ c ∷ []
      → read_operator parse_f64 c (at u (suc n)) ≡ (Token.operator o, at u n)
  unfolding read_operator first_or_combined combined push_back
  given_back c n o u less_sign h =
      ap (combined parse_f64 c) (no_more c n u h) ∙ one_back n u (Token.operator Operator.less)
  given_back c n o u greater_sign h =
      ap (combined parse_f64 c) (no_more c n u h) ∙ one_back n u (Token.operator Operator.greater)
  given_back c n o u equals_sign h =
      ap (combined parse_f64 c) (no_more c n u h) ∙ one_back n u (Token.operator Operator.assign)
  given_back c n o u exclamation_mark h =
      ap (combined parse_f64 c) (no_more c n u h) ∙ one_back n u (Token.operator Operator.not)

  one_operator :
      (c n : ℕ) (o : Operator) (u : List ℕ)
      → IsCombinable c o
      → start_token parse_f64 [] (c, at u (suc n)) ≡ done (read_operator parse_f64 c (at u (suc n)))
  unfolding start_token read_word word_end stop_token
  one_operator c n o u less_sign = refl
  one_operator c n o u greater_sign = refl
  one_operator c n o u equals_sign = refl
  one_operator c n o u exclamation_mark = refl

  no_whitespace : (c : ℕ) (o : Operator) → IsCombinable c o → is_whitespace c ≡ false
  no_whitespace c o less_sign = refl
  no_whitespace c o greater_sign = refl
  no_whitespace c o equals_sign = refl
  no_whitespace c o exclamation_mark = refl

  same_token :
      (c n : ℕ) (o : Operator) (u : List ℕ)
      → IsCombinable c o
      → drop n u ≡ c ∷ []
      → next_token parse_f64 (at u n) ≡ done (Token.operator o, at u n)
  unfolding next_token next_token_with_stop
  same_token c n o u k h =
      ap (λ (l : Lexer). start_token parse_f64 [] (next_char (record l { buffer = [] })))
        (stay c n u h (no_whitespace c o k))
      ∙ ap (start_token parse_f64 []) (first_char c n u h)
      ∙ one_operator c n o u k
      ∙ ap done (given_back c n o u k h)

  -- At a `<`, `>`, `=` or `!` that ends the text every call of `next_token` gives the same operator
  -- again, so the end of the expression is never seen.
  pub tokens-repeated :
      (k c n : ℕ) (o : Operator) (u : List ℕ)
      → IsCombinable c o
      → drop n u ≡ c ∷ []
      → tokens parse_f64 k (at u n) ≡ done (repeated k (Token.operator o))
  unfolding tokens
  tokens-repeated zero c n o u i h = refl
  tokens-repeated (suc k) c n o u i h =
      rw (same_token c n o u i h, tokens-repeated k c n o u i h) refl

  second_char :
      (c d n : ℕ) (u v b : List ℕ)
      → drop n u ≡ c ∷ d ∷ v
      → next_char (record { text = u; pos = suc n; buffer = b })
        ≡ (d, record { text = u; pos = suc (suc n); buffer = b })
  unfolding next_char char_or_end
  second_char c d n u v b h =
      ap (λ o. char_or_end o (record { text = u; pos = suc n; buffer = b }))
        (get_elem?-second n u c d v h)

  -- A minus with an `e` or `E` after it is the operator, and the letter is lost: the lexer goes on
  -- behind it.
  pub next_token-minus_e :
      (c n : ℕ) (u v : List ℕ)
      → (c ≡ 0x65) ⊎ (c ≡ 0x45)
      → drop n u ≡ 0x2d ∷ c ∷ v
      → next_token parse_f64 (at u n)
        ≡ done (
          Token.operator Operator.minus,
          record { text = u; pos = suc (suc n); buffer = 0x2d ∷ [] },
        )
  unfolding next_token next_token_with_stop start_token read_number number_round number_verdict
      on_hyphen on_e eat_space spaces
  next_token-minus_e c n u v e h =
      let none : spaces (drop n u) ≡ 0 = ap spaces h in
      let here : n + spaces (drop n u) ≡ n = omega (arith, none) in
      let first : next_char (at u n) ≡ (0x2d, at u (suc n)) = first_of_two 0x2d c n u v h in
      let letter = second_char 0x2d c n u v (0x2d ∷ []) h in
      ap (λ p. start_token parse_f64 [] (next_char (at u p))) here
      ∙ ap (start_token parse_f64 []) first
      ∙ (elim e [ inl small ↦ rw (letter, small) refl | inr large ↦ rw (letter, large) refl ])
