-- ===== src/Expression/Lexer/Tokens.antt =====
-- `next_token` of src/expression_engine/lexer.rs returns a token for every text.
use r_fsm.Prelude.{
  ℕ, zero, suc, ◌+◌, ◌-◌, ◌≤◌, ◌<◌, List, [], ◌∷◌, Bool, true, false, not, Option, none, some, Run,
  done, if◌then◌else◌, ◌==◌, contains, length, drop, ◌≡◌, refl, ap, arith, Bool-cases, inl, inr,
}
use mathlib.Core.Path.{subst}
use r_fsm.Expression.Lexer.{
  Token, Lexer, next_char, back_if, keep, rounds, read_string, read_number, combined,
  first_or_combined, read_operator, is_nil, stop_token, word_end, word_token, read_word, spaces,
  eat_space, start_token, next_token_with_stop,
}
use r_fsm.Expression.Characters.{
  Operator, init, single_operator, is_stop, is_string_delimiter, operator_chars, bracket_chars,
  starts_number, is_whitespace,
}
use r_fsm.Expression.Lexer.Ends.{
  Taken, at_end, taken, next_char-Taken, Within, Lexed, next_char-Within, back_if-Within,
  read_string-Lexed, Read, next_char-Read, read_number-Lexed,
}

module _ {F64 : Type 0} (parse_f64 : List ℕ → Option F64) (t : List ℕ) where
  -- A token after which the lexer is `l`.
  now : (low : ℕ) (k : Token F64) (l : Lexer) → Within t low l → Lexed t low (done (k, l))
  now low k l w = record { token = k; rest = l; returns = refl; within = w }

  either :
      (low : ℕ) (b : Bool) (x y : Run (Token F64 × Lexer))
      → Lexed t low x
      → Lexed t low y
      → Lexed t low (if b then x else y)
  either low true x y p q = p
  either low false x y p q = q

  combined-Within :
      (low first : ℕ) (r : ℕ × Lexer)
      → Within t (suc low) r.1
      → Within t low (combined parse_f64 first r).1
  unfolding combined
  combined-Within low first (second, l) w = elim (Bool-cases (second == 0x3d)) [
    | inl equals ↦ rw equals (back_if-Within t low false l w)
    | inr other ↦ rw other (back_if-Within t low true l w)
  ]

  read_operator-Within :
      (low first : ℕ) (l : Lexer)
      → Within t (suc low) l
      → Within t low (read_operator parse_f64 first l).1
  unfolding read_operator first_or_combined
  read_operator-Within low first l w = by_single (single_operator first)
    where
      by_single : (o : Option Operator) → Within t low (first_or_combined parse_f64 o first l).1
      by_single none = combined-Within low first (next_char l) (next_char-Within t (suc low) l w)
      by_single (some o) = back_if-Within t low false l w

  rounds-enough : (low : ℕ) (l : Lexer) → Within t low l → length t - l.pos < rounds l
  rounds-enough low l w = subst (λ (z : List ℕ). length z - l.pos < rounds l) w.text (omega arith)

  stop_token-Lexed :
      (hard : List ℕ) (low fuel : ℕ) (r : ℕ × Lexer)
      → Read parse_f64 t low fuel r
      → Lexed t low (stop_token parse_f64 hard r.0 r.1)
  unfolding stop_token
  stop_token-Lexed hard low fuel (c, l) (inr (e, w, h)) = rw e (
      either low (contains 0 hard) (done (Token.separator 0, l)) (done (Token.eoe, l))
        (now low (Token.separator 0) l w) (now low Token.eoe l w))
  stop_token-Lexed hard low fuel (c, l) (inl (w, h)) =
      let w' = back_if-Within t low false l w in
      let last : Run (Token F64 × Lexer) =
        if c == 0x3b then done (Token.expression_separator, l) else done (Token.separator c, l) in
      let from_bracket : Run (Token F64 × Lexer) =
        if contains c bracket_chars then done (Token.bracket c, l) else last in
      let from_operator : Run (Token F64 × Lexer) =
        if contains c operator_chars then done (read_operator parse_f64 c l) else from_bracket in
      let from_end : Run (Token F64 × Lexer) =
        if c == 0 then done (Token.eoe, l) else from_operator in
      let from_hard : Run (Token F64 × Lexer) =
        if contains c hard then done (Token.separator c, l) else from_end in
      let at_last =
        either low (c == 0x3b) (done (Token.expression_separator, l)) (done (Token.separator c, l))
          (now low Token.expression_separator l w') (now low (Token.separator c) l w') in
      let at_bracket =
        either low (contains c bracket_chars) (done (Token.bracket c, l)) last
          (now low (Token.bracket c) l w') at_last in
      let at_operator =
        either low (contains c operator_chars) (done (read_operator parse_f64 c l)) from_bracket
          (now low (read_operator parse_f64 c l).0 (read_operator parse_f64 c l).1
            (read_operator-Within low c l w))
          at_bracket in
      let at_end =
        either low (c == 0) (done (Token.eoe, l)) from_operator (now low Token.eoe l w')
          at_operator in
      let at_hard =
        either low (contains c hard) (done (Token.separator c, l)) from_end
          (now low (Token.separator c) l w') at_end in
      either low (is_string_delimiter c) (read_string parse_f64 (rounds l) c l) from_hard
        (read_string-Lexed parse_f64 t (rounds l) c low l w' (rounds-enough low l w')) at_hard

  word_end-Lexed :
      (hard : List ℕ) (low fuel : ℕ) (r : ℕ × Lexer)
      → Read parse_f64 t low fuel r
      → Lexed t low (word_end parse_f64 hard r.0 r.1)
  unfolding word_end
  word_end-Lexed hard low fuel (c, l) (inr (e, w, h)) = rw e (
      either low (is_nil l.buffer) (stop_token parse_f64 hard 0 l)
        (done (word_token parse_f64 l.buffer, l))
        (stop_token-Lexed hard low fuel (0, l) (inr (refl, w, h)))
        (now low (word_token parse_f64 l.buffer) l w))
  word_end-Lexed hard low fuel (c, l) (inl (w, h)) =
      either low (is_nil l.buffer) (stop_token parse_f64 hard c l)
        (done (word_token parse_f64 l.buffer, back_if (not (c == 0)) l))
        (stop_token-Lexed hard low fuel (c, l) (inl (w, h)))
        (now low (word_token parse_f64 l.buffer) (back_if (not (c == 0)) l)
          (back_if-Within t low (not (c == 0)) l w))

  read_word-Lexed :
      (fuel : ℕ) (hard : List ℕ) (low : ℕ) (r : ℕ × Lexer)
      → Read parse_f64 t low fuel r
      → Lexed t low (read_word parse_f64 fuel hard r)
  unfolding read_word
  read_word-Lexed zero hard low (c, l) (inl (w, h)) = absurd (omega arith)
  read_word-Lexed zero hard low (c, l) (inr (e, w, h)) = absurd (omega arith)
  read_word-Lexed (suc fuel) hard low (c, l) (inr (e, w, h)) =
      rw e (word_end-Lexed hard low (suc fuel) (0, l) (inr (refl, w, h)))
  read_word-Lexed (suc fuel) hard low (c, l) (inl (w, h)) =
      either low (is_stop c) (word_end parse_f64 hard c l)
        (read_word parse_f64 fuel hard (next_char (keep c l)))
        (word_end-Lexed hard low (suc fuel) (c, l) (inl (w, h)))
        (read_word-Lexed fuel hard low (next_char (keep c l)) (
          next_char-Read parse_f64 t low fuel (keep c l)
            (record { text = w.text; low_bound = omega (arith, w.low_bound); bound = w.bound }) h))

  start_token-Lexed :
      (hard : List ℕ) (low : ℕ) (r : ℕ × Lexer)
      → Read parse_f64 t low (rounds r.1) r
      → Lexed t low (start_token parse_f64 hard r)
  unfolding start_token
  start_token-Lexed hard low (c, l) h =
      either low (starts_number c) (read_number parse_f64 (rounds l) init c l)
        (read_word parse_f64 (rounds l) hard (c, l))
        (read_number-Lexed parse_f64 t (rounds l) init low (c, l) h)
        (read_word-Lexed (rounds l) hard low (c, l) h)

  spaces-bound : (u : List ℕ) → spaces u ≤ length u
  unfolding spaces
  spaces-bound [] = omega arith
  spaces-bound (c ∷ u) = elim (Bool-cases (is_whitespace c)) [
    | inl space ↦ rw space (omega (arith, spaces-bound u))
    | inr other ↦ rw other (omega arith)
  ]

  length-drop : (n : ℕ) (u : List ℕ) → length (drop n u) ≡ length u - n
  length-drop zero u = omega arith
  length-drop (suc n) [] = omega arith
  length-drop (suc n) (c ∷ u) = omega (arith, length-drop n u)

  first-Read :
      (low : ℕ) (l : Lexer) (r : ℕ × Lexer)
      → Within t low l
      → Taken l r
      → Read parse_f64 t low (rounds r.1) r
  first-Read low l r w at_end = inr (refl, w, omega arith)
  first-Read low l r w (taken c inside) =
      let same : length l.text ≡ length t = ap (λ (z : List ℕ). length z) w.text in
      inl (
        record {
          text = w.text;
          low_bound = omega (arith, w.low_bound);
          bound = omega (arith, inside, same);
        },
        omega (arith, same),
      )

  -- `next_token` returns a token for every text, hard stops and position in it: no loop runs out of
  -- characters. The text stays, and the lexer goes to a place between its position and the end.
  pub next_token_with_stop-Lexed :
      (hard : List ℕ) (l : Lexer)
      → Within t l.pos l
      → Lexed t l.pos (next_token_with_stop parse_f64 hard l)
  unfolding next_token_with_stop eat_space
  next_token_with_stop-Lexed hard l w =
      let n = spaces (drop l.pos l.text) in
      let few = spaces-bound (drop l.pos l.text) in
      let left = length-drop l.pos l.text in
      let same : length l.text ≡ length t = ap (λ (z : List ℕ). length z) w.text in
      let l1 : Lexer = record l { pos = l.pos + n; buffer = [] } in
      let w1 : Within t l.pos l1 = record {
        text = w.text;
        low_bound = omega arith;
        bound = omega (arith, few, left, same, w.bound);
      } in
      start_token-Lexed hard l.pos (next_char l1)
        (first-Read l.pos l1 (next_char l1) w1 (next_char-Taken l1))
