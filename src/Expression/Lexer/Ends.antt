-- ===== src/Expression/Lexer/Ends.antt =====
-- The lexer of src/expression_engine/lexer.rs ends on every text, within the text.
use r_fsm.Prelude.{
  ℕ, zero, suc, ◌-◌, ◌≤◌, ◌<◌, List, [], ◌∷◌, Bool, true, false, Option, none, some, Run, done,
  length, get_elem?, ◌≡◌, refl, arith, Bool-cases, inl, inr, ◌⊎◌,
}
use mathlib.Core.Path.{subst}
use r_fsm.Expression.Lexer.{
  Token, Lexer, LexError, next_char, char_or_end, push_back, back_if, keep, u_digits, escaped,
  escaped_code_point, string_round, read_string, number_round, number_token, read_number,
}
use r_fsm.Expression.Characters.{
  StringChar, text_end, escape_start, string_end, plain, Escape, single, code_point, illegal,
  no_char, NumberState, Verdict, go, end_number, end_operator, string_char, escape_char, is_char,
  is_digit, number_verdict,
}

-- A lexer on the text `t` whose position lies between `low` and the end.
pub record Within (t : List ℕ) (low : ℕ) (l : Lexer) : Type 0 where
  pub text : l.text ≡ t
  pub low_bound : low ≤ l.pos
  pub bound : l.pos ≤ length t

-- A run that gives a token and such a lexer.
pub record Lexed {F64 : Type 0} (t : List ℕ) (low : ℕ) (run : Run (Token F64 × Lexer))
    : Type 0 where
  pub token : Token F64
  pub rest : Lexer
  pub returns : run ≡ done (token, rest)
  pub within : Within t low rest

get_elem?-bound : (t : List ℕ) (i c : ℕ) → get_elem? t i ≡ some c → i < length t
get_elem?-bound [] i c h = cc
get_elem?-bound (x ∷ t) zero c h = omega arith
get_elem?-bound (x ∷ t) (suc i) c h = omega (arith, get_elem?-bound t i c h)

-- What was taken: a character, or the 0 of the end.
pub data Taken (l : Lexer) : ℕ × Lexer → Type 0 where
  at_end : Taken l (0, l)
  taken : (c : ℕ) → l.pos < length l.text → Taken l (c, record l { pos = suc l.pos })

pub next_char-Taken : (l : Lexer) → Taken l (next_char l)
unfolding next_char
next_char-Taken l = by_char (get_elem? l.text l.pos) (λ c h. get_elem?-bound l.text l.pos c h)
  where
    by_char :
        (o : Option ℕ) → ((c : ℕ) → o ≡ some c → l.pos < length l.text) → Taken l (char_or_end o l)
    by_char none f = at_end
    by_char (some c) f = taken c (f c refl)

Taken-Within :
    (t : List ℕ) (low : ℕ) (l : Lexer) (r : ℕ × Lexer)
    → Within t low l
    → Taken l r
    → Within t low r.1
Taken-Within t low l r w at_end = w
Taken-Within t low l r w (taken c h) = record {
  text = w.text;
  low_bound = omega (arith, w.low_bound);
  bound = subst (λ (z : List ℕ). suc l.pos ≤ length z) w.text (omega (arith, h));
}

pub next_char-Within :
    (t : List ℕ) (low : ℕ) (l : Lexer) → Within t low l → Within t low (next_char l).1
next_char-Within t low l w = Taken-Within t low l (next_char l) w (next_char-Taken l)

pub back_if-Within :
    (t : List ℕ) (low : ℕ) (b : Bool) (l : Lexer)
    → Within t (suc low) l
    → Within t low (back_if b l)
unfolding push_back
back_if-Within t low true l w = record {
  text = w.text;
  low_bound = omega (arith, w.low_bound);
  bound = omega (arith, w.bound);
}
back_if-Within t low false l w = record {
  text = w.text;
  low_bound = omega (arith, w.low_bound);
  bound = w.bound;
}

u_digits-Within :
    (t : List ℕ) (low n v : ℕ) (l : Lexer) → Within t low l → Within t low (u_digits n v l).1
unfolding u_digits
u_digits-Within t low zero v l w = w
u_digits-Within t low (suc n) v l w =
    let w' = next_char-Within t low l w in
    elim (Bool-cases (is_digit (next_char l).0)) [
      | inl digit ↦ rw digit (u_digits-Within t low n _ (next_char l).1 w')
      | inr other ↦ rw other w'
    ]

module _ {F64 : Type 0} (parse_f64 : List ℕ → Option F64) (t : List ℕ) where
  -- Rounds that go on return, from a position on.
  GoesOn : ℕ → (ℕ → Lexer → Run (Token F64 × Lexer)) → Type 0
  GoesOn low next = (e : ℕ) (l : Lexer) → Within t low l → Lexed t low (next e l)

  escaped_code_point-Lexed :
      (low : ℕ) (r : Option ℕ × Lexer) (next : ℕ → Lexer → Run (Token F64 × Lexer))
      → Within t low r.1
      → GoesOn low next
      → Lexed t low (escaped_code_point parse_f64 r next)
  unfolding escaped_code_point GoesOn
  escaped_code_point-Lexed low (none, l) next w g = record {
    token = _;
    rest = l;
    returns = refl;
    within = w;
  }
  escaped_code_point-Lexed low (some v, l) next w g = elim (Bool-cases (is_char v)) [
    | inl valid ↦ rw valid (g v l w)
    | inr invalid ↦ rw invalid (record {
      token = Token.error LexError.illegal_code_point;
      rest = l;
      returns = refl;
      within = w;
    })
  ]

  escaped-Lexed :
      (low : ℕ) (e : Escape) (l : Lexer) (next : ℕ → Lexer → Run (Token F64 × Lexer))
      → Within t low l
      → GoesOn low next
      → Lexed t low (escaped parse_f64 e l next)
  unfolding escaped GoesOn
  escaped-Lexed low (single c) l next w g = g c l w
  escaped-Lexed low code_point l next w g =
      escaped_code_point-Lexed low (u_digits 4 0 l) next (u_digits-Within t low 4 0 l w) g
  escaped-Lexed low illegal l next w g = record { token = _; rest = l; returns = refl; within = w }
  escaped-Lexed low no_char l next w g = record { token = _; rest = l; returns = refl; within = w }

  string_round-Lexed :
      (low : ℕ) (k : StringChar) (c : ℕ) (l : Lexer) (next : ℕ → Lexer → Run (Token F64 × Lexer))
      → Within t low l
      → GoesOn low next
      → Lexed t low (string_round parse_f64 k c l next)
  unfolding string_round GoesOn
  string_round-Lexed low text_end c l next w g = record {
    token = _;
    rest = l;
    returns = refl;
    within = w;
  }
  string_round-Lexed low escape_start c l next w g =
      escaped-Lexed low (escape_char (next_char l).0) (next_char l).1 next
        (next_char-Within t low l w) g
  string_round-Lexed low string_end c l next w g = record {
    token = _;
    rest = l;
    returns = refl;
    within = w;
  }
  string_round-Lexed low plain c l next w g = g c l w

  pub weaken :
      (low high : ℕ)
      → low ≤ high
      → (run : Run (Token F64 × Lexer)) → Lexed t high run
      → Lexed t low run
  weaken low high h run r = record {
    token = r.token;
    rest = r.rest;
    returns = r.returns;
    within = record {
      text = r.within.text;
      low_bound = omega (arith, h, r.within.low_bound);
      bound = r.within.bound;
    };
  }

  string_step-Lexed :
      (delimiter low : ℕ) (l : Lexer) (r : ℕ × Lexer) (next : ℕ → Lexer → Run (Token F64 × Lexer))
      → Within t low l
      → Taken l r
      → (l.pos < length t → GoesOn (suc l.pos) next)
      → Lexed t low (string_round parse_f64 (string_char delimiter r.0) r.0 r.1 next)
  unfolding string_round string_char GoesOn
  string_step-Lexed delimiter low l r next w at_end g = record {
    token = Token.error LexError.missing_delimiter;
    rest = l;
    returns = refl;
    within = w;
  }
  string_step-Lexed delimiter low l r next w (taken c inside) g =
      let inside' : l.pos < length t = subst (λ (z : List ℕ). l.pos < length z) w.text inside in
      let l' : Lexer = record l { pos = suc l.pos } in
      let w' : Within t (suc l.pos) l' = record {
        text = w.text;
        low_bound = omega arith;
        bound = omega (arith, inside');
      } in
      weaken low (suc l.pos) (omega (arith, w.low_bound)) _
        (string_round-Lexed (suc l.pos) (string_char delimiter c) c l' next w' (g inside'))

  pub read_string-Lexed :
      (fuel delimiter low : ℕ) (l : Lexer)
      → Within t low l
      → length t - l.pos < fuel
      → Lexed t low (read_string parse_f64 fuel delimiter l)
  unfolding read_string GoesOn
  read_string-Lexed zero delimiter low l w h = absurd (omega arith)
  read_string-Lexed (suc fuel) delimiter low l w h =
      string_step-Lexed delimiter low l (next_char l)
        (λ e l'. read_string parse_f64 fuel delimiter (keep e l')) w (next_char-Taken l)
        (λ inside e l' w'.
          read_string-Lexed fuel delimiter (suc l.pos) (keep e l')
            (record { text = w'.text; low_bound = w'.low_bound; bound = w'.bound })
            (omega (arith, h, inside, w'.low_bound)))

  -- What is known of a character and the lexer after it: it was taken, or it is the 0 of the end.
  abbrev pub Read : ℕ → ℕ → ℕ × Lexer → Type 0
  Read low fuel (c, l) =
      (Within t (suc low) l × (suc (length t - l.pos) < fuel))
      ⊎ ((c ≡ 0) × Within t low l × (0 < fuel))

  pub next_char-Read :
      (low fuel : ℕ) (l : Lexer)
      → Within t low l
      → suc (length t - l.pos) < suc fuel
      → Read low fuel (next_char l)
  next_char-Read low fuel l w h = by_char (next_char l) (next_char-Taken l)
    where
      by_char : (r : ℕ × Lexer) → Taken l r → Read low fuel r
      by_char r at_end = inr (refl, w, omega (arith, h))
      by_char r (taken c inside) =
          let inside' : l.pos < length t = subst (λ (z : List ℕ). l.pos < length z) w.text inside in
          inl (
            record {
              text = w.text;
              low_bound = omega (arith, w.low_bound);
              bound = omega (arith, inside');
            },
            omega (arith, h, inside'),
          )

  number_end :
      (low : ℕ) (b : Bool) (s : NumberState) (l : Lexer)
      → Within t low (back_if b l)
      → Lexed t low (done (number_token parse_f64 s l.buffer, back_if b l))
  number_end low b s l w = record {
    token = number_token parse_f64 s l.buffer;
    rest = back_if b l;
    returns = refl;
    within = w;
  }

  number_step-Lexed :
      (fuel low : ℕ) (v : Verdict) (s : NumberState) (c : ℕ) (l : Lexer)
      (next : NumberState → ℕ × Lexer → Run (Token F64 × Lexer))
      → Within t (suc low) l
      → suc (length t - l.pos) < suc fuel
      → ((s' : NumberState) (r : ℕ × Lexer) → Read low fuel r → Lexed t low (next s' r))
      → Lexed t low (number_round parse_f64 v s c l next)
  unfolding number_round
  number_step-Lexed fuel low (go s') s c l next w h g = g s' (next_char (keep c l)) (
      next_char-Read low fuel (keep c l)
        (record { text = w.text; low_bound = omega (arith, w.low_bound); bound = w.bound }) h)
  number_step-Lexed fuel low (end_number b) s c l next w h g =
      number_end low b s l (back_if-Within t low b l w)
  number_step-Lexed fuel low (end_operator o b) s c l next w h g = record {
    token = Token.operator o;
    rest = back_if b l;
    returns = refl;
    within = back_if-Within t low b l w;
  }

  pub read_number-Lexed :
      (fuel : ℕ) (s : NumberState) (low : ℕ) (r : ℕ × Lexer)
      → Read low fuel r
      → Lexed t low (read_number parse_f64 fuel s r.0 r.1)
  unfolding read_number number_round number_verdict
  read_number-Lexed zero s low (c, l) (inl (w, h)) = absurd (omega arith)
  read_number-Lexed zero s low (c, l) (inr (e, w, h)) = absurd (omega arith)
  read_number-Lexed (suc fuel) s low (c, l) (inr (e, w, h)) = rw e (number_end low false s l w)
  read_number-Lexed (suc fuel) s low (c, l) (inl (w, h)) =
      number_step-Lexed fuel low (number_verdict s c) s c l
        (λ s' (c', l'). read_number parse_f64 fuel s' c' l') w h
        (λ s' r q. read_number-Lexed fuel s' low r q)
