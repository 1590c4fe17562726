-- ===== src/Expression/Lexer.antt =====
-- `ExpressionLexer` of src/expression_engine/lexer.rs: tokens of a text of code points.
pub mod Ends
pub mod Tokens
pub mod Strings
pub mod Operators
use r_fsm.Prelude.{
  ℕ, zero, suc, ◌+◌, ◌-◌, ◌*◌, ◌≤◌, ◌<◌, ◌^◌, List, [], ◌∷◌, ◌++◌, Bool, true, false, not as is_not,
  ◌&&◌, ◌||◌, Option, none, some, Run, done, stuck, ◌>>=◌, if◌then◌else◌, ◌==◌, ltb, leb, contains,
  length, get_elem?, drop, inl, inr, ◌⊎◌,
}
use r_fsm.Expression.Characters.{
  is_whitespace, is_digit, is_string_delimiter, is_stop, StringChar, string_char, Escape,
  escape_char, is_char, NumberState, Verdict, on_dot, on_digit, on_plus, on_hyphen, on_e,
  number_verdict, digits_value, parse_i64, Operator, Integer, with_equals, without_equals,
  single_operator, operator_chars, bracket_chars, same_word, starts_number, text_end, escape_start,
  string_end, plain, single, code_point, illegal, no_char, init, fix_point, fraction, after_e,
  exponent, on_minus, on_sign, go, end_number, end_operator, multiply, divide, plus, minus, less,
  less_equal, greater, greater_equal, assign, assign_undefined, equal, not_equal, and, or, modulus,
}

-- The texts of `Token::Error`, by their kind.
pub data LexError : Type 0 where
  missing_delimiter illegal_u_sequence illegal_code_point illegal_escape : LexError
  missing_exponent parse_int parse_float internal_error : LexError

pub data NumericToken (F64 : Type 0) : Type 0 where
  integer : Integer → NumericToken F64
  double : F64 → NumericToken F64

pub data Token (F64 : Type 0) : Type 0 where
  number : NumericToken F64 → Token F64
  identifier : List ℕ → Token F64
  t_string : List ℕ → Token F64
  boolean : Bool → Token F64
  operator : Operator → Token F64
  bracket : ℕ → Token F64
  separator : ℕ → Token F64
  expression_separator : Token F64
  null : Token F64
  error : LexError → Token F64
  eoe : Token F64

pub record Lexer : Type 0 where
  pub text : List ℕ
  pub pos : ℕ
  pub buffer : List ℕ

unfoldable pub new : List ℕ → Lexer
new text = record { text = text; pos = 0; buffer = [] }

-- At the end of the text `next_char` gives 0 and stays where it is.
pub char_or_end : Option ℕ → Lexer → ℕ × Lexer
char_or_end none l = (0, l)
char_or_end (some c) l = (c, record l { pos = suc l.pos })

unfoldable pub next_char : Lexer → ℕ × Lexer
unfolding char_or_end
next_char l = char_or_end (get_elem? l.text l.pos) l

unfoldable pub push_back : Lexer → Lexer
push_back l = record l { pos = l.pos - 1 }

abbrev pub back_if : Bool → Lexer → Lexer
back_if b l = if b then push_back l else l

-- `buffer.push`
abbrev pub keep : ℕ → Lexer → Lexer
keep c l = record l { buffer = l.buffer ++ c ∷ [] }

-- The rounds given to a loop over the characters: one more than there are left.
abbrev pub rounds : Lexer → ℕ
rounds l = suc (suc (length l.text - l.pos))

-- The characters of a `\u` sequence: four decimal digits, read as hexadecimal ones.
pub u_digits : ℕ → ℕ → Lexer → Option ℕ × Lexer
unfolding next_char
u_digits zero v l = (some v, l)
u_digits (suc n) v l =
    let (c, l') = next_char l in
    let rest = u_digits n (16 * v + (c - 0x30)) l' in if is_digit c then rest else (none, l')

abbrev pub is_nil : List ℕ → Bool
is_nil [] = true
is_nil (x ∷ l) = false

-- `eat_space`: the whitespace from the position on is passed over.
pub spaces : List ℕ → ℕ
spaces [] = 0
spaces (c ∷ l) = let rest = spaces l in if is_whitespace c then suc rest else 0

unfoldable pub eat_space : Lexer → Lexer
unfolding spaces
eat_space l = record l { pos = l.pos + spaces (drop l.pos l.text) }

-- `parse::<f64>` of the standard library is a parameter.
module _ {F64 : Type 0} (parse_f64 : List ℕ → Option F64) where
  escaped_code_point :
      Option ℕ × Lexer → (ℕ → Lexer → Run (Token F64 × Lexer)) → Run (Token F64 × Lexer)
  escaped_code_point (none, l) next = done (Token.error illegal_u_sequence, l)
  escaped_code_point (some v, l) next =
      if is_char v then next v l else done (Token.error illegal_code_point, l)

  escaped : Escape → Lexer → (ℕ → Lexer → Run (Token F64 × Lexer)) → Run (Token F64 × Lexer)
  unfolding escaped_code_point u_digits
  escaped (single c) l next = next c l
  escaped code_point l next = escaped_code_point (u_digits 4 0 l) next
  escaped illegal l next = done (Token.error illegal_escape, l)
  escaped no_char l next = done (Token.error missing_delimiter, l)

  -- The branches of a round of the loop in `read_string`.
  string_round :
      StringChar → ℕ → Lexer → (ℕ → Lexer → Run (Token F64 × Lexer)) → Run (Token F64 × Lexer)
  unfolding escaped escape_char next_char
  string_round text_end c l next = done (Token.error missing_delimiter, l)
  string_round escape_start c l next = let (e, l') = next_char l in escaped (escape_char e) l' next
  string_round string_end c l next = done (Token.t_string l.buffer, l)
  string_round plain c l next = next c l

  pub read_string : ℕ → ℕ → Lexer → Run (Token F64 × Lexer)
  unfolding string_round string_char next_char
  read_string zero delimiter l = stuck
  read_string (suc fuel) delimiter l =
      let (c, l') = next_char l in
      string_round (string_char delimiter c) c l' (λ e l''. read_string fuel delimiter (keep e l''))

  abbrev operator_token : Option Operator → Token F64
  operator_token none = Token.error internal_error
  operator_token (some o) = Token.operator o

  -- `=` after the first character belongs to the operator; any other character is given back, also
  -- at the end of the text, where none was taken.
  combined : ℕ → ℕ × Lexer → Token F64 × Lexer
  unfolding push_back
  combined first (second, l) =
      if second == 0x3d
      then (operator_token (with_equals first), l)
      else (operator_token (without_equals first), push_back l)

  first_or_combined : Option Operator → ℕ → Lexer → Token F64 × Lexer
  unfolding combined next_char
  first_or_combined none first l = combined first (next_char l)
  first_or_combined (some o) first l = (Token.operator o, l)

  unfoldable pub read_operator : ℕ → Lexer → Token F64 × Lexer
  unfolding first_or_combined
  read_operator first l = first_or_combined (single_operator first) first l

  integer_token : Option Integer → Token F64
  integer_token none = Token.error parse_int
  integer_token (some v) = Token.number (NumericToken.integer v)

  double_token : Option F64 → Token F64
  double_token none = Token.error parse_float
  double_token (some v) = Token.number (NumericToken.double v)

  -- The token of a number from the state in which the loop has ended.
  number_token : NumberState → List ℕ → Token F64
  unfolding integer_token double_token parse_i64
  number_token init b = Token.error internal_error
  number_token fix_point b = integer_token (parse_i64 b)
  number_token fraction b =
      if length b == 1 then Token.separator 0x2e else double_token (parse_f64 b)
  number_token exponent b =
      if length b == 1 then Token.separator 0x2e else double_token (parse_f64 b)
  number_token after_e b = Token.error missing_exponent
  number_token on_sign b = Token.error missing_exponent
  number_token on_minus b = Token.operator minus

  number_round :
      Verdict
      → NumberState
      → ℕ
      → Lexer
      → (NumberState → ℕ × Lexer → Run (Token F64 × Lexer))
      → Run (Token F64 × Lexer)
  unfolding number_token push_back next_char
  number_round (go s') s c l next = next s' (next_char (keep c l))
  number_round (end_number b) s c l next = done (number_token s l.buffer, back_if b l)
  number_round (end_operator o b) s c l next = done (Token.operator o, back_if b l)

  pub read_number : ℕ → NumberState → ℕ → Lexer → Run (Token F64 × Lexer)
  unfolding number_round number_verdict
  read_number zero s c l = stuck
  read_number (suc fuel) s c l =
      number_round (number_verdict s c) s c l (λ s' (c', l'). read_number fuel s' c' l')

  word_token : List ℕ → Token F64
  word_token b =
      if same_word b (0x74 ∷ 0x72 ∷ 0x75 ∷ 0x65 ∷ [])
      then Token.boolean true
      else if same_word b (0x66 ∷ 0x61 ∷ 0x6c ∷ 0x73 ∷ 0x65 ∷ [])
      then Token.boolean false
      else if same_word b (0x6e ∷ 0x75 ∷ 0x6c ∷ 0x6c ∷ [])
      then Token.null
      else Token.identifier b

  -- A stop at the start of a token.
  stop_token : List ℕ → ℕ → Lexer → Run (Token F64 × Lexer)
  unfolding read_operator
  stop_token hard_stops c l =
      let text = read_string (rounds l) c l in
      if is_string_delimiter c
      then text
      else if contains c hard_stops
      then done (Token.separator c, l)
      else if c == 0
      then done (Token.eoe, l)
      else if contains c operator_chars
      then done (read_operator c l)
      else if contains c bracket_chars
      then done (Token.bracket c, l)
      else if c == 0x3b
      then done (Token.expression_separator, l)
      else done (Token.separator c, l)

  -- A stop ends a word; the loop gives it back for the next call, unless it is 0.
  word_end : List ℕ → ℕ → Lexer → Run (Token F64 × Lexer)
  unfolding stop_token word_token push_back
  word_end hard_stops c l =
      let first = stop_token hard_stops c l in
      if is_nil l.buffer then first else done (word_token l.buffer, back_if (is_not (c == 0)) l)

  pub read_word : ℕ → List ℕ → ℕ × Lexer → Run (Token F64 × Lexer)
  unfolding word_end next_char
  read_word zero hard_stops (c, l) = stuck
  read_word (suc fuel) hard_stops (c, l) =
      let rest = read_word fuel hard_stops (next_char (keep c l)) in
      let stop = word_end hard_stops c l in if is_stop c then stop else rest

  start_token : List ℕ → ℕ × Lexer → Run (Token F64 × Lexer)
  unfolding read_number read_word
  start_token hard_stops (c, l) =
      let number = read_number (rounds l) init c l in
      let word = read_word (rounds l) hard_stops (c, l) in if starts_number c then number else word

  unfoldable pub next_token_with_stop : List ℕ → Lexer → Run (Token F64 × Lexer)
  unfolding eat_space start_token next_char
  next_token_with_stop hard_stops l =
      start_token hard_stops (next_char (record (eat_space l) { buffer = [] }))

  unfoldable pub next_token : Lexer → Run (Token F64 × Lexer)
  unfolding next_token_with_stop
  next_token l = next_token_with_stop [] l

  -- `Ok` of a number, or `Err` of the token's error, if it is one.
  numeric : Token F64 × Lexer → (NumericToken F64 ⊎ Option LexError) × Lexer
  numeric (number n, l) = (inl n, l)
  numeric (error e, l) = (inr (some e), l)
  numeric (_, l) = (inr none, l)

  unfoldable pub next_number : Lexer → Run ((NumericToken F64 ⊎ Option LexError) × Lexer)
  unfolding next_token numeric
  next_number l = next_token l >>= λ r. done (numeric r)

  named : Token F64 × Lexer → (List ℕ ⊎ Token F64) × Lexer
  named (identifier s, l) = (inl s, l)
  named (t, l) = (inr t, l)

  unfoldable pub next_name : Lexer → Run ((List ℕ ⊎ Token F64) × Lexer)
  unfolding next_token named
  next_name l = next_token l >>= λ r. done (named r)

unfoldable pub has_next : Lexer → Bool
has_next l = ltb l.pos (length l.text)
