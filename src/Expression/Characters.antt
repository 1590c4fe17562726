-- ===== src/Expression/Characters.antt =====
-- Characters of src/expression_engine/lexer.rs: their kinds, the operators, and the automaton of
-- numbers.
use r_fsm.Prelude.{
  ℕ, ◌+◌, ◌-◌, ◌*◌, ◌^◌, List, [], ◌∷◌, Bool, true, false, not as is_not, ◌&&◌, ◌||◌, Option, none,
  some, if◌then◌else◌, ◌==◌, ltb, leb, contains,
}

pub data Operator : Type 0 where
  multiply divide plus minus less less_equal : Operator
  greater greater_equal assign assign_undefined : Operator
  equal not_equal and or modulus not : Operator

-- An `i64`: its sign and its absolute value.
pub record Integer : Type 0 where
  pub negative : Bool
  pub magnitude : ℕ

abbrev pub is_whitespace : ℕ → Bool
is_whitespace c = contains c (0x20 ∷ 0x0a ∷ 0x0d ∷ 0x09 ∷ [])

abbrev pub is_digit : ℕ → Bool
is_digit c = leb 0x30 c && leb c 0x39

abbrev pub is_string_delimiter : ℕ → Bool
is_string_delimiter c = contains c (0x27 ∷ 0x22 ∷ [])

abbrev pub is_stop : ℕ → Bool
is_stop c =
    is_whitespace c
    || contains c (
        0x00 ∷ 0x2e ∷ 0x21 ∷ 0x2c ∷ 0x5c ∷ 0x2d ∷ 0x2b ∷ 0x2f ∷ 0x3a ∷ 0x2a ∷ 0x26 ∷ 0x7c ∷ 0x3c
        ∷ 0x3e ∷ 0x3d ∷ 0x25 ∷ 0x3f ∷ 0x5b ∷ 0x5d ∷ 0x28 ∷ 0x29 ∷ 0x7b ∷ 0x7d ∷ 0x22 ∷ 0x27 ∷ 0x3b
        ∷ [])

-- What a character of a string is.
pub data StringChar : Type 0 where
  text_end escape_start string_end plain : StringChar

unfoldable pub string_char : ℕ → ℕ → StringChar
string_char delimiter c =
    if c == 0
    then text_end
    else if c == 0x5c
    then escape_start
    else if c == delimiter
    then string_end
    else plain

-- What an escape stands for.
pub data Escape : Type 0 where
  single : ℕ → Escape
  code_point illegal no_char : Escape

unfoldable pub escape_char : ℕ → Escape
escape_char c =
    if c == 0
    then no_char
    else if contains c (0x22 ∷ 0x5c ∷ 0x2f ∷ [])
    then single c
    else if c == 0x62
    then single 0x08
    else if c == 0x66
    then single 0x0c
    else if c == 0x6e
    then single 0x0a
    else if c == 0x72
    then single 0x0d
    else if c == 0x74
    then single 0x09
    else if c == 0x75
    then code_point
    else illegal

-- `char::from_u32`
abbrev pub is_char : ℕ → Bool
is_char v = ltb v 0xd800 || (leb 0xe000 v && leb v 0x10ffff)

pub data NumberState : Type 0 where
  init fix_point fraction after_e exponent on_minus on_sign : NumberState

-- What the automaton of numbers does with a character: it goes on, or it ends and gives the
-- character back or not, or it ends with an operator.
pub data Verdict : Type 0 where
  go : NumberState → Verdict
  end_number : Bool → Verdict
  end_operator : Operator → Bool → Verdict

unfoldable pub on_dot : NumberState → Verdict
on_dot init = go fraction
on_dot fix_point = go fraction
on_dot on_minus = go fraction
on_dot _ = end_number true

unfoldable pub on_digit : NumberState → Verdict
on_digit init = go fix_point
on_digit on_minus = go fix_point
on_digit after_e = go exponent
on_digit on_sign = go exponent
on_digit fix_point = go fix_point
on_digit fraction = go fraction
on_digit exponent = go exponent

unfoldable pub on_plus : NumberState → Verdict
on_plus init = end_operator plus false
on_plus on_minus = end_operator minus true
on_plus after_e = go on_sign
on_plus _ = end_number true

unfoldable pub on_hyphen : NumberState → Verdict
on_hyphen init = go on_minus
on_hyphen after_e = go on_sign
on_hyphen on_minus = end_operator minus true
on_hyphen _ = end_number true

unfoldable pub on_e : NumberState → Verdict
on_e fix_point = go after_e
on_e fraction = go after_e
on_e on_minus = end_operator minus false
on_e _ = end_number true

unfoldable pub number_verdict : NumberState → ℕ → Verdict
unfolding on_dot on_digit on_plus on_hyphen on_e
number_verdict s c =
    if c == 0x2e
    then on_dot s
    else if is_digit c
    then on_digit s
    else if c == 0x2b
    then on_plus s
    else if c == 0x2d
    then on_hyphen s
    else if c == 0x45 || c == 0x65
    then on_e s
    else end_number (is_not (c == 0))

-- `parse::<i64>` on an optional minus and digits.
unfoldable pub digits_value : ℕ → List ℕ → ℕ
digits_value v [] = v
digits_value v (c ∷ l) = digits_value (10 * v + (c - 0x30)) l

unfoldable pub parse_i64 : List ℕ → Option Integer
unfolding digits_value
parse_i64 [] = none
parse_i64 (c ∷ l) =
    if c == 0x2d
    then (if leb (digits_value 0 l) (2 ^ 63)
        then some (record { negative = true; magnitude = digits_value 0 l })
        else none)
    else if ltb (digits_value 0 (c ∷ l)) (2 ^ 63)
    then some (record { negative = false; magnitude = digits_value 0 (c ∷ l) })
    else none

-- The operators that a following `=` changes; without a value for other characters.
abbrev pub with_equals : ℕ → Option Operator
with_equals first =
    if first == 0x3f
    then some assign_undefined
    else if first == 0x3c
    then some less_equal
    else if first == 0x3e
    then some greater_equal
    else if first == 0x3d
    then some equal
    else if first == 0x21
    then some not_equal
    else none

abbrev pub without_equals : ℕ → Option Operator
without_equals first =
    if first == 0x3c
    then some less
    else if first == 0x3e
    then some greater
    else if first == 0x3d
    then some assign
    else if first == 0x21
    then some Operator.not
    else none

-- The operators of one character.
abbrev pub single_operator : ℕ → Option Operator
single_operator first =
    if first == 0x2d
    then some minus
    else if first == 0x2b
    then some plus
    else if first == 0x2a
    then some multiply
    else if first == 0x3a || first == 0x2f
    then some divide
    else if first == 0x26
    then some and
    else if first == 0x7c
    then some or
    else if first == 0x25
    then some modulus
    else none

-- "true", "false" and "null".
abbrev pub same_word : List ℕ → List ℕ → Bool
same_word [] [] = true
same_word [] (d ∷ e) = false
same_word (c ∷ s) [] = false
same_word (c ∷ s) (d ∷ e) = c == d && same_word s e

abbrev pub starts_number : ℕ → Bool
starts_number c = is_digit c || c == 0x2d || c == 0x2b || c == 0x2e

-- The characters that start an operator, and the brackets.
abbrev pub operator_chars : List ℕ
operator_chars =
    0x3f ∷ 0x2b ∷ 0x2d ∷ 0x2a ∷ 0x3c ∷ 0x3e ∷ 0x3d ∷ 0x25 ∷ 0x2f ∷ 0x3a ∷ 0x21 ∷ 0x26 ∷ 0x7c ∷ []

abbrev pub bracket_chars : List ℕ
bracket_chars = 0x7b ∷ 0x7d ∷ 0x28 ∷ 0x29 ∷ 0x5b ∷ 0x5d ∷ []
