-- ===== src/Expression/Lexer/Strings.antt =====
-- Strings with escapes in src/expression_engine/lexer.rs are read back.
use r_fsm.Prelude.{ℕ, List, [], ◌∷◌, ◌++◌, if◌then◌else◌, ◌==◌, ◌≡◌}
use r_fsm.Expression.Lexer.{Lexer}
use r_fsm.Expression.Characters.{plain, single, string_char, escape_char}

-- A character as it stands in a string in double quotes.
abbrev pub quoted_char : ℕ → List ℕ
quoted_char c =
    if c == 0x22
    then 0x5c ∷ 0x22 ∷ []
    else if c == 0x5c
    then 0x5c ∷ 0x5c ∷ []
    else if c == 0x08
    then 0x5c ∷ 0x62 ∷ []
    else if c == 0x0c
    then 0x5c ∷ 0x66 ∷ []
    else if c == 0x0a
    then 0x5c ∷ 0x6e ∷ []
    else if c == 0x0d
    then 0x5c ∷ 0x72 ∷ []
    else if c == 0x09
    then 0x5c ∷ 0x74 ∷ []
    else c ∷ []

abbrev pub quoted : List ℕ → List ℕ
quoted [] = []
quoted (c ∷ s) = quoted_char c ++ quoted s

-- The character as it is, or a backslash and a character that stands for it.
data Quoted (c : ℕ) : List ℕ → Type 0 where
  as_it_is : string_char 0x22 c ≡ plain → Quoted c (c ∷ [])
  by_escape : (e : ℕ) → escape_char e ≡ single c → Quoted c (0x5c ∷ e ∷ [])

abbrev on : List ℕ → ℕ → List ℕ → Lexer
on text pos buffer = record { text = text; pos = pos; buffer = buffer }
