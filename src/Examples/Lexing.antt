-- ===== src/Examples/Lexing.antt =====
-- The theorems on the lexer of src/expression_engine/lexer.rs at concrete inputs.
use r_fsm.Prelude.{ℕ, List, [], ◌∷◌, Option, none, done, ◌≡◌, refl, arith, inl}
use r_fsm.Expression.Lexer.{Token, next_token, next_token_with_stop}
use r_fsm.Expression.Characters.{Operator}
use r_fsm.Expression.Lexer.Ends.{Lexed}
use r_fsm.Expression.Lexer.Tokens.{next_token_with_stop-Lexed}
use r_fsm.Expression.Lexer.Operators.{
  IsCombinable, at, tokens, repeated, tokens-repeated, next_token-minus_e,
}

-- No text is a floating point number here.
abbrev no_f64 : List ℕ → Option ℕ
no_f64 b = none

-- "a <", ` "q"" ` with its quote escaped, and "-e1".
abbrev comparison : List ℕ
comparison = 0x61 ∷ 0x20 ∷ 0x3c ∷ []

abbrev string_text : List ℕ
string_text = 0x20 ∷ 0x22 ∷ 0x71 ∷ 0x5c ∷ 0x22 ∷ 0x22 ∷ 0x20 ∷ []

abbrev negated : List ℕ
negated = 0x2d ∷ 0x65 ∷ 0x31 ∷ []

next_token_with_stop-Lexed_example :
    Lexed comparison 1 (next_token_with_stop no_f64 (0x3b ∷ []) (at comparison 1))
next_token_with_stop-Lexed_example =
    next_token_with_stop-Lexed no_f64 comparison (0x3b ∷ []) (at comparison 1)
      (record { text = refl; low_bound = omega arith; bound = omega arith })

tokens-repeated_example :
    tokens no_f64 3 (at comparison 2) ≡ done (repeated 3 (Token.operator Operator.less))
tokens-repeated_example =
    tokens-repeated no_f64 3 0x3c 2 Operator.less comparison IsCombinable.less_sign refl

next_token-minus_e_example :
    next_token no_f64 (at negated 0)
    ≡ done (Token.operator Operator.minus, record { text = negated; pos = 2; buffer = 0x2d ∷ [] })
next_token-minus_e_example = next_token-minus_e no_f64 0x65 0 negated (0x31 ∷ []) (inl refl) refl
