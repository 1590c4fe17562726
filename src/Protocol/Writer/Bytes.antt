-- ===== src/Protocol/Writer/Bytes.antt =====
-- The format of a number in the protocol of src/serializer, as a list of bytes.
use r_fsm.Prelude.{
  ℕ, zero, suc, ◌+◌, ◌*◌, ◌/◌, ◌%◌, ◌^◌, List, [], ◌∷◌, ◌++◌, if◌then◌else◌, ltb, length,
}

-- The low n bytes of a number, the highest first.
abbrev pub be_bytes : ℕ → ℕ → List ℕ
be_bytes zero v = []
be_bytes (suc n) v = (v / 2 ^ (8 * n) % 256) ∷ be_bytes n v

-- A type code in the high nibble and 4 + 8 n bits.
abbrev pub number_bytes : ℕ → ℕ → ℕ → List ℕ
number_bytes t n v = (t * 16 + v / 2 ^ (8 * n) % 16) ∷ be_bytes n v

-- How many bytes follow the first one, for a number below 2 ^ 60.
abbrev pub extra : ℕ → ℕ
extra v =
    if ltb v (2 ^ 4)
    then 0
    else if ltb v (2 ^ 12)
    then 1
    else if ltb v (2 ^ 20)
    then 2
    else if ltb v (2 ^ 28)
    then 3
    else if ltb v (2 ^ 36)
    then 4
    else if ltb v (2 ^ 44)
    then 5
    else if ltb v (2 ^ 52)
    then 6
    else 7

abbrev pub uint_bytes : ℕ → List ℕ
uint_bytes v = number_bytes (3 + extra v) (extra v) v

-- A text: its length in 4 or 12 bits, and its bytes.
abbrev pub text_header : List ℕ → List ℕ
text_header value =
    if ltb (length value) (2 ^ 4)
    then number_bytes 12 0 (length value)
    else number_bytes 13 1 (length value)

abbrev pub text_bytes : List ℕ → List ℕ
text_bytes value = text_header value ++ value
