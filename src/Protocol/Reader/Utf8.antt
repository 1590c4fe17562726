-- ===== src/Protocol/Reader/Utf8.antt =====
-- `std::str::from_utf8`: whether a list of bytes is well-formed UTF-8, for the reader of
-- src/serializer/default_protocol_reader.rs.
use r_fsm.Prelude.{
  ℕ, zero, suc, List, [], ◌∷◌, Bool, true, false, ◌&&◌, if◌then◌else◌, ltb, leb, ◌==◌,
}

abbrev in_range : ℕ → ℕ → ℕ → Bool
in_range lo hi b = leb lo b && leb b hi

-- After a first byte: the number of bytes that continue it, the range of the next one, and whether
-- it may stand first.
abbrev first : ℕ → ℕ × ℕ × ℕ × Bool
first b =
    if ltb b 0x80
    then (0, 0, 0, true)
    else if in_range 0xc2 0xdf b
    then (1, 0x80, 0xbf, true)
    else if b == 0xe0
    then (2, 0xa0, 0xbf, true)
    else if b == 0xed
    then (2, 0x80, 0x9f, true)
    else if in_range 0xe1 0xef b
    then (2, 0x80, 0xbf, true)
    else if b == 0xf0
    then (3, 0x90, 0xbf, true)
    else if in_range 0xf1 0xf3 b
    then (3, 0x80, 0xbf, true)
    else if b == 0xf4
    then (3, 0x80, 0x8f, true)
    else (0, 0, 0, false)

utf8_from : ℕ → ℕ → ℕ → List ℕ → Bool
utf8_from zero lo hi [] = true
utf8_from (suc n) lo hi [] = false
utf8_from zero lo hi (b ∷ l) = let t = first b in t.3 && utf8_from t.0 t.1 t.2 l
utf8_from (suc n) lo hi (b ∷ l) = in_range lo hi b && utf8_from n 0x80 0xbf l

unfoldable pub is_utf8 : List ℕ → Bool
unfolding utf8_from
is_utf8 l = utf8_from 0 0 0 l
