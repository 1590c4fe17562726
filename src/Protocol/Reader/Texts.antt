-- ===== src/Protocol/Reader/Texts.antt =====
-- What the reader of src/serializer makes of the bytes of a text.
use native.Mathlib.Nat.{div-one}
use Prim.Native.Nat.{bit_or}
use r_fsm.Prelude.{
  ℕ, ◌*◌, ◌/◌, ◌%◌, ◌^◌, ◌<◌, List, [], ◌∷◌, ◌++◌, true, false, none, some, if◌then◌else◌, ltb,
  length, ◌≡◌, ◌∙◌, arith, Bool-cases, inl, inr, length-append, take-length-append,
  drop-length-append, ltb→lt,
}
use r_fsm.Protocol.Bits.{bit_or-byte}
use r_fsm.Protocol.Reader.{
  Reader, text_arm, long_text_arm, dispatch, first_byte, read_type_and_size, read_string,
  read_option_string, is_string_type,
}
use r_fsm.Protocol.Reader.Utf8.{is_utf8}
use r_fsm.Protocol.Reader.Decodes.{reading, head_kind, head_value}
use r_fsm.Protocol.Writer.Bytes.{number_bytes, text_bytes}

-- The type code that goes with a length.
abbrev pub text_type : ℕ → ℕ
text_type n = if ltb n (2 ^ 4) then 0xc0 else 0xd0

text_arm_lem :
    (value rest : List ℕ) (t : ℕ)
    → is_utf8 value ≡ true
    → text_arm (reading (value ++ rest) t 0 []) (length value) ≡ reading rest t 0 value
unfolding text_arm
text_arm_lem value rest t u =
    let fits : ltb (length (value ++ rest)) (length value) ≡ false =
      ground (arith, length-append value rest) in
    rw (fits, take-length-append value rest, u, drop-length-append value rest)

first_byte-short :
    (input value rest : List ℕ) (n t : ℕ)
    → is_utf8 value ≡ true
    → length value < 16
    → first_byte (reading input t n []) (number_bytes 12 0 (length value) ++ (value ++ rest))
      ≡ reading rest 0xc0 0 value
unfolding first_byte dispatch
first_byte-short input value rest n t u h =
    let x = length value / 1 % 16 in
    let whole : x ≡ length value = rw div-one (omega arith) in
    rw
      (
        head_kind 12 x (omega arith) (omega arith),
        head_value 12 x (omega arith) (omega arith),
        whole,
      )
      (text_arm_lem value rest 0xc0 u)

first_byte-long :
    (input bytes rest : List ℕ) (len n t : ℕ)
    → is_utf8 bytes ≡ true
    → length bytes ≡ len % 2 ^ 12
    → first_byte (reading input t n []) (number_bytes 13 1 len ++ (bytes ++ rest))
      ≡ reading rest 0xd0 0 bytes
unfolding first_byte dispatch long_text_arm
first_byte-long input bytes rest len n t u h =
    let x = len / 2 ^ 8 % 16 in
    let low : bit_or (x * 256) (len / 1 % 256) ≡ length bytes =
      bit_or-byte x (len / 1 % 256) (omega arith) ∙ (rw div-one (omega arith)) in
    rw
      (head_kind 13 x (omega arith) (omega arith), head_value 13 x (omega arith) (omega arith), low)
      (text_arm_lem bytes rest 0xd0 u)

-- A text that fits the format is read back, and what follows it is left.
pub read_type_and_size-text :
    (value rest : List ℕ) (r : Reader)
    → is_utf8 value ≡ true
    → length value < 4096
    → r.ok ≡ true
    → read_type_and_size (record r { input = text_bytes value ++ rest })
      ≡ reading rest (text_type (length value)) 0 value
unfolding read_type_and_size
read_type_and_size-text value rest r u h o = elim (Bool-cases (ltb (length value) (2 ^ 4))) [
  | inl short ↦
      simp (o, short)
        (first_byte-short [] value rest r.number r.type_id u (omega (arith, ltb→lt _ _ short)))
  | inr long ↦
      simp (o, long)
        (first_byte-long [] value rest (length value) r.number r.type_id u (omega arith))
]

is_string_type-text_type : (n : ℕ) → is_string_type (text_type n) ≡ true
unfolding is_string_type
is_string_type-text_type n = ground arith

pub read_string-bytes :
    (value rest : List ℕ) (r : Reader)
    → is_utf8 value ≡ true
    → length value < 4096
    → r.ok ≡ true
    → read_string (record r { input = text_bytes value ++ rest })
      ≡ (value, reading rest (text_type (length value)) 0 value)
unfolding read_string
read_string-bytes value rest r u h o =
    rw (read_type_and_size-text value rest r u h o)
      (ground (arith, is_string_type-text_type (length value)))

pub read_option_string-bytes :
    (value rest : List ℕ) (r : Reader)
    → is_utf8 value ≡ true
    → length value < 4096
    → r.ok ≡ true
    → read_option_string (record r { input = text_bytes value ++ rest })
      ≡ (some value, reading rest (text_type (length value)) 0 value)
unfolding read_option_string
read_option_string-bytes value rest r u h o =
    rw (read_type_and_size-text value rest r u h o)
      (ground (arith, is_string_type-text_type (length value)))

read_type_and_size-long :
    (bytes rest : List ℕ) (len : ℕ) (r : Reader)
    → is_utf8 bytes ≡ true
    → length bytes ≡ len % 2 ^ 12
    → r.ok ≡ true
    → read_type_and_size (record r { input = number_bytes 13 1 len ++ (bytes ++ rest) })
      ≡ reading rest 0xd0 0 bytes
unfolding read_type_and_size
read_type_and_size-long bytes rest len r u h o =
    simp o (first_byte-long [] bytes rest len r.number r.type_id u h)

-- Of a text that is too long the reader sees the bytes that its length counts modulo 4096.
pub read_string-long :
    (bytes rest : List ℕ) (len : ℕ) (r : Reader)
    → is_utf8 bytes ≡ true
    → length bytes ≡ len % 2 ^ 12
    → r.ok ≡ true
    → read_string (record r { input = number_bytes 13 1 len ++ (bytes ++ rest) })
      ≡ (bytes, reading rest 0xd0 0 bytes)
unfolding read_string is_string_type
read_string-long bytes rest len r u h o = rw (read_type_and_size-long bytes rest len r u h o)

pub read_option_string-none :
    (rest : List ℕ) (r : Reader)
    → r.ok ≡ true
    → read_option_string (record r { input = 0x10 ∷ rest }) ≡ (none, reading rest 0x10 r.number [])
unfolding read_option_string read_type_and_size first_byte dispatch
read_option_string-none rest r o = simp o
