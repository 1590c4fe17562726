-- ===== src/Examples/Protocols.antt =====
-- The theorems on src/serializer at concrete texts and numbers, with a device that is a list.
use r_fsm.Prelude.{
  ℕ, zero, suc, ◌+◌, ◌*◌, ◌/◌, ◌%◌, ◌^◌, ◌<◌, List, [], ◌∷◌, ◌++◌, true, false, ◌||◌, Option, none,
  some, ◌==◌, length, take, get_elem?, done, ◌≡◌, refl, sym, ap, arith, inl, inr,
}
use r_fsm.Protocol.Writer.{
  Writer, write_uint, write_str, write_boolean, write_option_string, write_version, starts_char,
}
use r_fsm.Protocol.Reader
use r_fsm.Protocol.Writer.Devices.{Sink, IsReliable}
use r_fsm.Protocol.Writer.Emits.{Wrote}
use r_fsm.Protocol.Reader.{
  Reader, read_uint, read_string, read_boolean, read_option_string, verify_version,
}
use r_fsm.Protocol.Reader.Utf8.{is_utf8}
use r_fsm.Protocol.Reader.Errors.{read_uint-unknown_code}
use r_fsm.Protocol.Reader.Cuts.{Fails}
use r_fsm.Protocol.Truncation.{read_uint-write_uint_cut, read_string-write_str_cut}
use r_fsm.Protocol.RoundTrip.{
  ReadsBack, read_uint-write_uint, read_uint-write_uint_large, read_string-write_str,
  read_string-write_str_long, read_boolean-write_boolean, read_option_string-write_option_string,
  verify_version-write_version,
}

-- A `Vec<u8>`.
abbrev memory : Sink
memory = record {
  Device = List ℕ;
  contents = λ d. d;
  write_u8 = λ d b. (d ++ b ∷ [], true);
  write = λ d bs. (d ++ bs, length bs, true);
  flush = λ d. (d, true);
}

memory-IsReliable : IsReliable memory
memory-IsReliable = record {
  write_u8_ok = λ d b. refl;
  write_u8_contents = λ d b. refl;
  write_ok = λ d bs. refl;
  write_contents = λ d bs. refl;
}

abbrev writer : Writer (List ℕ)
writer = record { device = 7 ∷ []; ok = true }

abbrev reader : Reader
reader = record { input = []; ok = true; type_id = 0x30; number = 5; string = [] }

abbrev rest : List ℕ
rest = 0x31 ∷ 0x32 ∷ []

-- "aä".
abbrev text : List ℕ
text = 0x61 ∷ 0xc3 ∷ 0xa4 ∷ []

abbrev option_or : Option (List ℕ) → List ℕ
option_or none = []
option_or (some t) = t

abbrev many : ℕ → List ℕ
many zero = []
many (suc n) = 0x61 ∷ many n

length-many : (n : ℕ) → length (many n) ≡ n
length-many zero = refl
length-many (suc n) = ap suc (length-many n)

read_uint-write_uint_example :
    (bytes : List ℕ) × Wrote memory writer (write_uint memory writer 70000) bytes
    × ReadsBack read_uint reader bytes rest 70000
read_uint-write_uint_example =
    read_uint-write_uint memory memory-IsReliable writer reader rest 70000 (omega arith) refl refl

read_uint-write_uint_large_example :
    (bytes : List ℕ) × Wrote memory writer (write_uint memory writer (2 ^ 60 + 21)) bytes
    × ReadsBack read_uint reader bytes rest
        ((2 ^ 60 + 21) / 16 % 2 ^ 56 * 256 + (2 ^ 60 + 21) % 256)
read_uint-write_uint_large_example =
    read_uint-write_uint_large memory memory-IsReliable writer reader rest (2 ^ 60 + 21)
      (omega arith) (omega arith) refl refl

text-is_utf8 : is_utf8 text ≡ true
unfolding is_utf8
text-is_utf8 = refl

read_string-write_str_example :
    (w' : Writer (List ℕ)) × (bytes : List ℕ) × (write_str memory writer text ≡ done w')
    × Wrote memory writer w' bytes
    × ReadsBack read_string reader bytes rest text
read_string-write_str_example =
    read_string-write_str memory memory-IsReliable writer reader rest text text-is_utf8
      (omega arith) refl refl

read_boolean-write_boolean_example :
    (bytes : List ℕ) × Wrote memory writer (write_boolean memory writer false) bytes
    × ReadsBack read_boolean reader bytes rest false
read_boolean-write_boolean_example =
    read_boolean-write_boolean memory memory-IsReliable writer reader rest false refl refl

some_inj : (a b : List ℕ) → some a ≡ some b → a ≡ b
some_inj a b e = ap (λ o. option_or o) e

text_fits : (t : List ℕ) → some text ≡ some t → (is_utf8 t ≡ true) × (length t < 4096)
text_fits t e = rw (sym (some_inj text t e)) (text-is_utf8, omega arith)

read_option_string-write_option_string_example :
    (w' : Writer (List ℕ)) × (bytes : List ℕ) × (write_option_string memory writer (some text)
      ≡ done w')
    × Wrote memory writer w' bytes
    × ReadsBack read_option_string reader bytes rest (some text)
read_option_string-write_option_string_example =
    read_option_string-write_option_string memory memory-IsReliable writer reader rest (some text)
      text_fits refl refl

verify_version-write_version_example :
    (w' : Writer (List ℕ)) × (bytes : List ℕ) × (write_version memory writer ≡ done w')
    × Wrote memory writer w' bytes
    × ((verify_version (record reader { input = bytes ++ rest })).ok ≡ true)
    × ((verify_version (record reader { input = bytes ++ rest })).input ≡ rest)
verify_version-write_version_example =
    verify_version-write_version memory memory-IsReliable writer reader rest refl refl

read_uint-write_uint_cut_example :
    (bytes : List ℕ) × Wrote memory writer (write_uint memory writer 70000) bytes
    × ((n : ℕ) → n < length bytes → Fails (read_uint (record reader { input = take n bytes })) 0)
read_uint-write_uint_cut_example =
    read_uint-write_uint_cut memory memory-IsReliable writer reader 70000 (omega arith) refl refl

read_string-write_str_cut_example :
    (w' : Writer (List ℕ)) × (bytes : List ℕ) × (write_str memory writer text ≡ done w')
    × Wrote memory writer w' bytes
    × ((n : ℕ) → n < length bytes → Fails (read_string (record reader { input = take n bytes })) [])
read_string-write_str_cut_example =
    read_string-write_str_cut memory memory-IsReliable writer reader text (omega arith) refl refl

is_number_type-4bit : Reader.is_number_type 0x30 ≡ true
unfolding Reader.is_number_type
is_number_type-4bit = refl

read_uint-unknown_code_example :
    read_uint (record reader { input = 0x25 ∷ rest })
    ≡ (5, record reader { input = rest; string = [] })
read_uint-unknown_code_example =
    read_uint-unknown_code reader 0x25 rest refl is_number_type-4bit (inr (inl refl))

many-edge :
    (length (many 4098) % 2 ^ 12 == 0
      || starts_char (get_elem? (many 4098) (length (many 4098) % 2 ^ 12)))
    ≡ true
many-edge = refl

many-is_utf8 : is_utf8 (take (length (many 4098) % 2 ^ 12) (many 4098)) ≡ true
unfolding is_utf8
many-is_utf8 = refl

read_string-write_str_long_example :
    (w' : Writer (List ℕ)) × (bytes : List ℕ) × (write_str memory writer (many 4098) ≡ done w')
    × Wrote memory writer w' bytes
    × ReadsBack read_string reader bytes rest (take (length (many 4098) % 2 ^ 12) (many 4098))
read_string-write_str_long_example =
    read_string-write_str_long memory memory-IsReliable writer reader rest (many 4098)
      (omega (arith, length-many 4098)) many-edge many-is_utf8 refl refl
