-- ===== src/Protocol/Reader.antt =====
-- src/serializer/default_protocol_reader.rs: `DefaultProtocolReader`. The `Read` that it wraps is
-- the list of the bytes that are left; a read error is the end of that list. The scratch buffer
-- is left out: it is written before each use, with at most 15 or 4095 of its 4096 bytes.
pub mod Utf8
pub mod Decodes
pub mod Texts
pub mod Errors
pub mod Cuts
use Prim.Native.Nat.{bit_and, bit_or}
use r_fsm.Prelude.{
  ℕ, zero, suc, ◌+◌, ◌-◌, ◌*◌, ◌/◌, ◌%◌, ◌^◌, List, [], ◌∷◌, Bool, true, false, not, ◌&&◌, ◌||◌,
  Option, none, some, if◌then◌else◌, ltb, leb, ◌==◌, length, take, drop,
}
use r_fsm.Protocol.Constants.{
  protocol_version, opt_string_none, boolean_true, boolean_false, int_4bit, int_12bit, int_20bit,
  int_28bit, int_36bit, int_44bit, int_52bit, int_60bit, int_68bit, string_length_4bit,
  string_length_12bit,
}
use r_fsm.Protocol.Reader.Utf8.{is_utf8}

-- The fields of `TypeAndValue` stand beside the reader's own.
pub record Reader : Type 0 where
  pub input : List ℕ
  pub ok : Bool
  pub type_id : ℕ
  pub number : ℕ
  pub string : List ℕ

unfoldable pub new : List ℕ → Reader
new input = record { input = input; ok = true; type_id = 0; number = 0; string = [] }

-- `error`: the first error clears the value.
unfoldable pub error : Reader → Reader
error r = if r.ok then record r { ok = false; type_id = 0; number = 0; string = [] } else r

unfoldable pub is_number_type : ℕ → Bool
is_number_type t =
    t == int_4bit
    || t == int_12bit
    || t == int_20bit
    || t == int_28bit
    || t == int_36bit
    || t == int_44bit
    || t == int_52bit
    || t == int_60bit
    || t == int_68bit

is_string_type : ℕ → Bool
is_string_type t = t == string_length_4bit || t == string_length_12bit

-- `verify_number_type` and `verify_string_type`: the answer, and the reader after it.
verify_number_type : Reader → Bool × Reader
unfolding is_number_type error
verify_number_type r =
    if not r.ok
    then (false, r)
    else if is_number_type r.type_id
    then (true, r)
    else (false, error r)

verify_string_type : Reader → Bool × Reader
unfolding is_string_type error
verify_string_type r =
    if not r.ok
    then (false, r)
    else if is_string_type r.type_id
    then (true, r)
    else (false, error r)

-- `number = (number << 8) | value`, in a `u64`.
additional_byte : Reader → List ℕ → Reader
unfolding error
additional_byte r [] = error r
additional_byte r (value ∷ rest) = record r {
  input = rest;
  number = bit_or (r.number * 256 % 2 ^ 64) value;
}

read_additional_number_bytes : Reader → ℕ → Reader
unfolding additional_byte
read_additional_number_bytes r zero = r
read_additional_number_bytes r (suc length) =
    read_additional_number_bytes (if r.ok then additional_byte r r.input else r) length

-- The match arm of one integer type.
pub number_arm : Reader → ℕ → ℕ → ℕ → Reader
unfolding read_additional_number_bytes
number_arm r type_id value length =
    read_additional_number_bytes (record r { type_id = type_id; number = bit_and value 0x0f })
      length

-- `read_exact` into the buffer, and the check of its text.
text_arm : Reader → ℕ → Reader
unfolding error
text_arm r us =
    let bytes = take us r.input in
    let r' = record r { input = drop us r.input } in
    if ltb (length r.input) us
    then error r
    else if is_utf8 bytes
    then record r' { string = bytes }
    else error r'

-- The second length byte of a string of 12 bits.
long_text_arm : Reader → ℕ → List ℕ → Reader
unfolding text_arm
long_text_arm r us [] = error r
long_text_arm r us (value ∷ rest) = text_arm (record r { input = rest }) (bit_or (us * 256) value)

-- The match on `val & 0xF0`. A code without an arm changes nothing.
dispatch : Reader → ℕ → ℕ → Reader
unfolding number_arm long_text_arm
dispatch r val kind =
    if kind == 0x10
    then record r { type_id = val }
    else if kind == int_4bit
    then number_arm r int_4bit val 0
    else if kind == int_12bit
    then number_arm r int_12bit val 1
    else if kind == int_20bit
    then number_arm r int_20bit val 2
    else if kind == int_28bit
    then number_arm r int_28bit val 3
    else if kind == int_36bit
    then number_arm r int_36bit val 4
    else if kind == int_44bit
    then number_arm r int_44bit val 5
    else if kind == int_52bit
    then number_arm r int_52bit val 6
    else if kind == int_60bit
    then number_arm r int_60bit val 7
    else if kind == int_68bit
    then number_arm r int_68bit val 8
    else if kind == string_length_4bit
    then text_arm (record r { type_id = string_length_4bit; number = 0 }) (bit_and val 0x0f)
    else if kind == string_length_12bit
    then long_text_arm (record r { type_id = string_length_12bit; number = 0 }) (bit_and val 0x0f)
        r.input
    else r

pub first_byte : Reader → List ℕ → Reader
unfolding dispatch
first_byte r [] = error r
first_byte r (val ∷ rest) = dispatch (record r { input = rest }) val (bit_and val 0xf0)

unfoldable pub read_type_and_size : Reader → Reader
unfolding first_byte
read_type_and_size r = if r.ok then first_byte (record r { string = [] }) r.input else r

-- A read returns its value and the reader after it.
unfoldable pub read_uint : Reader → ℕ × Reader
unfolding verify_number_type
read_uint r =
    let (fine, r') = verify_number_type (read_type_and_size r) in
    if fine then (r'.number, r') else (0, r')

unfoldable pub read_usize : Reader → ℕ × Reader
unfolding verify_number_type
read_usize r =
    let (fine, r') = verify_number_type (read_type_and_size r) in
    if fine then (r'.number, r') else (0, r')

-- The trait's default methods: casts of `read_uint`.
unfoldable pub read_u8 : Reader → ℕ × Reader
read_u8 r = let (u, r') = read_uint r in (u % 2 ^ 8, r')

unfoldable pub read_u16 : Reader → ℕ × Reader
read_u16 r = let (u, r') = read_uint r in (u % 2 ^ 16, r')

unfoldable pub read_u32 : Reader → ℕ × Reader
read_u32 r = let (u, r') = read_uint r in (u % 2 ^ 32, r')

unfoldable pub read_string : Reader → List ℕ × Reader
unfolding verify_string_type
read_string r =
    let (fine, r') = verify_string_type (read_type_and_size r) in
    if fine then (r'.string, r') else ([], r')

-- The byte is read past the type codes.
boolean_byte : Reader → List ℕ → Bool × Reader
unfolding error
boolean_byte r [] = (false, error r)
boolean_byte r (type_id ∷ rest) =
    let r' = record r { input = rest } in
    if type_id == boolean_true
    then (true, r')
    else if type_id == boolean_false
    then (false, r')
    else (false, error r')

unfoldable pub read_boolean : Reader → Bool × Reader
unfolding boolean_byte
read_boolean r = if r.ok then boolean_byte r r.input else (false, r)

option_string_of : Reader → Option (List ℕ) × Reader
unfolding is_string_type error
option_string_of r =
    if r.type_id == opt_string_none
    then (none, r)
    else if is_string_type r.type_id
    then (some r.string, r)
    else (none, error r)

unfoldable pub read_option_string : Reader → Option (List ℕ) × Reader
unfolding option_string_of
read_option_string r = if r.ok then option_string_of (read_type_and_size r) else (none, r)

abbrev same_bytes : List ℕ → List ℕ → Bool
same_bytes [] [] = true
same_bytes (x ∷ xs) (y ∷ ys) = x == y && same_bytes xs ys
same_bytes _ _ = false

unfoldable pub verify_version : Reader → Reader
unfolding error
verify_version r =
    let (vs, r') = read_string r in if same_bytes vs protocol_version then r' else error r'

unfoldable pub has_error : Reader → Bool
has_error r = not r.ok
