-- ===== src/Protocol/Reader/Decodes.antt =====
-- What the reader of src/serializer makes of the bytes of the format.
use Prim.Native.Nat.{bit_and, bit_or}
use native.Mathlib.Nat.{div-div-eq-div-mul, div-le_self, div-one, mod-eq_of_lt}
use native.Mathlib.Numerals.{towards_suc}
use r_fsm.Prelude.{
  ℕ, zero, suc, ◌+◌, ◌*◌, ◌/◌, ◌%◌, ◌^◌, ◌<◌, List, [], ◌∷◌, ◌++◌, true, ◌≡◌, refl, sym, ap, ◌∙◌,
  arith,
}
use r_fsm.Protocol.Bits.{low_nibble, high_nibble, bit_or-byte}
use r_fsm.Protocol.Reader.{
  Reader, read_additional_number_bytes, number_arm, dispatch, first_byte, read_type_and_size,
  read_uint, is_number_type,
}
use r_fsm.Protocol.Writer.Bytes.{be_bytes, number_bytes, extra, uint_bytes}

pow_step : (n : ℕ) → 2 ^ (8 * suc n) ≡ 2 ^ (8 * n) * 256
pow_step n = let e : 8 * suc n ≡ 8 * n + 8 = omega arith in rw e (simp towards_suc (omega arith))

-- One byte more: the bits above come down by a byte.
join_byte : (q v : ℕ) → q ≡ v / 256 → v < 2 ^ 64 → bit_or (q * 256 % 2 ^ 64) (v % 256) ≡ v
join_byte q v e h =
    let small : q * 256 % 2 ^ 64 ≡ q * 256 = mod-eq_of_lt (omega arith) in
    rw small (bit_or-byte q (v % 256) (omega arith) ∙ omega arith)

-- A reader without an error.
abbrev pub reading : List ℕ → ℕ → ℕ → List ℕ → Reader
reading input type_id number string = record {
  input = input;
  ok = true;
  type_id = type_id;
  number = number;
  string = string;
}

read_additional_lem :
    (n v t : ℕ) (string rest : List ℕ)
    → v < 2 ^ 64
    → read_additional_number_bytes (reading (be_bytes n v ++ rest) t (v / 2 ^ (8 * n)) string) n
      ≡ reading rest t v string
unfolding read_additional_number_bytes
read_additional_lem zero v t string rest h = rw div-one
read_additional_lem (suc n) v t string rest h =
    let q = v / 2 ^ (8 * n) in
    let above : v / 2 ^ (8 * suc n) ≡ q / 256 =
      rw (pow_step n) (sym (div-div-eq-div-mul v (2 ^ (8 * n)) 256)) in
    let byte =
      join_byte (v / 2 ^ (8 * suc n)) q above (omega (arith, div-le_self v (2 ^ (8 * n)))) in
    rw byte (read_additional_lem n v t string rest h)

pub head_kind : (t x : ℕ) → t < 16 → x < 16 → bit_and (t * 16 + x) 0xf0 ≡ t * 16
head_kind t x h k = high_nibble (t * 16 + x) (omega arith) ∙ omega arith

pub head_value : (t x : ℕ) → t < 16 → x < 16 → bit_and (t * 16 + x) 0x0f ≡ x
head_value t x h k = low_nibble (t * 16 + x) (omega arith) ∙ omega arith

-- The arm of an integer type with n more bytes.
number_arm_lem :
    (n t v old number : ℕ) (string rest : List ℕ)
    → t < 16
    → v < 2 ^ 64
    → v / 2 ^ (8 * n) < 16
    → number_arm
        (reading (be_bytes n v ++ rest) old number string)
        (t * 16)
        (t * 16 + v / 2 ^ (8 * n) % 16)
        n
      ≡ reading rest (t * 16) v string
unfolding number_arm
number_arm_lem n t v old number string rest h b small =
    rw (head_value t (v / 2 ^ (8 * n) % 16) h (omega arith), mod-eq_of_lt small)
      (read_additional_lem n v (t * 16) string rest b)

-- After the header byte comes the arm of the type code.
pub first_byte_lem :
    (n x : ℕ) (rest : List ℕ) (r : Reader)
    → n < 8
    → x < 16
    → first_byte r (((3 + n) * 16 + x) ∷ rest)
      ≡ number_arm (record r { input = rest }) ((3 + n) * 16) ((3 + n) * 16 + x) n
unfolding first_byte dispatch
first_byte_lem zero x rest r h k = rw (head_kind 3 x (omega arith) k)
first_byte_lem (suc zero) x rest r h k = rw (head_kind 4 x (omega arith) k)
first_byte_lem (suc (suc zero)) x rest r h k = rw (head_kind 5 x (omega arith) k)
first_byte_lem (suc (suc (suc zero))) x rest r h k = rw (head_kind 6 x (omega arith) k)
first_byte_lem (suc (suc (suc (suc zero)))) x rest r h k = rw (head_kind 7 x (omega arith) k)
first_byte_lem (suc (suc (suc (suc (suc zero))))) x rest r h k = rw (head_kind 8 x (omega arith) k)
first_byte_lem (suc (suc (suc (suc (suc (suc zero)))))) x rest r h k =
    rw (head_kind 9 x (omega arith) k)
first_byte_lem (suc (suc (suc (suc (suc (suc (suc zero))))))) x rest r h k =
    rw (head_kind 10 x (omega arith) k)
first_byte_lem (suc (suc (suc (suc (suc (suc (suc (suc n)))))))) x rest r h k = absurd (omega arith)

is_number_type_lem : (n : ℕ) → n < 8 → is_number_type ((3 + n) * 16) ≡ true
unfolding is_number_type
is_number_type_lem n h = ground arith

read_type_and_size-bytes :
    (n v : ℕ) (rest : List ℕ) (r : Reader)
    → n < 8
    → v < 2 ^ 64
    → v / 2 ^ (8 * n) < 16
    → r.ok ≡ true
    → read_type_and_size (record r { input = number_bytes (3 + n) n v ++ rest })
      ≡ reading rest ((3 + n) * 16) v []
unfolding read_type_and_size
read_type_and_size-bytes n v rest r h b small o = simp o (
    first_byte_lem n (v / 2 ^ (8 * n) % 16) (be_bytes n v ++ rest)
      (record r { string = []; ok = true }) h (omega arith)
    ∙ number_arm_lem n (3 + n) v r.type_id r.number [] rest (omega arith) b small)

read_uint-number_bytes :
    (n v : ℕ) (rest : List ℕ) (r : Reader)
    → n < 8
    → v < 2 ^ 64
    → v / 2 ^ (8 * n) < 16
    → r.ok ≡ true
    → read_uint (record r { input = number_bytes (3 + n) n v ++ rest })
      ≡ (v, reading rest ((3 + n) * 16) v [])
unfolding read_uint
read_uint-number_bytes n v rest r h b small o =
    rw (read_type_and_size-bytes n v rest r h b small o) (ground (arith, is_number_type_lem n h))

-- The number of each size is in range of its header nibble.
pub extra_fits : (v : ℕ) → v < 2 ^ 60 → (extra v < 8) × (v / 2 ^ (8 * extra v) < 16)
extra_fits v h = ground arith

pub read_uint-bytes :
    (v : ℕ) (rest : List ℕ) (r : Reader)
    → v < 2 ^ 60
    → r.ok ≡ true
    → read_uint (record r { input = uint_bytes v ++ rest })
      ≡ (v, reading rest ((3 + extra v) * 16) v [])
read_uint-bytes v rest r h o =
    let (n, small) = extra_fits v h in
    read_uint-number_bytes (extra v) v rest r n (omega arith) small o

low_bytes : (v : ℕ) → v / 16 * 256 % 2 ^ 64 ≡ v / 16 % 2 ^ 56 * 256
low_bytes v = omega arith

read_additional_step :
    (m x t q : ℕ) (string l : List ℕ)
    → read_additional_number_bytes (reading (x ∷ l) t q string) (suc m)
      ≡ read_additional_number_bytes (reading l t (bit_or (q * 256 % 2 ^ 64) x) string) m
unfolding read_additional_number_bytes
read_additional_step m x t q string l = refl

-- One byte after n bytes.
read_additional_last :
    (n v t b : ℕ) (string rest : List ℕ)
    → v < 2 ^ 64
    → read_additional_number_bytes
        (reading (be_bytes n v ++ b ∷ rest) t (v / 2 ^ (8 * n)) string)
        (suc n)
      ≡ reading rest t (bit_or (v * 256 % 2 ^ 64) b) string
read_additional_last zero v t b string rest h =
    rw div-one (unfold read_additional_number_bytes in refl)
read_additional_last (suc n) v t b string rest h =
    let q = v / 2 ^ (8 * n) in
    let above : v / 2 ^ (8 * suc n) ≡ q / 256 =
      rw (pow_step n) (sym (div-div-eq-div-mul v (2 ^ (8 * n)) 256)) in
    let byte =
      join_byte (v / 2 ^ (8 * suc n)) q above (omega (arith, div-le_self v (2 ^ (8 * n)))) in
    read_additional_step (suc n) (q % 256) t (v / 2 ^ (8 * suc n)) string (be_bytes n v ++ b ∷ rest)
    ∙ (rw byte (read_additional_last n v t b string rest h))

number_arm-large :
    (v old number : ℕ) (string rest : List ℕ)
    → v < 2 ^ 64
    → number_arm
        (reading (be_bytes 7 (v / 16) ++ (v % 256) ∷ rest) old number string)
        0xb0
        (0xb0 + v / 2 ^ 60 % 16)
        8
      ≡ reading rest 0xb0 (v / 16 % 2 ^ 56 * 256 + v % 256) string
unfolding number_arm
number_arm-large v old number string rest h =
    let x = v / 2 ^ 60 % 16 in
    let nibble : x ≡ v / 16 / 2 ^ (8 * 7) = omega arith in
    let joined : bit_or (v / 16 * 256 % 2 ^ 64) (v % 256) ≡ v / 16 % 2 ^ 56 * 256 + v % 256 =
      rw (low_bytes v) (bit_or-byte (v / 16 % 2 ^ 56) (v % 256) (omega arith)) in
    let value = head_value 11 x (omega arith) (omega arith) ∙ nibble in
    ap
      (λ n.
        read_additional_number_bytes
          (reading (be_bytes 7 (v / 16) ++ (v % 256) ∷ rest) 0xb0 n string) 8)
      value
    ∙ read_additional_last 7 (v / 16) 0xb0 (v % 256) string rest (omega arith)
    ∙ ap (λ n. reading rest 0xb0 n string) joined

first_byte-large :
    (v : ℕ) (rest : List ℕ) (r : Reader)
    → first_byte r ((0xb0 + v / 2 ^ 60 % 16) ∷ rest)
      ≡ number_arm (record r { input = rest }) 0xb0 (0xb0 + v / 2 ^ 60 % 16) 8
unfolding first_byte dispatch
first_byte-large v rest r = rw (head_kind 11 (v / 2 ^ 60 % 16) (omega arith) (omega arith))

read_type_and_size-large :
    (v : ℕ) (rest : List ℕ) (r : Reader)
    → v < 2 ^ 64
    → r.ok ≡ true
    → read_type_and_size
        (record r { input = (0xb0 + v / 2 ^ 60 % 16) ∷ (be_bytes 7 (v / 16) ++ (v % 256) ∷ rest) })
      ≡ reading rest 0xb0 (v / 16 % 2 ^ 56 * 256 + v % 256) []
unfolding read_type_and_size
read_type_and_size-large v rest r h o =
    let bytes = be_bytes 7 (v / 16) ++ (v % 256) ∷ rest in
    simp o (
      first_byte-large v bytes (record r { string = []; ok = true })
      ∙ number_arm-large v r.type_id r.number [] rest h)

-- What the bytes that are written for a number from 2 ^ 60 on give.
pub read_uint-large :
    (v : ℕ) (rest : List ℕ) (r : Reader)
    → v < 2 ^ 64
    → r.ok ≡ true
    → read_uint
        (record r { input = (0xb0 + v / 2 ^ 60 % 16) ∷ (be_bytes 7 (v / 16) ++ (v % 256) ∷ rest) })
      ≡ (v / 16 % 2 ^ 56 * 256 + v % 256, reading rest 0xb0 (v / 16 % 2 ^ 56 * 256 + v % 256) [])
unfolding read_uint is_number_type
read_uint-large v rest r h o = rw (read_type_and_size-large v rest r h o)
