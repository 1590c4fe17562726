-- ===== src/Protocol/Reader/Cuts.antt =====
-- What the reader of src/serializer makes of input that ends too early.
use native.Mathlib.Nat.{div-one}
use Prim.Native.Nat.{bit_or}
use r_fsm.Prelude.{
  ℕ, zero, suc, ◌+◌, ◌*◌, ◌/◌, ◌%◌, ◌^◌, ◌<◌, List, [], ◌∷◌, ◌++◌, true, false, if◌then◌else◌, ltb,
  length, take, ◌≡◌, refl, ap, ◌∙◌, arith, Bool-cases, inl, inr, length-take_le, ltb→lt,
}
use r_fsm.Protocol.Bits.{bit_or-byte}
use r_fsm.Protocol.Constants.{string_length_12bit}
use r_fsm.Protocol.Reader.{
  Reader, error, additional_byte, read_additional_number_bytes, number_arm, text_arm, long_text_arm,
  dispatch, first_byte, read_type_and_size, verify_number_type, verify_string_type, read_uint,
  read_string, has_error,
}
use r_fsm.Protocol.Reader.Decodes.{extra_fits, first_byte_lem, head_kind, head_value}
use r_fsm.Protocol.Writer.Bytes.{be_bytes, number_bytes, extra, uint_bytes, text_bytes}

error-ok : (r : Reader) → (error r).ok ≡ false
unfolding error
error-ok r = ground arith

read_additional-error :
    (n : ℕ) (r : Reader) → r.ok ≡ false → (read_additional_number_bytes r n).ok ≡ false
unfolding read_additional_number_bytes
read_additional-error zero r e = e
read_additional-error (suc n) r e = simp e (read_additional-error n r e)

read_additional_step :
    (n : ℕ) (r : Reader) (input : List ℕ)
    → r.input ≡ input
    → r.ok ≡ true
    → read_additional_number_bytes r (suc n)
      ≡ read_additional_number_bytes (additional_byte r input) n
unfolding read_additional_number_bytes
read_additional_step n r input e o =
    ap (λ b. read_additional_number_bytes (if b then additional_byte r r.input else r) n) o
    ∙ ap (λ l. read_additional_number_bytes (additional_byte r l) n) e

-- With fewer bytes than the number needs the input ends in the loop.
read_additional-cut :
    (n : ℕ) (r : Reader) (input : List ℕ)
    → r.input ≡ input
    → r.ok ≡ true
    → length input < n
    → (read_additional_number_bytes r n).ok ≡ false
unfolding read_additional_number_bytes additional_byte
read_additional-cut zero r input e o h = absurd (omega (arith, h))
read_additional-cut (suc n) r [] e o h =
    ap (λ (q : Reader). q.ok) (read_additional_step n r [] e o)
    ∙ read_additional-error n (error r) (error-ok r)
read_additional-cut (suc n) r (x ∷ l) e o h =
    ap (λ (q : Reader). q.ok) (read_additional_step n r (x ∷ l) e o)
    ∙ read_additional-cut n (additional_byte r (x ∷ l)) l refl o (omega (arith, h))

length-be_bytes : (n v : ℕ) → length (be_bytes n v) ≡ n
length-be_bytes zero v = refl
length-be_bytes (suc n) v = ap suc (length-be_bytes n v)

first_byte-end : (r : Reader) → (first_byte r []).ok ≡ false
unfolding first_byte
first_byte-end r = error-ok r

-- A number whose bytes end too early.
number-cut :
    (n v k : ℕ) (r : Reader)
    → n < 8
    → r.ok ≡ true
    → k < suc n
    → (first_byte r (take k (number_bytes (3 + n) n v))).ok ≡ false
unfolding number_arm
number-cut n v zero r h o b = first_byte-end r
number-cut n v (suc k) r h o b =
    let size : length (take k (be_bytes n v)) ≡ k =
      length-take_le k (be_bytes n v) (omega (arith, b, length-be_bytes n v)) in
    ap (λ (q : Reader). q.ok)
      (first_byte_lem n (v / 2 ^ (8 * n) % 16) (take k (be_bytes n v)) r h (omega arith))
    ∙ read_additional-cut n _ (take k (be_bytes n v)) refl o (omega (arith, size, b))

text_arm-cut : (r : Reader) (us : ℕ) → length r.input < us → (text_arm r us).ok ≡ false
unfolding text_arm
text_arm-cut r us h =
    let short : ltb (length r.input) us ≡ true = ground (arith, h) in rw short (error-ok r)

-- A text of less than 16 bytes that ends too early.
short_text-cut :
    (value : List ℕ) (k : ℕ) (r : Reader)
    → length value < 16
    → k < suc (length value)
    → (first_byte r (take k (number_bytes 12 0 (length value) ++ value))).ok ≡ false
unfolding first_byte dispatch
short_text-cut value zero r h b = error-ok r
short_text-cut value (suc k) r h b =
    let x = length value / 1 % 16 in
    let whole : x ≡ length value = rw div-one (omega arith) in
    let size : length (take k value) ≡ k = length-take_le k value (omega (arith, b)) in
    rw
      (
        head_kind 12 x (omega arith) (omega arith),
        head_value 12 x (omega arith) (omega arith),
        whole,
      )
      (text_arm-cut _ (length value) (omega (arith, size, b)))

-- A longer text that ends too early.
long_text-cut :
    (value : List ℕ) (k : ℕ) (r : Reader)
    → length value < 4096
    → k < suc (suc (length value))
    → (first_byte r (take k (number_bytes 13 1 (length value) ++ value))).ok ≡ false
unfolding first_byte dispatch long_text_arm
long_text-cut value zero r h b = error-ok r
long_text-cut value (suc zero) r h b =
    let x = length value / 2 ^ 8 % 16 in
    rw (head_kind 13 x (omega arith) (omega arith))
      (error-ok (record r { input = []; type_id = string_length_12bit; number = 0 }))
long_text-cut value (suc (suc k)) r h b =
    let x = length value / 2 ^ 8 % 16 in
    let low : bit_or (x * 256) (length value / 1 % 256) ≡ length value =
      bit_or-byte x (length value / 1 % 256) (omega arith) ∙ (rw div-one (omega arith)) in
    let size : length (take k value) ≡ k = length-take_le k value (omega (arith, b)) in
    rw
      (head_kind 13 x (omega arith) (omega arith), head_value 13 x (omega arith) (omega arith), low)
      (text_arm-cut _ (length value) (omega (arith, size, b)))

text-cut :
    (value : List ℕ) (k : ℕ) (r : Reader)
    → length value < 4096
    → k < length (text_bytes value)
    → (first_byte r (take k (text_bytes value))).ok ≡ false
text-cut value k r h b = elim (Bool-cases (ltb (length value) (2 ^ 4))) [
  | inl short ↦
      rw short
        (short_text-cut value k r (omega (arith, ltb→lt _ _ short)) (ground (arith, b, short)))
  | inr long ↦ rw long (long_text-cut value k r h (ground (arith, b, long)))
]

read_first :
    (r : Reader) (l : List ℕ)
    → r.ok ≡ true
    → read_type_and_size (record r { input = l })
      ≡ first_byte (record r { input = l; string = [] }) l
unfolding read_type_and_size
read_first r l o =
    ap
      (λ b.
        if b then first_byte (record r { input = l; string = [] }) l else record r { input = l })
      o

-- A read that fails with its default value.
pub record Fails {A : Type 0} (result : A × Reader) (a : A) : Type 0 where
  pub value : result.0 ≡ a
  pub failed : has_error result.1 ≡ true

read_uint-Fails : (r : Reader) → (read_type_and_size r).ok ≡ false → Fails (read_uint r) 0
unfolding read_uint verify_number_type has_error
read_uint-Fails r e = record { value = rw e refl; failed = rw e (ground arith) }

read_string-Fails : (r : Reader) → (read_type_and_size r).ok ≡ false → Fails (read_string r) []
unfolding read_string verify_string_type has_error
read_string-Fails r e = record { value = rw e refl; failed = rw e (ground arith) }

pub read_uint-cut :
    (v k : ℕ) (r : Reader)
    → v < 2 ^ 60
    → r.ok ≡ true
    → k < length (uint_bytes v)
    → Fails (read_uint (record r { input = take k (uint_bytes v) })) 0
read_uint-cut v k r h o b =
    let l = take k (uint_bytes v) in
    read_uint-Fails (record r { input = l })
      (ap (λ (q : Reader). q.ok) (read_first r l o)
        ∙ number-cut (extra v) v k (record r { input = l; string = [] }) (extra_fits v h).0 o
            (omega (arith, b, length-be_bytes (extra v) v)))

pub read_string-cut :
    (value : List ℕ) (k : ℕ) (r : Reader)
    → length value < 4096
    → r.ok ≡ true
    → k < length (text_bytes value)
    → Fails (read_string (record r { input = take k (text_bytes value) })) []
read_string-cut value k r h o b =
    let l = take k (text_bytes value) in
    read_string-Fails (record r { input = l })
      (ap (λ (q : Reader). q.ok) (read_first r l o)
        ∙ text-cut value k (record r { input = l; string = [] }) h b)
