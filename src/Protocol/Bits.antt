-- ===== src/Protocol/Bits.antt =====
-- Masks and `|` on bytes, as the protocol of src/serializer uses them, as arithmetic.
use Prim.Native.Nat.{max, bit_and, bit_or, digits, bit_or-bitwise}
use r_fsm.Prelude.{
  ℕ, zero, suc, ◌+◌, ◌*◌, ◌/◌, ◌%◌, ◌≤◌, ◌<◌, Bool, true, ◌&&◌, ◌==◌, ==_iff, ◌≡◌, refl, arith, ◌∙◌,
}

-- A property of the n numbers from 0 on, decided one by one.
up_to : ℕ → (ℕ → Bool) → Bool
up_to zero law = true
up_to (suc n) law = law zero && up_to n (λ i. law (suc i))

up_to-at : (law : ℕ → Bool) {n i : ℕ} → up_to n law ≡ true → i < n → law i ≡ true
unfolding up_to
up_to-at law {n = zero} known lt = absurd (omega arith)
up_to-at law {n = suc n} {i = zero} known lt = ground (arith, known)
up_to-at law {n = suc n} {i = suc i} known lt =
    up_to-at (λ j. law (suc j)) {n = n} {i = i} (ground (arith, known)) (omega arith)

low_law : ℕ → Bool
low_law x = bit_and x 0x0f == x % 16

high_law : ℕ → Bool
high_law x = bit_and x 0xf0 == x / 16 * 16

bytes_low : up_to 256 low_law ≡ true
unfolding up_to low_law
bytes_low = refl

bytes_high : up_to 256 high_law ≡ true
unfolding up_to high_law
bytes_high = refl

-- `x & 0x0F` and `x & 0xF0` of a byte.
pub low_nibble : (x : ℕ) → x < 256 → bit_and x 0x0f ≡ x % 16
unfolding low_law
low_nibble x byte = (==_iff (bit_and x 0x0f) (x % 16)).0 (up_to-at low_law bytes_low byte)

pub high_nibble : (x : ℕ) → x < 256 → bit_and x 0xf0 ≡ x / 16 * 16
unfolding high_law
high_nibble x byte = (==_iff (bit_and x 0xf0) (x / 16 * 16)).0 (up_to-at high_law bytes_high byte)

-- `|` by its binary digits, with a number of rounds.
abbrev joined : ℕ → ℕ → ℕ → ℕ
joined = digits (λ y. y) max

joined-zero : (rounds a : ℕ) → a ≤ rounds → joined rounds a 0 ≡ a
joined-zero zero zero enough = refl
joined-zero (suc rounds) zero enough = refl
joined-zero zero (suc a) enough = absurd (omega arith)
joined-zero (suc rounds) (suc a) enough =
    omega (arith, joined-zero rounds (suc a / 2) (omega arith))

-- A number shifted left by k digits.
shifted_left : ℕ → ℕ → ℕ
shifted_left zero m = m
shifted_left (suc k) m = let half = shifted_left k m in half + half

-- Where the low k digits of one operand are clear and the other has no more, `|` adds.
joined-clear :
    (k m rounds a v : ℕ)
    → a ≡ shifted_left k m
    → v < shifted_left k 1
    → a ≤ rounds
    → joined rounds a v ≡ a + v
unfolding shifted_left
joined-clear k m zero zero v clear small enough = omega arith
joined-clear k m (suc rounds) zero v clear small enough = omega arith
joined-clear k m zero (suc a) v clear small enough = absurd (omega arith)
joined-clear zero m (suc rounds) (suc a) zero clear small enough =
    omega (arith, joined-zero rounds (suc a / 2) (omega arith))
joined-clear zero m (suc rounds) (suc a) (suc v) clear small enough = absurd (omega arith)
joined-clear (suc k) m (suc rounds) (suc a) v clear small enough =
    let higher =
      joined-clear k m rounds (suc a / 2) (v / 2) (omega (arith, clear)) (omega arith)
        (omega arith) in
    omega (arith, higher, clear)

-- `(n << 8) | v` for a byte `v`.
pub bit_or-byte : (n v : ℕ) → v < 256 → bit_or (n * 256) v ≡ n * 256 + v
unfolding shifted_left
bit_or-byte n v byte =
    bit_or-bitwise (n * 256) v
    ∙ joined-clear 8 n (n * 256) (n * 256) v (omega arith) byte (omega arith)

-- `t | v` for a type code `t`, whose low nibble is clear.
pub bit_or-nibble : (t v : ℕ) → v < 16 → bit_or (t * 16) v ≡ t * 16 + v
unfolding shifted_left
bit_or-nibble t v nibble =
    bit_or-bitwise (t * 16) v
    ∙ joined-clear 4 t (t * 16) (t * 16) v (omega arith) nibble (omega arith)
