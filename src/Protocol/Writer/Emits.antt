-- ===== src/Protocol/Writer/Emits.antt =====
-- What the writer of src/serializer puts on a reliable device: the bytes of the format.
use Prim.Native.Nat.{bit_and, bit_or}
use r_fsm.Prelude.{
  ℕ, zero, suc, ◌+◌, ◌-◌, ◌*◌, ◌/◌, ◌%◌, ◌^◌, ◌≤◌, ◌<◌, List, [], ◌∷◌, ◌++◌, Bool, true, false,
  ◌||◌, ltb, ◌==◌, length, take, get_elem?, done, ◌≡◌, refl, sym, ap, ◌∙◌, arith, Bool-cases, inl,
  inr, get_elem?-length, take-length,
}
use native.Mathlib.Nat.{div-one, div-div-eq-div-mul}
use native.Mathlib.Numerals.{towards_suc}
use mathlib.Core.List.{append-nil, append_assoc}
use r_fsm.Protocol.Bits.{low_nibble, bit_or-nibble}
use r_fsm.Protocol.Writer.{
  Writer, starts_char, eval_result, put_bytes, slice_to, shift_loop, write_type_and_value,
  write_uint, write_str,
}
use r_fsm.Protocol.Writer.Devices.{Sink, IsReliable}
use r_fsm.Protocol.Writer.Bytes.{be_bytes, number_bytes, uint_bytes, text_bytes}

-- The writer `w'` is `w` with the bytes `bs` written, and without an error.
pub record Wrote (k : Sink) (w w' : Writer k.Device) (bs : List ℕ) : Type 0 where
  pub fine : w'.ok ≡ true
  pub contents : k.contents w'.device ≡ k.contents w.device ++ bs

-- A shift by 4 and then by 8 n.
shifted : (v n : ℕ) → v / 2 ^ (4 + 8 * n) ≡ v / 16 / 2 ^ (8 * n)
shifted v n =
    let e : 4 + 8 * n ≡ 8 * n + 4 = omega arith in
    let p : 2 ^ (8 * n + 4) ≡ 16 * 2 ^ (8 * n) = simp towards_suc (omega arith) in
    rw (e, p) (sym (div-div-eq-div-mul v 16 (2 ^ (8 * n))))

module _ (k : Sink) (sure : IsReliable k) where
  shift_loop_lem :
      (n fuel v : ℕ) (r : k.Device × Bool)
      → 8 * n ≤ fuel
      → r.1 ≡ true
      → ((shift_loop k fuel (8 * n) v r).1 ≡ true)
        × (k.contents (shift_loop k fuel (8 * n) v r).0 ≡ k.contents r.0 ++ be_bytes n v)
  unfolding shift_loop
  shift_loop_lem zero zero v r h o = (o, sym (append-nil (k.contents r.0)))
  shift_loop_lem zero (suc fuel) v r h o = (o, sym (append-nil (k.contents r.0)))
  shift_loop_lem (suc n) zero v r h o = absurd (omega arith)
  shift_loop_lem (suc n) (suc fuel) v r h o =
      let smaller : 8 * suc n - 8 ≡ 8 * n = omega arith in
      let more : ltb 0 (8 * suc n) ≡ true = ground arith in
      let r' = k.write_u8 r.0 (v / 2 ^ (8 * n) % 256) in
      let (fine, written) =
        shift_loop_lem n fuel v r' (omega arith) (sure.write_u8_ok r.0 (v / 2 ^ (8 * n) % 256)) in
      rw (more, o, smaller)
        (
          fine,
          written
              ∙ ap (λ l. l ++ be_bytes n v) (sure.write_u8_contents r.0 (v / 2 ^ (8 * n) % 256))
              ∙ append_assoc (k.contents r.0) _ (be_bytes n v),
        )

  head_byte : (t q : ℕ) → bit_or (t * 16) (bit_and (q % 256) 0x0f) ≡ t * 16 + q % 16
  head_byte t q =
      let nibble : bit_and (q % 256) 0x0f ≡ q % 16 =
        low_nibble (q % 256) (omega arith) ∙ omega arith in
      rw nibble (bit_or-nibble t (q % 16) (omega arith))

  pub write_type_and_value-Wrote :
      (t n v : ℕ) (w : Writer k.Device)
      → w.ok ≡ true
      → Wrote k w (write_type_and_value k w (t * 16) v (4 + 8 * n)) (number_bytes t n v)
  unfolding write_type_and_value
  write_type_and_value-Wrote t n v w o =
      let size : 4 + 8 * n - 4 ≡ 8 * n = omega arith in
      let b = t * 16 + v / 2 ^ (8 * n) % 16 in
      let r = k.write_u8 w.device b in
      let (fine, written) =
        shift_loop_lem n (8 * n) v r (omega arith) (sure.write_u8_ok w.device b) in
      rw (o, size, head_byte t (v / 2 ^ (8 * n)))
        (record {
          fine = fine;
          contents =
              written
              ∙ ap (λ l. l ++ be_bytes n v) (sure.write_u8_contents w.device b)
              ∙ append_assoc (k.contents w.device) _ (be_bytes n v);
        })

  -- Each size of a number has its own type code.
  pub write_uint-Wrote :
      (v : ℕ) (w : Writer k.Device)
      → v < 2 ^ 60
      → w.ok ≡ true
      → Wrote k w (write_uint k w v) (uint_bytes v)
  unfolding write_uint
  write_uint-Wrote v w h o = ground (
    arith,
    write_type_and_value-Wrote 3 0 v w o,
    write_type_and_value-Wrote 4 1 v w o,
    write_type_and_value-Wrote 5 2 v w o,
    write_type_and_value-Wrote 6 3 v w o,
    write_type_and_value-Wrote 7 4 v w o,
    write_type_and_value-Wrote 8 5 v w o,
    write_type_and_value-Wrote 9 6 v w o,
    write_type_and_value-Wrote 10 7 v w o,
  )

  put_bytes-Wrote :
      (w w1 : Writer k.Device) (header bs : List ℕ)
      → Wrote k w w1 header
      → (w' : Writer k.Device) × (put_bytes k w1 (done bs) ≡ done w') × Wrote k w w' (header ++ bs)
  put_bytes-Wrote w w1 header bs h = (
    eval_result k w1 ((k.write w1.device bs).0, (k.write w1.device bs).2),
    refl,
    record {
      fine = ground (arith, h.fine, sure.write_ok w1.device bs);
      contents =
          sure.write_contents w1.device bs
          ∙ ap (λ l. l ++ bs) h.contents
          ∙ append_assoc (k.contents w.device) header bs;
    },
  )

  slice_to-length : (value : List ℕ) → slice_to value (length value) ≡ done value
  unfolding slice_to
  slice_to-length value = rw (get_elem?-length value, take-length value) (ground arith)

  pub write_str-Wrote :
      (value : List ℕ) (w : Writer k.Device)
      → length value < 4096
      → w.ok ≡ true
      → (w' : Writer k.Device) × (write_str k w value ≡ done w') × Wrote k w w' (text_bytes value)
  unfolding write_str
  write_str-Wrote value w h o = elim (Bool-cases (ltb (length value) (2 ^ 4))) [
    | inl short ↦
        rw (short, slice_to-length value)
          (simp o
            (put_bytes-Wrote w _ _ value (write_type_and_value-Wrote 12 0 (length value) w o)))
    | inr long ↦
        let whole : length value % 2 ^ 12 ≡ length value = omega arith in
        rw (long, whole, slice_to-length value)
          (simp o
            (put_bytes-Wrote w _ _ value (write_type_and_value-Wrote 13 1 (length value) w o)))
  ]

  -- From a size of 4 + 8 n the last round goes from 4 to 0, and writes the low byte whole.
  shift_loop_odd :
      (n fuel v : ℕ) (r : k.Device × Bool)
      → 4 + 8 * n ≤ fuel
      → r.1 ≡ true
      → ((shift_loop k fuel (4 + 8 * n) v r).1 ≡ true)
        × (k.contents (shift_loop k fuel (4 + 8 * n) v r).0
            ≡ k.contents r.0 ++ (be_bytes n (v / 16) ++ (v % 256) ∷ []))
  unfolding shift_loop
  shift_loop_odd zero zero v r h o = absurd (omega arith)
  shift_loop_odd zero (suc fuel) v r h o =
      let (fine, written) =
        shift_loop_lem 0 fuel v (k.write_u8 r.0 (v % 256)) (omega arith)
          (sure.write_u8_ok r.0 (v % 256)) in
      rw (o, div-one) (fine, written ∙ append-nil _ ∙ sure.write_u8_contents r.0 (v % 256))
  shift_loop_odd (suc n) zero v r h o = absurd (omega arith)
  shift_loop_odd (suc n) (suc fuel) v r h o =
      let smaller : 4 + 8 * suc n - 8 ≡ 4 + 8 * n = omega arith in
      let more : ltb 0 (4 + 8 * suc n) ≡ true = ground arith in
      let b = v / 16 / 2 ^ (8 * n) % 256 in
      let same : v / 2 ^ (4 + 8 * n) % 256 ≡ b = ap (λ x. x % 256) (shifted v n) in
      let (fine, written) =
        shift_loop_odd n fuel v (k.write_u8 r.0 b) (omega arith) (sure.write_u8_ok r.0 b) in
      rw (more, o, smaller, same)
        (
          fine,
          written
              ∙ ap (λ l. l ++ (be_bytes n (v / 16) ++ (v % 256) ∷ []))
                  (sure.write_u8_contents r.0 b)
              ∙ append_assoc (k.contents r.0) _ _,
        )

  write_type_and_value-Wrote_odd :
      (t n v : ℕ) (w : Writer k.Device)
      → w.ok ≡ true
      → Wrote k w
          (write_type_and_value k w (t * 16) v (8 + 8 * n))
          ((t * 16 + v / 2 ^ (4 + 8 * n) % 16) ∷ (be_bytes n (v / 16) ++ (v % 256) ∷ []))
  unfolding write_type_and_value
  write_type_and_value-Wrote_odd t n v w o =
      let size : 8 + 8 * n - 4 ≡ 4 + 8 * n = omega arith in
      let b = t * 16 + v / 2 ^ (4 + 8 * n) % 16 in
      let (fine, written) =
        shift_loop_odd n (4 + 8 * n) v (k.write_u8 w.device b) (omega arith)
          (sure.write_u8_ok w.device b) in
      rw (o, size, head_byte t (v / 2 ^ (4 + 8 * n)))
        (record {
          fine = fine;
          contents =
              written
              ∙ ap (λ l. l ++ (be_bytes n (v / 16) ++ (v % 256) ∷ []))
                  (sure.write_u8_contents w.device b)
              ∙ append_assoc (k.contents w.device) _ _;
        })

  -- From 2 ^ 60 on all bits are written, and the bits 4 to 7 twice.
  pub write_uint-Wrote_large :
      (v : ℕ) (w : Writer k.Device)
      → 2 ^ 60 ≤ v
      → w.ok ≡ true
      → Wrote k w
          (write_uint k w v)
          ((0xb0 + v / 2 ^ 60 % 16) ∷ (be_bytes 7 (v / 16) ++ (v % 256) ∷ []))
  unfolding write_uint
  write_uint-Wrote_large v w h o = ground (arith, write_type_and_value-Wrote_odd 11 7 v w o)

  -- Of a longer text the writer puts the length modulo 4096 and so many bytes, if these end
  -- between two characters.
  pub write_str-Wrote_long :
      (value : List ℕ) (w : Writer k.Device)
      → 4096 ≤ length value
      → (length value % 2 ^ 12 == 0 || starts_char (get_elem? value (length value % 2 ^ 12))) ≡ true
      → w.ok ≡ true
      → (w' : Writer k.Device) × (write_str k w value ≡ done w')
        × Wrote k w w' (number_bytes 13 1 (length value) ++ take (length value % 2 ^ 12) value)
  unfolding write_str
  write_str-Wrote_long value w h edge o =
      let long : ltb (length value) (2 ^ 4) ≡ false = ground arith in
      let cut : slice_to value (length value % 2 ^ 12) ≡ done (take (length value % 2 ^ 12) value) =
        unfold slice_to in rw edge in
      rw (long, cut)
        (simp o (put_bytes-Wrote w _ _ _ (write_type_and_value-Wrote 13 1 (length value) w o)))
