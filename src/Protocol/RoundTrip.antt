-- ===== src/Protocol/RoundTrip.antt =====
-- Writer and reader of src/serializer together: what is written is read back, and where not.
use r_fsm.Prelude.{
  ℕ, ◌+◌, ◌*◌, ◌/◌, ◌%◌, ◌^◌, ◌≤◌, ◌<◌, List, [], ◌∷◌, ◌++◌, Bool, true, false, ◌||◌, Option, none,
  some, ◌==◌, length, take, get_elem?, done, ◌≡◌, refl, ap, arith, length-take_le,
}
use r_fsm.Protocol.Writer.{
  Writer, write_uint, write_str, write_boolean, write_option_string, write_version, starts_char,
}
use r_fsm.Protocol.Constants.{boolean_true, boolean_false, opt_string_none, protocol_version}
use r_fsm.Protocol.Writer.Devices.{Sink, IsReliable}
use r_fsm.Protocol.Writer.Bytes.{be_bytes, number_bytes, uint_bytes, text_bytes}
use r_fsm.Protocol.Writer.Emits.{
  Wrote, write_uint-Wrote, write_uint-Wrote_large, write_str-Wrote, write_str-Wrote_long,
}
use r_fsm.Protocol.Reader.{
  Reader, read_uint, read_string, read_boolean, read_option_string, verify_version,
}
use r_fsm.Protocol.Reader.Utf8.{is_utf8}
use r_fsm.Protocol.Reader.Decodes.{reading, read_uint-bytes, read_uint-large}
use r_fsm.Protocol.Reader.Texts.{
  read_string-bytes, read_string-long, read_option_string-bytes, read_option_string-none,
}

-- A reader that is given what a write appended, and `rest` behind it, returns `a` without an
-- error and leaves `rest`.
pub record ReadsBack {A : Type 0} (read : Reader → A × Reader) (r : Reader) (bytes rest : List ℕ)
    (a : A) : Type 0 where
  pub value : (read (record r { input = bytes ++ rest })).0 ≡ a
  pub fine : (read (record r { input = bytes ++ rest })).1.ok ≡ true
  pub left : (read (record r { input = bytes ++ rest })).1.input ≡ rest

pub reads_back :
    {A : Type 0} (read : Reader → A × Reader) (r : Reader) (bytes rest : List ℕ) (a : A) (t n : ℕ)
    (s : List ℕ)
    → read (record r { input = bytes ++ rest }) ≡ (a, reading rest t n s)
    → ReadsBack read r bytes rest a
reads_back read r bytes rest a t n s e = record {
  value = ap (λ p. p.0) e;
  fine = ap (λ p. p.1.ok) e;
  left = ap (λ p. p.1.input) e;
}

abbrev boolean_bytes : Bool → List ℕ
boolean_bytes true = boolean_true ∷ []
boolean_bytes false = boolean_false ∷ []

module _ (k : Sink) (sure : IsReliable k) (w : Writer k.Device) (r : Reader) (rest : List ℕ) where
  write_boolean-Wrote :
      (value : Bool) → w.ok ≡ true → Wrote k w (write_boolean k w value) (boolean_bytes value)
  unfolding write_boolean
  write_boolean-Wrote true o = rw o (record {
    fine = sure.write_u8_ok w.device boolean_true;
    contents = sure.write_u8_contents w.device boolean_true;
  })
  write_boolean-Wrote false o = rw o (record {
    fine = sure.write_u8_ok w.device boolean_false;
    contents = sure.write_u8_contents w.device boolean_false;
  })

  boolean_read :
      (value : Bool)
      → r.ok ≡ true
      → read_boolean (record r { input = boolean_bytes value ++ rest })
        ≡ (value, reading rest r.type_id r.number r.string)
  unfolding read_boolean
  boolean_read true p = simp p
  boolean_read false p = simp p

  -- A number below 2 ^ 60 that is written without an error is read back.
  pub read_uint-write_uint :
      (v : ℕ)
      → v < 2 ^ 60
      → w.ok ≡ true
      → r.ok ≡ true
      → (bytes : List ℕ) × Wrote k w (write_uint k w v) bytes × ReadsBack read_uint r bytes rest v
  read_uint-write_uint v h o p = (
    uint_bytes v,
    write_uint-Wrote k sure v w h o,
    reads_back read_uint r (uint_bytes v) rest v _ _ _ (read_uint-bytes v rest r h p),
  )

  -- A number from 2 ^ 60 to 2 ^ 64 is written without an error on a reliable device, and what is read
  -- from its bytes without an error is the low 56 of its bits from 4 on, shifted by 8, above its low
  -- byte.
  pub read_uint-write_uint_large :
      (v : ℕ)
      → 2 ^ 60 ≤ v
      → v < 2 ^ 64
      → w.ok ≡ true
      → r.ok ≡ true
      → (bytes : List ℕ) × Wrote k w (write_uint k w v) bytes
        × ReadsBack read_uint r bytes rest (v / 16 % 2 ^ 56 * 256 + v % 256)
  read_uint-write_uint_large v h b o p = (
    (0xb0 + v / 2 ^ 60 % 16) ∷ (be_bytes 7 (v / 16) ++ (v % 256) ∷ []),
    write_uint-Wrote_large k sure v w h o,
    reads_back read_uint r _ rest _ _ _ _ (read_uint-large v rest r b p),
  )

  -- A well-formed text of less than 4096 bytes is read back.
  pub read_string-write_str :
      (value : List ℕ)
      → is_utf8 value ≡ true
      → length value < 4096
      → w.ok ≡ true
      → r.ok ≡ true
      → (w' : Writer k.Device) × (bytes : List ℕ) × (write_str k w value ≡ done w')
        × Wrote k w w' bytes
        × ReadsBack read_string r bytes rest value
  read_string-write_str value u h o p =
      let (w', run, wrote) = write_str-Wrote k sure value w h o in
      (
        w',
        text_bytes value,
        run,
        wrote,
        reads_back read_string r (text_bytes value) rest value _ _ _
            (read_string-bytes value rest r u h p),
      )

  -- A text of 4096 bytes or more is written without an error, if the cut after its length modulo
  -- 4096 is between two characters, and only the bytes before the cut are read.
  pub read_string-write_str_long :
      (value : List ℕ)
      → 4096 ≤ length value
      → (length value % 2 ^ 12 == 0 || starts_char (get_elem? value (length value % 2 ^ 12))) ≡ true
      → is_utf8 (take (length value % 2 ^ 12) value) ≡ true
      → w.ok ≡ true
      → r.ok ≡ true
      → (w' : Writer k.Device) × (bytes : List ℕ) × (write_str k w value ≡ done w')
        × Wrote k w w' bytes
        × ReadsBack read_string r bytes rest (take (length value % 2 ^ 12) value)
  read_string-write_str_long value h edge u o p =
      let cut = take (length value % 2 ^ 12) value in
      let size : length cut ≡ length value % 2 ^ 12 = length-take_le _ value (omega arith) in
      let (w', run, wrote) = write_str-Wrote_long k sure value w h edge o in
      (
        w',
        number_bytes 13 1 (length value) ++ cut,
        run,
        wrote,
        reads_back read_string r (number_bytes 13 1 (length value) ++ cut) rest cut _ _ _
            (read_string-long cut rest (length value) r u size p),
      )

  -- A boolean that is written without an error is read back.
  pub read_boolean-write_boolean :
      (value : Bool)
      → w.ok ≡ true
      → r.ok ≡ true
      → (bytes : List ℕ) × Wrote k w (write_boolean k w value) bytes
        × ReadsBack read_boolean r bytes rest value
  read_boolean-write_boolean value o p = (
    boolean_bytes value,
    write_boolean-Wrote value o,
    reads_back read_boolean r (boolean_bytes value) rest value r.type_id r.number r.string
        (boolean_read value p),
  )

  write_option_string-none :
      w.ok ≡ true
      → (w' : Writer k.Device) × (write_option_string k w none ≡ done w')
        × Wrote k w w' (opt_string_none ∷ [])
  unfolding write_option_string
  write_option_string-none o = rw o (
    _,
    refl,
    record {
      fine = sure.write_u8_ok w.device opt_string_none;
      contents = sure.write_u8_contents w.device opt_string_none;
    },
  )

  version_read :
      r.ok ≡ true
      → verify_version (record r { input = text_bytes protocol_version ++ rest })
        ≡ reading rest 0xc0 0 protocol_version
  unfolding verify_version is_utf8
  version_read p = rw (read_string-bytes protocol_version rest r refl (omega arith) p)

  -- The version that is written without an error is accepted, and the rest of the input is left.
  pub verify_version-write_version :
      w.ok ≡ true
      → r.ok ≡ true
      → (w' : Writer k.Device) × (bytes : List ℕ) × (write_version k w ≡ done w')
        × Wrote k w w' bytes
        × ((verify_version (record r { input = bytes ++ rest })).ok ≡ true)
        × ((verify_version (record r { input = bytes ++ rest })).input ≡ rest)
  verify_version-write_version o p =
      let (w', run, wrote) = write_str-Wrote k sure protocol_version w (omega arith) o in
      let same = version_read p in
      (
        w',
        text_bytes protocol_version,
        unfold write_version in run,
        wrote,
        ap (λ q. q.ok) same,
        ap (λ q. q.input) same,
      )

  -- On a reliable device an optional text is read back as it was written: none as none, and a
  -- well-formed UTF-8 text of less than 4096 bytes as that text.
  pub read_option_string-write_option_string :
      (value : Option (List ℕ))
      → ((text : List ℕ) → value ≡ some text → (is_utf8 text ≡ true) × (length text < 4096))
      → w.ok ≡ true
      → r.ok ≡ true
      → (w' : Writer k.Device) × (bytes : List ℕ) × (write_option_string k w value ≡ done w')
        × Wrote k w w' bytes
        × ReadsBack read_option_string r bytes rest value
  read_option_string-write_option_string none fits o p =
      let (w', run, wrote) = write_option_string-none o in
      (
        w',
        opt_string_none ∷ [],
        run,
        wrote,
        reads_back read_option_string r (opt_string_none ∷ []) rest none 0x10 r.number []
            (read_option_string-none rest r p),
      )
  read_option_string-write_option_string (some value) fits o p =
      let (u, h) = fits value refl in
      let (w', run, wrote) = write_str-Wrote k sure value w h o in
      (
        w',
        text_bytes value,
        unfold write_option_string in run,
        wrote,
        reads_back read_option_string r (text_bytes value) rest (some value) _ _ _
            (read_option_string-bytes value rest r u h p),
      )
