-- ===== src/Protocol/Writer.antt =====
-- src/serializer/default_protocol_writer.rs: `DefaultProtocolWriter` over an abstract device.
-- A text is the list of its UTF-8 bytes; a `u64` is a number below 2 ^ 64.
pub mod Devices
pub mod Bytes
pub mod Emits
use Prim.Native.Nat.{bit_and, bit_or}
use r_fsm.Prelude.{
  ℕ, zero, suc, ◌+◌, ◌-◌, ◌/◌, ◌%◌, ◌^◌, List, [], ◌∷◌, Bool, true, false, not, ◌&&◌, ◌||◌, Option,
  none, some, if◌then◌else◌, ltb, leb, ◌==◌, length, take, get_elem?, Run, done, panic,
}
use r_fsm.Protocol.Constants.{
  protocol_version, opt_string_none, boolean_true, boolean_false, int_4bit, int_12bit, int_20bit,
  int_28bit, int_36bit, int_44bit, int_52bit, int_60bit, int_68bit, string_length_4bit,
  string_length_12bit,
}
use r_fsm.Protocol.Writer.Devices.{Sink}

pub record Writer (D : Type 0) : Type 0 where
  pub device : D
  pub ok : Bool

-- The slice `value[0..len]` of a `str` panics inside a character, which a byte 10xxxxxx shows.
abbrev pub starts_char : Option ℕ → Bool
starts_char none = true
starts_char (some b) = not (leb 0x80 b && ltb b 0xc0)

slice_to : List ℕ → ℕ → Run (List ℕ)
slice_to value len =
    if len == 0 || starts_char (get_elem? value len) then done (take len value) else panic

module _ (k : Sink) where
  open k use {Device, write_u8, write, flush}

  abbrev pub new : Device → Writer Device
  new d = record { device = d; ok = true }

  -- `eval_result`: an error clears `ok`. The device is as the attempt left it.
  abbrev eval_result : Writer Device → Device × Bool → Writer Device
  eval_result w (d, fine) = record { device = d; ok = w.ok && fine }

  -- `while size > 0 && r.is_ok() { size = size.saturating_sub(8); r = write_u8((value >> size) as u8) }`;
  -- a size is at most its own number of rounds.
  shift_loop : ℕ → ℕ → ℕ → Device × Bool → Device × Bool
  shift_loop zero size value r = r
  shift_loop (suc fuel) size value r =
      let more = shift_loop fuel (size - 8) value (write_u8 r.0 (value / 2 ^ (size - 8) % 256)) in
      if ltb 0 size && r.1 then more else r

  unfoldable pub write_type_and_value : Writer Device → ℕ → ℕ → ℕ → Writer Device
  unfolding shift_loop
  write_type_and_value w type_id value size =
      let head = write_u8 w.device (bit_or type_id (bit_and (value / 2 ^ (size - 4) % 256) 0x0f)) in
      if w.ok then eval_result w (shift_loop (size - 4) (size - 4) value head) else w

  unfoldable pub write_uint : Writer Device → ℕ → Writer Device
  write_uint w value =
      if ltb value (2 ^ 4)
      then write_type_and_value w int_4bit value 4
      else if ltb value (2 ^ 12)
      then write_type_and_value w int_12bit value 12
      else if ltb value (2 ^ 20)
      then write_type_and_value w int_20bit value 20
      else if ltb value (2 ^ 28)
      then write_type_and_value w int_28bit value 28
      else if ltb value (2 ^ 36)
      then write_type_and_value w int_36bit value 36
      else if ltb value (2 ^ 44)
      then write_type_and_value w int_44bit value 44
      else if ltb value (2 ^ 52)
      then write_type_and_value w int_52bit value 52
      else if ltb value (2 ^ 60)
      then write_type_and_value w int_60bit value 60
      else write_type_and_value w int_68bit value 64

  unfoldable pub write_usize : Writer Device → ℕ → Writer Device
  write_usize w value = write_uint w value

  -- The trait's default method: a byte is written as a number.
  unfoldable pub write_u8_value : Writer Device → ℕ → Writer Device
  write_u8_value w value = write_uint w value

  unfoldable pub write_boolean : Writer Device → Bool → Writer Device
  write_boolean w value =
      if w.ok
      then eval_result w (write_u8 w.device (if value then boolean_true else boolean_false))
      else w

  -- `write` may take less than it is given; the count that it returns is not looked at.
  abbrev put_bytes : Writer Device → Run (List ℕ) → Run (Writer Device)
  put_bytes w (done bytes) = let r = write w.device bytes in done (eval_result w (r.0, r.2))
  put_bytes w panic = panic
  put_bytes w Run.stuck = Run.stuck

  unfoldable pub write_str : Writer Device → List ℕ → Run (Writer Device)
  unfolding slice_to
  write_str w value =
      let len = length value in
      if not w.ok
      then done w
      else if ltb len (2 ^ 4)
      then put_bytes (write_type_and_value w string_length_4bit len 4) (slice_to value len)
      else put_bytes (write_type_and_value w string_length_12bit len 12)
          (slice_to value (len % 2 ^ 12))

  unfoldable pub write_version : Writer Device → Run (Writer Device)
  write_version w = write_str w protocol_version

  unfoldable pub write_option_string : Writer Device → Option (List ℕ) → Run (Writer Device)
  write_option_string w (some value) = write_str w value
  write_option_string w none =
      done (if w.ok then eval_result w (write_u8 w.device opt_string_none) else w)

  unfoldable pub close : Writer Device → Writer Device
  close w = if w.ok then eval_result w (flush w.device) else w

  unfoldable pub has_error : Writer Device → Bool
  has_error w = not w.ok
