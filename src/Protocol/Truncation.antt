-- ===== src/Protocol/Truncation.antt =====
-- Writer and reader of src/serializer together, where the input ends before all that was written.
use r_fsm.Prelude.{ℕ, ◌^◌, ◌<◌, List, [], true, length, take, done, ◌≡◌}
use r_fsm.Protocol.Writer.{Writer, write_uint, write_str}
use r_fsm.Protocol.Writer.Devices.{Sink, IsReliable}
use r_fsm.Protocol.Writer.Bytes.{uint_bytes, text_bytes}
use r_fsm.Protocol.Writer.Emits.{Wrote, write_uint-Wrote, write_str-Wrote}
use r_fsm.Protocol.Reader.{Reader, read_uint, read_string}
use r_fsm.Protocol.Reader.Cuts.{Fails, read_uint-cut, read_string-cut}

module _ (k : Sink) (sure : IsReliable k) (w : Writer k.Device) (r : Reader) where
  -- If a number below 2 ^ 60 was written on a reliable device, and the reader gets only a beginning of
  -- its bytes, `read_uint` returns 0 and the reader has an error.
  pub read_uint-write_uint_cut :
      (v : ℕ)
      → v < 2 ^ 60
      → w.ok ≡ true
      → r.ok ≡ true
      → (bytes : List ℕ) × Wrote k w (write_uint k w v) bytes
        × ((n : ℕ) → n < length bytes → Fails (read_uint (record r { input = take n bytes })) 0)
  read_uint-write_uint_cut v h o p =
      (uint_bytes v, write_uint-Wrote k sure v w h o, λ n b. read_uint-cut v n r h p b)

  -- If a text of less than 4096 bytes was written on a reliable device, and the reader gets only a
  -- beginning of its bytes, `read_string` returns the empty text and the reader has an error.
  pub read_string-write_str_cut :
      (value : List ℕ)
      → length value < 4096
      → w.ok ≡ true
      → r.ok ≡ true
      → (w' : Writer k.Device) × (bytes : List ℕ) × (write_str k w value ≡ done w')
        × Wrote k w w' bytes
        × ((n : ℕ) → n < length bytes → Fails (read_string (record r { input = take n bytes })) [])
  read_string-write_str_cut value h o p =
      let (w', run, wrote) = write_str-Wrote k sure value w h o in
      (w', text_bytes value, run, wrote, λ n b. read_string-cut value n r h p b)
