-- ===== src/Protocol/Reader/Errors.antt =====
-- Errors of the reader in src/serializer/default_protocol_reader.rs.
use Prim.Native.Nat.{bit_and}
use r_fsm.Prelude.{ℕ, List, [], ◌∷◌, true, ◌≡◌, arith, ◌⊎◌}
use r_fsm.Protocol.Reader.{
  Reader, read_type_and_size, first_byte, dispatch, verify_number_type, read_uint, is_number_type,
}

-- A first byte whose high nibble is no type code is no error: behind a number, `read_uint` returns
-- that number again.
pub read_uint-unknown_code :
    (r : Reader) (b : ℕ) (rest : List ℕ)
    → r.ok ≡ true
    → is_number_type r.type_id ≡ true
    → (bit_and b 0xf0 ≡ 0x00)
      ⊎ (bit_and b 0xf0 ≡ 0x20)
      ⊎ (bit_and b 0xf0 ≡ 0xe0)
      ⊎ (bit_and b 0xf0 ≡ 0xf0)
    → read_uint (record r { input = b ∷ rest }) ≡ (r.number, record r { input = rest; string = [] })
unfolding read_uint read_type_and_size first_byte dispatch verify_number_type
read_uint-unknown_code r b rest o t code = ground arith
