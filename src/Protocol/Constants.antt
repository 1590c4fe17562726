-- ===== src/Protocol/Constants.antt =====
-- src/serializer/default_protocol_definitions.rs: the type codes of the protocol.
use r_fsm.Prelude.{ℕ, List, [], ◌∷◌}

-- "DwP1.1", in bytes.
abbrev pub protocol_version : List ℕ
protocol_version = b'D' ∷ b'w' ∷ b'P' ∷ b'1' ∷ b'.' ∷ b'1' ∷ []

abbrev pub opt_string_none : ℕ
opt_string_none = 0x10

abbrev pub boolean_true : ℕ
boolean_true = 0x1f

abbrev pub boolean_false : ℕ
boolean_false = 0x10

abbrev pub int_4bit : ℕ
int_4bit = 0x30

abbrev pub int_12bit : ℕ
int_12bit = 0x40

abbrev pub int_20bit : ℕ
int_20bit = 0x50

abbrev pub int_28bit : ℕ
int_28bit = 0x60

abbrev pub int_36bit : ℕ
int_36bit = 0x70

abbrev pub int_44bit : ℕ
int_44bit = 0x80

abbrev pub int_52bit : ℕ
int_52bit = 0x90

abbrev pub int_60bit : ℕ
int_60bit = 0xa0

abbrev pub int_68bit : ℕ
int_68bit = 0xb0

abbrev pub string_length_4bit : ℕ
string_length_4bit = 0xc0

abbrev pub string_length_12bit : ℕ
string_length_12bit = 0xd0
