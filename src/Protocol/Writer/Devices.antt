-- ===== src/Protocol/Writer/Devices.antt =====
-- The byte device that `DefaultProtocolWriter` (src/serializer) writes to: an implementation of
-- the standard library's `Write`, given to the writer as a parameter.
use r_fsm.Prelude.{ℕ, List, [], ◌∷◌, ◌++◌, Bool, true, ◌≡◌}

-- Each call returns the device after it and whether it was `Ok`; `write` also says how many bytes
-- it has taken.
pub record Sink : Type 1 where
  pub Device : Type 0
  pub contents : Device → List ℕ
  pub write_u8 : Device → ℕ → Device × Bool
  pub write : Device → List ℕ → Device × ℕ × Bool
  pub flush : Device → Device × Bool

-- A device without errors, which takes all that it is given, as a `Vec<u8>` does.
pub record IsReliable (k : Sink) : Type 0 where
  pub write_u8_ok : (d : k.Device) (b : ℕ) → (k.write_u8 d b).1 ≡ true
  pub write_u8_contents :
      (d : k.Device) (b : ℕ) → k.contents (k.write_u8 d b).0 ≡ k.contents d ++ b ∷ []
  pub write_ok : (d : k.Device) (bs : List ℕ) → (k.write d bs).2 ≡ true
  pub write_contents :
      (d : k.Device) (bs : List ℕ) → k.contents (k.write d bs).0 ≡ k.contents d ++ bs
