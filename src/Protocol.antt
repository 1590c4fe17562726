-- ===== src/Protocol.antt =====
-- The binary protocol of src/serializer: `DefaultProtocolWriter` and `DefaultProtocolReader`.
pub mod Bits
pub mod Constants
pub mod Writer
pub mod Reader
pub mod RoundTrip
pub mod Truncation
pub mod Widths
