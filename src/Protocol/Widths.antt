-- ===== src/Protocol/Widths.antt =====
-- The reads of other widths in src/serializer/protocol_reader.rs, and the writes that they belong to.
use r_fsm.Protocol.Writer.{Writer}
use r_fsm.Protocol.Reader.{Reader}
