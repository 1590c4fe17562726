-- ===== src/Fsm.antt =====
-- The state machine of src/fsm.rs.
pub mod Types
pub mod Tree
pub mod Domain
pub mod WellFormed
pub mod Exit
pub mod Conflicts
pub mod Entry
pub mod Selection
pub mod Final
pub mod Interpreter
