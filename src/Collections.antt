-- ===== src/Collections.antt =====
-- The collections of src/fsm.rs: `List`, `OrderedSet`, `Queue` and `HashTable`.
pub mod SeqList
pub mod OrderedSet
pub mod Queue
pub mod HashTable
pub mod Sort
