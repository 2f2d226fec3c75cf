-- ===== src/Indexer.antt =====
-- crates/rgk-indexer/src/lib.rs: the indexer of covenant state and its in-memory backend. `Records` has
-- the data, `Entry` what happens to one covenant, `Memory` the backend.
pub mod Records
pub mod Entry
pub mod Memory
pub mod Rebuild
pub mod Store
