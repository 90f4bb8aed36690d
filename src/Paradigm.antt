-- ===== src/Paradigm.antt =====
-- paradigm/: the data that the components exchange, and the methods on it.
pub mod Model
pub mod Commit
pub mod Slot
pub mod Track
pub mod Vote
pub mod Record
