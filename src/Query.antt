-- ===== src/Query.antt =====
-- Query/ and Validatable/Validatable.go: the answers that the master gives to the front end. A response
-- is a record of the fields that are computed; a field that repeats one of its argument is left out.
pub mod Response
pub mod Evidence
pub mod Summary
pub mod Rounds
pub mod Timeline
pub mod Integrity
pub mod Certified
pub mod EpochView
pub mod EpochCounts
pub mod Nodes
pub mod Latest
pub mod Tasks
pub mod Request
pub mod Build
pub mod Refusal
pub mod Dispatch
pub mod Shown
pub mod Answered
