-- ===== src/Elections/Resolve.antt =====
-- services/election_resolution_service.py: the elections and the election events that the records of
-- who voted belong to.
pub mod Tables
pub mod Events
pub mod Updates
pub mod Single
pub mod Multiple
pub mod Run
pub mod Reach
pub mod First
pub mod Induct
pub mod Tier0
pub mod Outcome
pub mod Kept
pub mod Sound
pub mod Returns
pub mod Complete
