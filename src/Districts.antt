-- ===== src/Districts.antt =====
-- lib/district_parser: the districts that the texts of elections and contests name.
pub mod Psc
pub mod Parser
pub mod Contest
