-- ===== src/Analysis.antt =====
-- lib/analyzer: where a voter is registered, compared with where the voter lives.
pub mod Comparator
