-- ===== src/Elections.antt =====
-- Elections: their rows and results, and the feeds that deliver them.
pub mod Db
pub mod Ingest
pub mod Link
pub mod Service
pub mod Results
pub mod Refresh
pub mod Feed
pub mod Unique
pub mod Steps
pub mod Resolve
