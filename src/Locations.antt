-- ===== src/Locations.antt =====
-- Where voters live: the locations that geocoders and users give, and the official one.
pub mod Db
pub mod Service
pub mod Rows
pub mod Consistent
pub mod Primary
pub mod Manual
pub mod Handlers
pub mod Steps
