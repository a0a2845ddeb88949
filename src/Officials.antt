-- ===== src/Officials.antt =====
-- The elected officials: services/elected_official_service.py over models/elected_official.py and
-- lib/officials/base.py.
pub mod Db
pub mod Service
pub mod Sources
pub mod Links
pub mod Approval
