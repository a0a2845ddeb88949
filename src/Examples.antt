-- ===== src/Examples.antt =====
-- Concrete tables and requests, at which the theorems are applied.
pub mod MeetingTables
pub mod MeetingOrder
pub mod MeetingRuns
pub mod AccountTables
pub mod AccountRuns
pub mod JobRuns
pub mod OfficialRuns
pub mod AccessRuns
pub mod AnalysisRuns
pub mod ElectionTables
pub mod ElectionRuns
pub mod ResolutionTables
pub mod ResolutionRuns
pub mod LocationRuns
