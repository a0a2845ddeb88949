-- ===== src/Background.antt =====
-- core/background.py: the runner of background jobs in the process of the server.
pub mod Runner
pub mod Slots
pub mod Progress
