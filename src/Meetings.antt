-- ===== src/Meetings.antt =====
-- The meeting records: governing bodies, meetings with their approval, agendas, attachments and
-- video embeds (services/*, models/*). The tables are in Db, each service has a module of its own.
pub mod Db
pub mod Filters
pub mod Service
pub mod Validators
pub mod Bodies
pub mod Agenda
pub mod Parents
pub mod Attachments
pub mod Embeds
pub mod Steps
pub mod Cascade
