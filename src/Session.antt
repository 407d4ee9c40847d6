-- ===== src/Session.antt =====
-- backend/src/sessions: the candidate runtime.
pub mod State
pub mod Views
pub mod World
pub mod Finish
pub mod Advance
pub mod Assessment
pub mod Rebuild
pub mod Runtime
pub mod Start
pub mod Durable
