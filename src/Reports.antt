-- ===== src/Reports.antt =====
-- The recruiter's report on an attempt: backend/src/reports.
pub mod Profiles
pub mod Builder
pub mod Ranking
