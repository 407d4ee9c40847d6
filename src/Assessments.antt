-- ===== src/Assessments.antt =====
-- backend/src/assessments: the scheduled window of an assessment and its public link.
pub mod Window
pub mod PublicLink
