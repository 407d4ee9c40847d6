-- ===== src/Invitations.antt =====
-- backend/src/invitations: what a candidate is shown about an attempt.
pub mod Attempt
