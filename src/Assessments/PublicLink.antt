-- ===== src/Assessments/PublicLink.antt =====
-- backend/src/assessments/public-link.ts: whether a public link admits anyone. Tokens are hashed by
-- the runtime's library; the hash is a text here.
pub mod Admission
use adaptive_hire_exam_platf.Common.{
  ℕ, Option, none, some, List, [], ◌∷◌, Bool, true, false, not, String, ltb, leb, if◌then◌else◌,
}
use adaptive_hire_exam_platf.Common.Equality.{◌==◌, string_eq}
use adaptive_hire_exam_platf.Assessments.Window.{holds_of}

pub data PublicLinkState : Type 0 where
  link_open not_configured disabled expired not_yet full : PublicLinkState

pub record PublicLinkConfig : Type 0 where
  pub token_hash : Option String
  pub enabled : Bool
  pub expires_at : Option ℕ
  pub max_attempts : Option ℕ
  -- The assessment's own window.
  pub opens_at : Option ℕ
  pub closes_at : Option ℕ

-- `!config.publicLinkTokenHash`
abbrev pub is_missing : Option String → Bool
is_missing none = true
is_missing (some hash) = hash == ""

unfoldable pub public_link_state : PublicLinkConfig → ℕ → ℕ → PublicLinkState
public_link_state config attempt_count now =
    if is_missing config.token_hash
    then not_configured
    else if not config.enabled
    then disabled
    else if holds_of config.opens_at (λ t. ltb now t)
    then not_yet
    else if holds_of config.closes_at (λ t. leb t now)
    then expired
    else if holds_of config.expires_at (λ t. leb t now)
    then expired
    else if holds_of config.max_attempts (λ cap. leb cap attempt_count)
    then full
    else link_open
