-- ===== src/Assessments/Window.antt =====
-- backend/src/assessments/assessment-window.ts: when a candidate may sit an assessment.
-- Dates are epoch milliseconds; a null bound is `none`.
pub mod Laws
use adaptive_hire_exam_platf.Common.{ℕ, Option, none, some, Bool, false, ltb, if◌then◌else◌}

pub record Window : Type 0 where
  pub opens_at : Option ℕ
  pub closes_at : Option ℕ

pub data WindowState : Type 0 where
  open_now not_yet closed : WindowState

-- `a ?? b`
abbrev pub or_else {ℓ} : {A : Type ℓ} → Option A → Option A → Option A
or_else none b = b
or_else (some a) b = some a

-- `bound && test(bound)`, where a missing bound passes no test.
abbrev pub holds_of : Option ℕ → (ℕ → Bool) → Bool
holds_of none test = false
holds_of (some t) test = test t

-- The first argument is the assessment's window, the second the invitation's override.
unfoldable pub effective_window : Window → Window → Window
effective_window assessment invitation = record {
  opens_at = or_else invitation.opens_at assessment.opens_at;
  closes_at = or_else invitation.closes_at assessment.closes_at;
}

unfoldable pub window_state : Window → ℕ → WindowState
window_state window now =
    if holds_of window.opens_at (λ t. ltb now t)
    then not_yet
    else if holds_of window.closes_at (λ t. ltb t now)
    then closed
    else open_now
