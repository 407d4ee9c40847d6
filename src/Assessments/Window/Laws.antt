-- ===== src/Assessments/Window/Laws.antt =====
-- What the window decides, and how an override changes it.
use adaptive_hire_exam_platf.Common.{ℕ, Option, none, some, ◌≤◌, ◌≡◌, ◌↔◌, arith}
use adaptive_hire_exam_platf.Assessments.Window.{Window, open_now, effective_window, window_state}

-- The candidate's own bound where there is one, the round's where there is none.
abbrev pub Applies : Option ℕ → Option ℕ → (ℕ → Type 0) → Type 0
Applies (some own) round P = P own
Applies none (some t) P = P t
Applies none none P = Unit {0}

-- A candidate may sit an assessment at a time exactly if that time is neither before the opening
-- nor after the closing that apply: the invitation's own bound where it has one, otherwise the
-- assessment's, and no bound where neither has one.
pub window_state-open_iff :
    (assessment invitation : Window) (now : ℕ)
    → (window_state (effective_window assessment invitation) now ≡ open_now) ↔ (
        Applies invitation.opens_at assessment.opens_at (λ t. t ≤ now)
        × Applies invitation.closes_at assessment.closes_at (λ t. now ≤ t))
unfolding window_state effective_window
window_state-open_iff assessment invitation now = ground arith
