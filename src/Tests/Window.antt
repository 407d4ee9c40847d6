-- ===== src/Tests/Window.antt =====
-- Runs of the assessment window.
use adaptive_hire_exam_platf.Common.{none, some, ◌≡◌, ◌↔◌, ◌≤◌}
use adaptive_hire_exam_platf.Assessments.Window.{Window, open_now, window_state, effective_window}
use adaptive_hire_exam_platf.Assessments.Window.Laws.{window_state-open_iff, Applies}

abbrev round_window : Window
round_window = record { opens_at = some 100; closes_at = some 200 }

abbrev extension : Window
extension = record { opens_at = none; closes_at = some 300 }

window_state-open_iff_example :
    (window_state (effective_window round_window extension) 250 ≡ open_now) ↔ (
      Applies extension.opens_at round_window.opens_at (λ t. t ≤ 250)
      × Applies extension.closes_at round_window.closes_at (λ t. 250 ≤ t))
window_state-open_iff_example = window_state-open_iff round_window extension 250
