-- ===== src/Invitations/Attempt/Trail.antt =====
-- What the status bar of an attempt shows.
use adaptive_hire_exam_platf.Common.{
  ℕ, ◌≡◌, Option, none, List, [], ◌∷◌, Bool, true, false, if◌then◌else◌, length, filter, All,
}
use adaptive_hire_exam_platf.Common.Equality.{nat_eq}
use adaptive_hire_exam_platf.Session.State.{InvitationStatus}
use adaptive_hire_exam_platf.Invitations.Attempt.{
  AttemptStage, StageInput, current, upcoming, stopped, halted, reached_at, build_stages,
}

abbrev pub is_current : AttemptStage → Bool
is_current stage = elim stage.state [ current ↦ true | _ ↦ false ]

-- What a stage shows: a date exactly if it was reached, and without one whether it still may be.
abbrev pub Shows : StageInput → AttemptStage → Type 0
Shows input stage =
    (stage.at ≡ reached_at input stage.key)
    × (stage.at ≡ none → stage.state ≡ (if halted input then stopped else upcoming))

-- No stage after the current one was reached.
abbrev pub EndsAtCurrent : List AttemptStage → Type 0
EndsAtCurrent [] = Unit {0}
EndsAtCurrent (stage ∷ stages) =
    (is_current stage ≡ true → All (λ (s : AttemptStage). s.at ≡ none) stages)
    × EndsAtCurrent stages

abbrev bar : InvitationStatus → ℕ → Option ℕ → Option ℕ → Option ℕ → StageInput
bar status invited_at started submitted ready = record {
  invitation_status = status;
  invited_at = invited_at;
  started_at = started;
  submitted_at = submitted;
  review_ready_at = ready;
}

abbrev IsTrail : StageInput → Type 0
IsTrail input =
    (length (filter is_current (build_stages input)) ≡ 1)
    × EndsAtCurrent (build_stages input)
    × All (Shows input) (build_stages input)
