-- ===== src/Invitations/Attempt.antt =====
-- `buildStages` of backend/src/invitations/candidate-attempt.ts: the status bar of an attempt. The
-- labels and notes of the stages are left out.
pub mod Trail
use adaptive_hire_exam_platf.Common.{
  ℕ, suc, Option, none, some, List, [], ◌∷◌, Bool, true, false, ◌&&◌, if◌then◌else◌,
}
use adaptive_hire_exam_platf.Common.Equality.{◌==◌, nat_eq}
use adaptive_hire_exam_platf.Engine.Bank.{is_null}
use adaptive_hire_exam_platf.Session.State.{InvitationStatus}

pub data AttemptStageKey : Type 0 where
  invited started submitted under_review : AttemptStageKey

pub data AttemptStageState : Type 0 where
  done current upcoming stopped : AttemptStageState

pub record AttemptStage : Type 0 where
  pub key : AttemptStageKey
  pub at : Option ℕ
  pub state : AttemptStageState

pub record StageInput : Type 0 where
  pub invitation_status : InvitationStatus
  pub invited_at : ℕ
  pub started_at : Option ℕ
  pub submitted_at : Option ℕ
  pub review_ready_at : Option ℕ

abbrev pub is_withdrawn : InvitationStatus → Bool
is_withdrawn InvitationStatus.revoked = true
is_withdrawn InvitationStatus.expired = true
is_withdrawn _ = false

unfoldable pub halted : StageInput → Bool
halted input = is_null input.submitted_at && is_withdrawn input.invitation_status

unfoldable pub reached_at : StageInput → AttemptStageKey → Option ℕ
reached_at input invited = some input.invited_at
reached_at input started = input.started_at
reached_at input submitted = input.submitted_at
reached_at input under_review = input.review_ready_at

abbrev pub order : List AttemptStageKey
order = invited ∷ started ∷ submitted ∷ under_review ∷ []

-- The `reduce` over the order, from an index on.
unfoldable pub last_reached : StageInput → ℕ → ℕ → List AttemptStageKey → ℕ
unfolding reached_at
last_reached input furthest index [] = furthest
last_reached input furthest index (key ∷ keys) =
    last_reached input (if is_null (reached_at input key) then furthest else index) (suc index) keys

abbrev pub stage_state : Option ℕ → Bool → Bool → AttemptStageState
stage_state none is_last is_halted = if is_halted then stopped else upcoming
stage_state (some at) is_last is_halted = if is_last then current else done

unfoldable pub stages_from : StageInput → ℕ → ℕ → List AttemptStageKey → List AttemptStage
unfolding reached_at halted
stages_from input last index [] = []
stages_from input last index (key ∷ keys) =
    record {
      key = key;
      at = reached_at input key;
      state = stage_state (reached_at input key) (index == last) (halted input);
    }
    ∷ stages_from input last (suc index) keys

unfoldable pub build_stages : StageInput → List AttemptStage
unfolding last_reached stages_from
build_stages input = stages_from input (last_reached input 0 0 order) 0 order
