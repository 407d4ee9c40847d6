-- ===== src/Session/Start.antt =====
-- `start`, `createSession`, `resume` and `finishedViewFromDb` of
-- backend/src/sessions/sessions.service.ts: how a candidate enters a session.
pub mod Joining
use adaptive_hire_exam_platf.Common.{
  ℕ, ◌+◌, ◌*◌, ◌-◌, Option, none, some, List, [], ◌∷◌, map, find, Bool, true, false, not, length,
  if◌then◌else◌,
}
use adaptive_hire_exam_platf.Common.Equality.{◌==◌, nat_eq}
use adaptive_hire_exam_platf.Failures.{
  Failure, Result, ok, failed, ◌>>=◌, invitation_not_found, invitation_invalid, not_open_yet,
  already_closed, no_modules, duplicate_session, duplicate_response,
}
use adaptive_hire_exam_platf.Assessments.Window.{
  WindowState, open_now, not_yet, closed, effective_window, window_state,
}
use adaptive_hire_exam_platf.Engine.Numbers.{Num}
use adaptive_hire_exam_platf.Engine.Types.{ModuleRunState, ModuleRunStatus}
use adaptive_hire_exam_platf.Engine.Questions.{Question}
use adaptive_hire_exam_platf.Session.State.{
  SessionState, SessionRow, SessionStatus, InvitationStatus, RunStatus, ModuleResultRow,
}
use adaptive_hire_exam_platf.Session.Views.{SessionStep, SessionView, completed, to_session_view}
use adaptive_hire_exam_platf.Session.World.{
  World, M, done, fail, ◌>>=◌ as ◌>>=ₘ◌, pure, save, schedule_auto_submit,
}
use adaptive_hire_exam_platf.Session.Assessment.{
  Assessment, AssessmentModule, Invitation, fresh_modules,
}
use adaptive_hire_exam_platf.Session.Advance.{Clock, Remaining, advance}
use adaptive_hire_exam_platf.Session.Rebuild.{rehydrate}
use adaptive_hire_exam_platf.Session.Runtime.{
  intermission_seconds_per_module, start_grace_seconds, is_in_progress,
}

-- `invitation.candidateId === candidateId`
abbrev is_theirs : Option ℕ → ℕ → Bool
is_theirs none candidate_id = false
is_theirs (some id) candidate_id = id == candidate_id

abbrev is_dead : InvitationStatus → Bool
is_dead InvitationStatus.revoked = true
is_dead InvitationStatus.expired = true
is_dead _ = false

abbrev pub is_unique_violation : Failure → Bool
is_unique_violation duplicate_session = true
is_unique_violation duplicate_response = true
is_unique_violation _ = false

abbrev admitted : WindowState → Result (Unit {0})
admitted open_now = ok tt
admitted not_yet = failed not_open_yet
admitted closed = failed already_closed

-- The checks of `start`, for the invitation that was found.
unfoldable pub check_invitation : ℕ → Option Invitation → InvitationStatus → ℕ → Result Invitation
unfolding effective_window window_state
check_invitation candidate_id none status now = failed invitation_not_found
check_invitation candidate_id (some invitation) status now =
    if not (is_theirs invitation.candidate_id candidate_id)
    then failed invitation_not_found
    else if is_dead status
    then failed invitation_invalid
    else (admitted
          (window_state (effective_window invitation.assessment.window invitation.window) now)
        >>= λ _. ok invitation)

unfoldable pub budget_seconds : List AssessmentModule → ℕ
budget_seconds [] = 0
budget_seconds (config ∷ configs) =
    config.time_limit_seconds + intermission_seconds_per_module + budget_seconds configs

abbrev pub started_row : Invitation → ℕ → ℕ → ℕ → SessionRow
started_row invitation candidate_id id now = record {
  id = id;
  invitation_id = invitation.id;
  assessment_id = invitation.assessment.id;
  candidate_id = candidate_id;
  status = SessionStatus.in_progress;
  started_at = now;
  expires_at = now + (budget_seconds invitation.assessment.modules + start_grace_seconds) * 1000;
  submitted_at = none;
}

abbrev questions_answered_of : {R : Type 0} → Option (ModuleResultRow R) → ℕ
questions_answered_of none = 0
questions_answered_of (some row) = row.questions_answered

module _ {R : Type 0} where
  unfoldable pub finished_view_from_db :
      Assessment → SessionRow → List (ModuleResultRow R) → SessionView
  finished_view_from_db assessment row results = record {
    session_id = row.id;
    assessment_id = row.assessment_id;
    assessment_title = assessment.title;
    status = row.status;
    started_at = row.started_at;
    expires_at = row.expires_at;
    session_remaining_ms = 0;
    modules =
        map
          (λ (config : AssessmentModule). record {
            module_id = config.module_id;
            name = config.entry.name;
            slug = config.entry.slug;
            description = config.entry.description;
            scoring_type = config.entry.scoring_type;
            status = ModuleRunStatus.completed;
            question_count = config.question_count;
            time_limit_seconds = config.time_limit_seconds;
            answered =
                questions_answered_of
                  (find (λ (r : ModuleResultRow R). r.module_id == config.module_id) results);
          })
          assessment.modules;
    current_module_index = length assessment.modules;
  }

module _ {R : Type 0} ⦃num : Num R⦄ where
  abbrev pub started_state : Invitation → SessionRow → ℕ → SessionState R
  started_state invitation row now = record {
    session_id = row.id;
    candidate_id = row.candidate_id;
    invitation_id = invitation.id;
    assessment_id = invitation.assessment.id;
    assessment_title = invitation.assessment.title;
    started_at = now;
    expires_at = row.expires_at;
    status = RunStatus.in_progress;
    modules = fresh_modules invitation.assessment;
    current_module_index = 0;
    served = none;
    answered_total = 0;
  }

  -- The insert of `createSession`: an invitation has at most one session.
  abbrev pub insert_session : SessionRow → Option SessionRow → M R (Unit {0})
  insert_session row none w =
      done tt
        (record w { session_row = some row; invitation_status = InvitationStatus.in_progress })
  insert_session row (some existing) w = fail duplicate_session w

  -- `createSession` without its last call, `advance`.
  unfoldable pub open_session : Invitation → ℕ → ℕ → ℕ → M R (SessionState R)
  unfolding fresh_modules budget_seconds
  open_session invitation candidate_id id now w =
      if length invitation.assessment.modules == 0
      then fail no_modules w
      else (let row : SessionRow = started_row invitation candidate_id id now in
          let state : SessionState R = started_state invitation row now in
          elim (insert_session row w.session_row w) [
            | done _ v ↦ done state (schedule_auto_submit (row.expires_at - now) (save state v))
            | fail e v ↦ fail e v
          ])

module _ {R : Type 0} ⦃num : Num R⦄ (remaining : Remaining) (clock : Clock)
    (select : ModuleRunState R → Option (Question R)) where
  abbrev pub shown : SessionStep × SessionState R → M R SessionStep
  shown (step, state) w = done step w

  abbrev pub advance_and_show : SessionState R → M R SessionStep
  advance_and_show state w = (advance remaining clock select state >>=ₘ shown) w

  abbrev pub live_state :
      Assessment → ℕ → Option (SessionState R) → SessionRow → M R (SessionState R)
  live_state assessment now (some state) row = pure state
  live_state assessment now none row = rehydrate assessment now row

  abbrev finished_view : Assessment → Option (SessionState R) → SessionRow → World R → SessionView
  finished_view assessment (some state) row w =
      to_session_view state (some row.status) clock.showing
  finished_view assessment none row w = finished_view_from_db assessment row w.module_results

  unfoldable pub resume : Assessment → ℕ → SessionRow → M R SessionStep
  unfolding advance rehydrate to_session_view finished_view_from_db
  resume assessment now row w =
      if is_in_progress row.status
      then (live_state assessment now w.store row >>=ₘ advance_and_show) w
      else done (completed (finished_view assessment w.store row w)) w

  -- `createSession`
  unfoldable pub create_session : Invitation → ℕ → ℕ → ℕ → M R SessionStep
  unfolding open_session advance
  create_session invitation candidate_id id now w =
      (open_session invitation candidate_id id now >>=ₘ advance_and_show) w

  abbrev pub join : Failure → Assessment → ℕ → Option SessionRow → M R SessionStep
  join e assessment now none w = fail e w
  join e assessment now (some winner) w = resume assessment now winner w

  -- The `catch` of `start`: a unique violation joins the session that won the race.
  abbrev pub joined : Failure → Assessment → ℕ → M R SessionStep
  joined e assessment now w =
      if is_unique_violation e then join e assessment now w.session_row w else fail e w

  unfoldable pub create_or_join : Invitation → ℕ → ℕ → ℕ → M R SessionStep
  unfolding create_session resume
  create_or_join invitation candidate_id id now w =
      elim (create_session invitation candidate_id id now w) [
        | done step v ↦ done step v
        | fail e v ↦ joined e invitation.assessment now v
      ]

  abbrev pub enter :
      Invitation → ℕ → ℕ → ℕ → (World R → World R) → Option SessionRow → M R SessionStep
  enter invitation candidate_id id now meanwhile (some existing) w =
      resume invitation.assessment now existing w
  enter invitation candidate_id id now meanwhile none w =
      create_or_join invitation candidate_id id now (meanwhile w)

  -- `meanwhile` is what other requests do between the look for a session and the insert.
  unfoldable pub start : ℕ → Option Invitation → ℕ → ℕ → (World R → World R) → M R SessionStep
  unfolding check_invitation resume create_or_join
  start candidate_id found id now meanwhile w =
      elim (check_invitation candidate_id found w.invitation_status now) [
        | ok invitation ↦ enter invitation candidate_id id now meanwhile w.session_row w
        | failed e ↦ fail e w
      ]
