-- ===== src/Session/Runtime.antt =====
-- The entry points of backend/src/sessions/sessions.service.ts: loading a session, the current step,
-- beginning a module, submitting an answer, and the auto-submit worker.
pub mod Beginning
pub mod Expiry
use adaptive_hire_exam_platf.Common.{
  ℕ, ◌+◌, ◌*◌, Option, none, some, List, [], ◌∷◌, Bool, true, false, not, String, leb, ltb, all,
  if◌then◌else◌,
}
use adaptive_hire_exam_platf.Common.Equality.{◌==◌, nat_eq}
use adaptive_hire_exam_platf.Failures.{
  Result, ok, failed, both_answers, no_answer, session_not_found, no_question_on_screen,
  wrong_question, module_closed,
}
use adaptive_hire_exam_platf.Engine.Numbers.{Num}
use adaptive_hire_exam_platf.Engine.Types.{ModuleRunState, ModuleRunStatus}
use adaptive_hire_exam_platf.Engine.Questions.{Question}
use adaptive_hire_exam_platf.Engine.Run.{SubmittedAnswer}
use adaptive_hire_exam_platf.Session.State.{
  SessionState, ServedQuestion, SessionRow, SessionStatus, current_module, put_module, is_finished,
}
use adaptive_hire_exam_platf.Session.Views.{SessionStep}
use adaptive_hire_exam_platf.Session.World.{
  World, M, done, ◌>>=◌, ◌>>◌, pure, throw, lift, modify, save, start_module_clock,
  schedule_auto_submit, remove_auto_submit, load_served_question,
}
use adaptive_hire_exam_platf.Session.Finish.{finalize, apply_answer}
use adaptive_hire_exam_platf.Session.Advance.{Clock, Remaining, advance}

abbrev pub intermission_seconds_per_module : ℕ
intermission_seconds_per_module = 120

abbrev pub start_grace_seconds : ℕ
start_grace_seconds = 7200

abbrev pub answer_grace_ms : ℕ
answer_grace_ms = 2000

-- The answer that a request carries, as the client sent it.
pub record SubmitAnswerDto : Type 0 where
  pub question_id : ℕ
  pub selected_option : Option String
  pub selected_options : Option (List String)

abbrev submitted : Option String → Option (List String) → Result SubmittedAnswer
submitted (some selected) (some ordered) = failed both_answers
submitted none (some ordered) = ok (SubmittedAnswer.ordering ordered)
submitted (some selected) none = ok (SubmittedAnswer.option selected)
submitted none none = failed no_answer

unfoldable pub to_submitted_answer : SubmitAnswerDto → Result SubmittedAnswer
to_submitted_answer dto = submitted dto.selected_option dto.selected_options

abbrev pub is_pending : ModuleRunStatus → Bool
is_pending ModuleRunStatus.pending = true
is_pending ModuleRunStatus.in_progress = false
is_pending ModuleRunStatus.completed = false

abbrev pub is_in_progress : SessionStatus → Bool
is_in_progress SessionStatus.in_progress = true
is_in_progress _ = false

-- `module.deadlineAt !== null && now > module.deadlineAt + ANSWER_GRACE_MS`
abbrev pub too_late : Option ℕ → ℕ → Bool
too_late none now = false
too_late (some deadline) now = ltb (deadline + answer_grace_ms) now

abbrev pub rebase_row : ℕ → ℕ → Option SessionRow → Option SessionRow
rebase_row now expires_at none = none
rebase_row now expires_at (some row) =
    some (record row { started_at = now; expires_at = expires_at })

module _ {R : Type 0} where
  unfoldable pub budget_ms : List (ModuleRunState R) → ℕ
  budget_ms [] = 0
  budget_ms (m ∷ ms) =
      (m.time_limit_seconds + intermission_seconds_per_module) * 1000 + budget_ms ms

  abbrev pub rebased : SessionState R → ℕ → SessionState R
  rebased state now = record state { started_at = now; expires_at = now + budget_ms state.modules }

  unfoldable pub begin_session_clock : SessionState R → ℕ → World R → SessionState R × World R
  unfolding budget_ms
  begin_session_clock state now w = (
    rebased state now,
    schedule_auto_submit (budget_ms state.modules) (
        remove_auto_submit
          (record w { session_row = rebase_row now (rebased state now).expires_at w.session_row })),
  )

  abbrev pub begun : ModuleRunState R → ℕ → ModuleRunState R
  begun m now = record m {
    status = ModuleRunStatus.in_progress;
    started_at = some now;
    deadline_at = some (now + m.time_limit_seconds * 1000);
  }

  abbrev pub begin_clock_if : Bool → SessionState R → ℕ → World R → SessionState R × World R
  begin_clock_if true state now w = begin_session_clock state now w
  begin_clock_if false state now w = (state, w)

  -- The body of `startCurrentModule` before it advances.
  abbrev pub begin_pending :
      SessionState R → ℕ → Option (ModuleRunState R) → World R → SessionState R × World R
  begin_pending state now none w = (state, w)
  begin_pending state now (some m) w =
      if is_pending m.status
      then (let (state', w') =
            begin_clock_if (all (λ (x : ModuleRunState R). is_pending x.status) state.modules)
              (put_module state (begun m now)) now
              (start_module_clock m.module_id m.time_limit_seconds w) in
          (state', save state' w'))
      else (state, w)

  unfoldable pub begin_current_module : SessionState R → ℕ → World R → SessionState R × World R
  unfolding begin_session_clock
  begin_current_module state now w = begin_pending state now (current_module state) w

module _ {R : Type 0} ⦃num : Num R⦄ (remaining : Remaining) (clock : Clock)
    (select : ModuleRunState R → Option (Question R))
    (rehydrate : SessionRow → M R (SessionState R)) where
  abbrev pub own_row : ℕ → Option SessionRow → M R (SessionState R)
  own_row candidate_id none = throw session_not_found
  own_row candidate_id (some row) =
      if row.candidate_id == candidate_id then rehydrate row else throw session_not_found

  abbrev pub own_state : ℕ → Option (SessionState R) → Option SessionRow → M R (SessionState R)
  own_state candidate_id (some state) row =
      if state.candidate_id == candidate_id then pure state else throw session_not_found
  own_state candidate_id none row = own_row candidate_id row

  unfoldable pub load : ℕ → M R (SessionState R)
  load candidate_id w = own_state candidate_id w.store w.session_row w

  unfoldable pub current_step : ℕ → M R (SessionStep × SessionState R)
  unfolding load advance
  current_step candidate_id = do state ← load candidate_id; advance remaining clock select state

  unfoldable pub start_current_module : ℕ → ℕ → M R (SessionStep × SessionState R)
  unfolding load begin_current_module advance
  start_current_module candidate_id now = do
    state ← load candidate_id
    λ w.
        let (state', w') = begin_current_module state now w in
        advance remaining clock select state' w'

  -- `submitAnswer` once the question on screen is known to be the one that is answered.
  abbrev pub answer_module :
      SessionState R
      → ServedQuestion
      → SubmittedAnswer
      → ℕ
      → Option (ModuleRunState R)
      → M R (SessionStep × SessionState R)
  answer_module state served answer now none = throw module_closed
  answer_module state served answer now (some m) =
      if not (m.module_id == served.module_id)
      then throw module_closed
      else if too_late m.deadline_at now
      then advance remaining clock select state
      else (do
        q ← load_served_question served.question_id
        state' ← apply_answer state m q answer served now
        modify (save state')
        advance remaining clock select state')

  abbrev pub answer_served :
      SessionState R
      → ℕ
      → SubmittedAnswer
      → ℕ
      → Option ServedQuestion
      → M R (SessionStep × SessionState R)
  answer_served state question_id answer now none = throw no_question_on_screen
  answer_served state question_id answer now (some served) =
      if not (served.question_id == question_id)
      then throw wrong_question
      else answer_module state served answer now (current_module state)

  -- `submitAnswer` once the session is loaded.
  unfoldable pub submit_loaded :
      SessionState R → ℕ → SubmittedAnswer → ℕ → M R (SessionStep × SessionState R)
  unfolding advance finalize apply_answer load_served_question
  submit_loaded state question_id answer now =
      if is_finished state.status
      then advance remaining clock select state
      else if leb state.expires_at now
      then (λ w.
          let (state', w') = finalize state SessionStatus.auto_submitted clock.closing w in
          advance remaining clock select state' w')
      else answer_served state question_id answer now state.served

  unfoldable pub submit_answer : ℕ → SubmitAnswerDto → ℕ → M R (SessionStep × SessionState R)
  unfolding to_submitted_answer load submit_loaded
  submit_answer candidate_id dto now = do
    answer ← lift (to_submitted_answer dto)
    state ← load candidate_id
    submit_loaded state dto.question_id answer now

  abbrev pub stored_or_rebuilt : Option (SessionState R) → SessionRow → M R (SessionState R)
  stored_or_rebuilt (some state) row = pure state
  stored_or_rebuilt none row = rehydrate row

  abbrev pub submit_overdue : Option SessionRow → M R Bool
  submit_overdue none = pure false
  submit_overdue (some row) = if not (is_in_progress row.status) then pure false else (λ w.
      (stored_or_rebuilt w.store row >>= λ state v.
      done true (finalize state SessionStatus.auto_submitted clock.closing v).1)
        w)

  -- The auto-submit worker's entry point.
  unfoldable pub auto_submit_session : M R Bool
  unfolding finalize
  auto_submit_session w = submit_overdue w.session_row w
