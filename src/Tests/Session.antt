-- ===== src/Tests/Session.antt =====
-- Runs of the session.
use adaptive_hire_exam_platf.Common.{[], ◌∷◌, ℕ, ◌+◌, none, ◌≡◌, ◌≢◌, refl}
use adaptive_hire_exam_platf.Failures.{not_advanced}
use adaptive_hire_exam_platf.Session.State.{ServedQuestion, SessionState, SessionStatus}
use adaptive_hire_exam_platf.Session.World.{World, Outcome, done, fail, load_served_question}
use adaptive_hire_exam_platf.Session.Finish.{finalize, apply_answer}
use adaptive_hire_exam_platf.Session.Finish.Recording.{
  IsRecorded, Unwritten, apply_answer-IsRecorded,
}
use adaptive_hire_exam_platf.Engine.Types.{ModuleRunState, ModuleRunStatus}
use adaptive_hire_exam_platf.Session.Runtime.{begin_current_module}
use adaptive_hire_exam_platf.Session.Runtime.Beginning.{begin_twice}
use adaptive_hire_exam_platf.Session.Runtime.Expiry.{begin_expiry, Begins}
use adaptive_hire_exam_platf.Session.World.Runs.{Run}
use adaptive_hire_exam_platf.Engine.Run.{SubmittedAnswer}
use adaptive_hire_exam_platf.Session.Finish.Closing.{ClosedBy, finalize-ClosedBy, finalize_twice}
use adaptive_hire_exam_platf.Session.Advance.{Clock, advance, advance_from, turn}
use adaptive_hire_exam_platf.Session.Advance.Shown.{IsShown, advance-IsShown}
use adaptive_hire_exam_platf.Session.Views.{SessionStep, completed, to_session_view}
use adaptive_hire_exam_platf.Session.Advance.Progress.{advance_ends}
use adaptive_hire_exam_platf.Tests.Fixtures.{
  logic_module, logic_question, whole, running_session, small_world, late_clock, no_remaining,
  first_logic,
}

-- The module's clock has run out: it is closed and the session after it.
advance_ends_example :
    advance no_remaining late_clock first_logic running_session small_world
    ≢ fail not_advanced small_world
advance_ends_example =
    advance_ends no_remaining late_clock first_logic running_session small_world small_world

finalize-ClosedBy_example :
    let (state', w') = finalize running_session SessionStatus.auto_submitted 721000 small_world in
    ClosedBy running_session SessionStatus.auto_submitted 721000 small_world state' w'
finalize-ClosedBy_example =
    finalize-ClosedBy running_session SessionStatus.auto_submitted 721000 small_world refl (tt, tt)

finalize_twice_example :
    let (state', w') = finalize running_session SessionStatus.completed 721000 small_world in
    finalize state' SessionStatus.auto_submitted 722000 w' ≡ (state', w')
finalize_twice_example =
    finalize_twice running_session SessionStatus.completed SessionStatus.auto_submitted 721000
      722000 small_world

-- What a run returned; the other case does not arise.
abbrev shown_of :
    Outcome ℕ (SessionStep × SessionState ℕ) → (SessionStep × SessionState ℕ) × World ℕ
shown_of (done shown w) = (shown, w)
shown_of (fail e w) = ((completed (to_session_view running_session none 0), running_session), w)

-- The question on screen, a second after it was served.
abbrev early_clock : Clock
early_clock = record { pass = λ i. 6000 + i; closing = 6100; showing = 6200 }

abbrev reserved : (SessionStep × SessionState ℕ) × World ℕ
reserved = shown_of (advance no_remaining early_clock first_logic running_session small_world)

reserved-done :
    advance no_remaining early_clock first_logic running_session small_world
    ≡ done (reserved.0.0, reserved.0.1) reserved.1
unfolding advance advance_from turn load_served_question
reserved-done = refl

advance-IsShown_example : IsShown reserved.0.0 reserved.0.1
advance-IsShown_example =
    advance-IsShown no_remaining early_clock first_logic running_session reserved.0.1 reserved.0.0
      small_world reserved.1 reserved-done

abbrev pub on_display : ServedQuestion
on_display = record { question_id = 41; module_id = 7; served_at = 5000 }

apply_answer-IsRecorded_example :
    Run
      (IsRecorded running_session logic_module logic_question
        (SubmittedAnswer.option "b")
        small_world)
      (Unwritten logic_question small_world)
      (apply_answer running_session logic_module logic_question
        (SubmittedAnswer.option "b")
        on_display
        6000
        small_world)
apply_answer-IsRecorded_example =
    apply_answer-IsRecorded running_session logic_module logic_question (SubmittedAnswer.option "b")
      on_display 6000 small_world

-- The same session before its module has begun.
abbrev waiting_module : ModuleRunState ℕ
waiting_module = record logic_module {
  status = ModuleRunStatus.pending;
  started_at = none;
  deadline_at = none;
}

abbrev waiting_session : SessionState ℕ
waiting_session = record running_session { modules = waiting_module ∷ []; served = none }

begin_twice_example :
    let (state', w') = begin_current_module waiting_session 3000 small_world in
    begin_current_module state' 9000 w' ≡ (state', w')
begin_twice_example = begin_twice waiting_session 3000 9000 small_world

begin_expiry_example :
    let (after, v) = begin_current_module waiting_session 3000 small_world in
    Begins waiting_session 3000 waiting_module small_world after v
begin_expiry_example = begin_expiry waiting_session 3000 waiting_module small_world refl refl
