-- ===== src/Tests/Replaying.antt =====
-- A replayed answer, in thousandths, so that an estimate has more decimals than its column.
use adaptive_hire_exam_platf.Common.{String, ◌≢◌, ◌≡◌, refl, ℕ, []}
use adaptive_hire_exam_platf.Failures.{ok}
use adaptive_hire_exam_platf.Engine.Numbers.{round2}
use adaptive_hire_exam_platf.Engine.Types.{ModuleRunState, objective}
use adaptive_hire_exam_platf.Engine.Run.{
  SubmittedAnswer, Recorded, record_answer, mark_probe_served,
}
use adaptive_hire_exam_platf.Engine.Selector.Serving.{shown_question}
use adaptive_hire_exam_platf.Session.Finish.{response_row}
use adaptive_hire_exam_platf.Session.Rebuild.{replay_answer}
use adaptive_hire_exam_platf.Session.Rebuild.Replaying.Answers.{reread, replay_answer-record_answer}
use adaptive_hire_exam_platf.Tests.Engine.{recorded_of}
use adaptive_hire_exam_platf.Tests.Reports.{thousandths}
use adaptive_hire_exam_platf.Tests.Session.{on_display}
use adaptive_hire_exam_platf.Tests.Fixtures.{logic_module, logic_question, running_session}

abbrev finely_rated : ModuleRunState ℕ
finely_rated = record logic_module { ability = 1003006; recent_abilities = [] }

abbrev read : Recorded ℕ
read = recorded_of (
    record_answer (shown_question finely_rated logic_question) logic_question
      (SubmittedAnswer.option "b") 10)

read-ok :
    record_answer
      (shown_question finely_rated logic_question)
      logic_question
      (SubmittedAnswer.option "b")
      10
    ≡ ok read
unfolding record_answer mark_probe_served
read-ok = refl

-- The estimate 1003.006 is stored as 1003.01.
rounded : (read.state.ability ≡ 1003006) × (round2 read.state.ability ≡ 1003010)
unfolding round2 record_answer mark_probe_served
rounded = (refl, refl)

filled : ◌≢◌ {A = String} "b" ""
filled h = cc

replay_answer-record_answer_example :
    replay_answer logic_question
      (response_row running_session finely_rated logic_question
        (SubmittedAnswer.option "b")
        on_display
        6000
        read)
      finely_rated
    ≡ reread objective finely_rated read.state
replay_answer-record_answer_example =
    replay_answer-record_answer running_session finely_rated logic_question
      (SubmittedAnswer.option "b") on_display 6000 read refl filled read-ok
