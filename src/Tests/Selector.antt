-- ===== src/Tests/Selector.antt =====
-- Runs of the question selector.
use adaptive_hire_exam_platf.Common.{◌≡◌, refl, ℕ, Bool, some, none, [], ◌∷◌, List, true, false}
use adaptive_hire_exam_platf.Common.Equality.{includes, delete, distinct}
use adaptive_hire_exam_platf.Failures.{ok}
use adaptive_hire_exam_platf.Engine.Probe.{due_twin, due_in, blocked_groups, touched_groups}
use adaptive_hire_exam_platf.Engine.Stopping.{should_stop}
use adaptive_hire_exam_platf.Engine.Run.{
  question, next_step, SubmittedAnswer, Recorded, record_answer, mark_probe_served,
}
use adaptive_hire_exam_platf.Engine.Run.Answers.{Counted}
use adaptive_hire_exam_platf.Engine.Bank.{StoredQuestion, QuestionStatus, visible_to_org}
use adaptive_hire_exam_platf.Engine.Selector.{
  Site, select_next, select_row, select_due_twin, base_query, passes,
}
use adaptive_hire_exam_platf.Engine.Selector.Fitness.{DistinctIds, IsFit, select_next-IsFit}
use adaptive_hire_exam_platf.Engine.Selector.Serving.{shown_question, next_step-record_answer}
use adaptive_hire_exam_platf.Tests.Fixtures.{whole, logic_module, logic_question}
use adaptive_hire_exam_platf.Tests.Engine.{logic-ModuleInv, recorded_of}

abbrev stored : StoredQuestion ℕ
stored = record {
  question = logic_question;
  status = QuestionStatus.active;
  is_sample = false;
  organisation_id = none;
  forked_from_id = none;
}

abbrev small_bank : List (StoredQuestion ℕ)
small_bank = stored ∷ []

abbrev everything : ℕ → ℕ → Bool
everything assessment_id id = true

abbrev first_row : Site → ℕ → ℕ
first_row site count = 0

small_bank-DistinctIds : DistinctIds small_bank
small_bank-DistinctIds = (tt, tt)

-- The twin that is due.
selected : select_next small_bank everything first_row false logic_module ≡ some logic_question
unfolding select_next select_row select_due_twin due_twin due_in base_query passes includes
    blocked_groups touched_groups delete distinct visible_to_org
selected = refl

select_next-IsFit_example :
    IsFit small_bank everything first_row false small_bank-DistinctIds logic_module logic_question
select_next-IsFit_example =
    select_next-IsFit small_bank everything first_row false small_bank-DistinctIds logic_module
      logic_question selected

served :
    next_step (select_next small_bank everything first_row false) logic_module 5000
    ≡ question logic_question
unfolding next_step should_stop select_next select_row select_due_twin due_twin due_in base_query
    passes includes blocked_groups touched_groups delete distinct visible_to_org
served = refl

abbrev pub answered : Recorded ℕ
answered = recorded_of (
    record_answer (shown_question logic_module logic_question) logic_question
      (SubmittedAnswer.option "b") 10)

pub answered-ok :
    record_answer
      (shown_question logic_module logic_question)
      logic_question
      (SubmittedAnswer.option "b")
      10
    ≡ ok answered
unfolding record_answer mark_probe_served
answered-ok = refl

next_step-record_answer_example :
    Counted 0 (shown_question logic_module logic_question) answered.state
next_step-record_answer_example =
    next_step-record_answer small_bank everything first_row false small_bank-DistinctIds 0 5000
      logic_module logic_question (SubmittedAnswer.option "b") answered logic-ModuleInv served
      answered-ok
