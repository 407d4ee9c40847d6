-- ===== src/Session/Rebuild/Replaying/Answers.antt =====
-- Replaying a stored answer, against recording it, in any module.
use adaptive_hire_exam_platf.Common.{ℕ, suc, ◌≡◌, refl, sym, ap, ◌∙◌, subst}
use adaptive_hire_exam_platf.Common.Equality.{string_eq}
use adaptive_hire_exam_platf.Failures.{ok}
use adaptive_hire_exam_platf.Engine.Numbers.{Num}
use adaptive_hire_exam_platf.Engine.Types.{
  ModuleRunConfig, ModuleRunState, ModuleRunStatus, ScoringType, objective, trait,
}
use adaptive_hire_exam_platf.Engine.Questions.{Question}
use adaptive_hire_exam_platf.Engine.Run.{record_answer, SubmittedAnswer, Recorded}
use adaptive_hire_exam_platf.Engine.Selector.Serving.{shown_question}
use adaptive_hire_exam_platf.Session.State.{SessionState, ServedQuestion}
use adaptive_hire_exam_platf.Session.Finish.{response_row}
use adaptive_hire_exam_platf.Session.Rebuild.{seen, replay_by, replay_answer}
use adaptive_hire_exam_platf.Session.Rebuild.Replaying.{IsFilled, as_stored, shown_question-config}
use adaptive_hire_exam_platf.Session.Rebuild.Replaying.Objective.{replay_objective-with_mcq}
use adaptive_hire_exam_platf.Session.Rebuild.Replaying.Traits.{replay_trait-with_personality}

module _ {R : Type 0} ⦃num : Num R⦄ where
  -- What a rebuilt module has of the module that was lost.
  abbrev pub reread : ScoringType → ModuleRunState R → ModuleRunState R → ModuleRunState R
  reread objective before after = as_stored before.recent_abilities after
  reread trait before after = after

  -- Rebuilding a lost session reads back from a response's row what recording the answer did. Take a
  -- running module before a question was shown, and let the engine accept an answer to it, none or
  -- one that is not empty. Replaying the row stored for the answer on the module before brings a
  -- trait module to exactly the state that the answer left, and an objective module to that state
  -- but for its newest estimate, which is the one left rounded to the two decimals of the column, at
  -- the end of the window too: the counts, the information, the tallies, the patterns, the seen
  -- questions and the repeat probes are the same.
  pub replay_answer-record_answer :
      (state : SessionState R) (before : ModuleRunState R) (q : Question R)
      (answer : SubmittedAnswer) (served : ServedQuestion) (now : ℕ) (r : Recorded R)
      → before.status ≡ ModuleRunStatus.in_progress
      → IsFilled answer
      → record_answer (shown_question before q) q answer (suc state.answered_total) ≡ ok r
      → replay_answer q (response_row state before q answer served now r) before
        ≡ reread before.scoring_type before r.state
  unfolding record_answer replay_answer
  replay_answer-record_answer state before q answer served now r running filled h =
      by_kind before.scoring_type refl
    where
      shown_kind :
          (kind : ScoringType)
          → before.scoring_type ≡ kind
          → (shown_question before q).scoring_type ≡ kind
      shown_kind kind e =
          ap (λ (k : ModuleRunConfig). k.scoring_type) (shown_question-config before q) ∙ e

      again : ScoringType → Type 0
      again kind =
          let row = response_row state before q answer served now r in
          replay_by kind q row (seen row before) ≡ reread kind before r.state

      by_kind : (kind : ScoringType) → before.scoring_type ≡ kind → again before.scoring_type
      by_kind objective e =
          let ran = rw (shown_kind objective e) at h in
          subst again (sym e) (
            replay_objective-with_mcq state before q q.mcq_details answer served now r running e
              filled ran)
      by_kind trait e =
          let ran = rw (shown_kind trait e) at h in
          subst again (sym e) (
            replay_trait-with_personality state before q q.personality_details answer served now r
              running e refl filled ran)
