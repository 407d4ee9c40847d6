-- ===== src/Session/Views.antt =====
-- backend/src/sessions/session-views.ts and the view functions of
-- backend/src/sessions/sessions.service.ts: what leaves the API.
use adaptive_hire_exam_platf.Common.{ℕ, suc, ◌-◌, String, Option, none, some, List, [], map}
use adaptive_hire_exam_platf.Engine.Types.{
  ModuleRunState, ModuleRunStatus, BehavioralPattern, ScoringType, objective, trait,
}
use adaptive_hire_exam_platf.Engine.Questions.{
  Question, McqQuestionDetails, PersonalityQuestionDetails,
}
use adaptive_hire_exam_platf.Session.State.{SessionState, SessionStatus, RunStatus, finished}

pub record QuestionOptionView : Type 0 where
  pub key : String
  pub text : String

pub record QuestionView : Type 0 where
  pub id : ℕ
  pub text : String
  pub options : List QuestionOptionView
  pub pattern : Option BehavioralPattern

pub record ModuleView : Type 0 where
  pub module_id : ℕ
  pub name : String
  pub slug : String
  pub description : Option String
  pub scoring_type : ScoringType
  pub status : ModuleRunStatus
  pub question_count : ℕ
  pub time_limit_seconds : ℕ
  pub answered : ℕ

pub record SessionView : Type 0 where
  pub session_id : ℕ
  pub assessment_id : ℕ
  pub assessment_title : String
  pub status : SessionStatus
  pub started_at : ℕ
  pub expires_at : ℕ
  pub session_remaining_ms : ℕ
  pub modules : List ModuleView
  pub current_module_index : ℕ

pub data SessionStep : Type 0 where
  module_intro : SessionView → ModuleView → SessionStep
  question :
      SessionView
      → ModuleView
      → QuestionView
      → (sequence_number module_answered module_question_count module_remaining_ms : ℕ)
      → SessionStep
  completed : SessionView → SessionStep

abbrev pub view_status : RunStatus → SessionStatus
view_status RunStatus.in_progress = SessionStatus.in_progress
view_status finished = SessionStatus.completed

-- `given ?? fallback`
abbrev pub or_given {ℓ} : {A : Type ℓ} → Option A → A → A
or_given none fallback = fallback
or_given (some given) fallback = given

-- `Math.max(0, (module.deadlineAt ?? Date.now()) - Date.now())`, where Redis has lost the clock.
abbrev pub remaining_by_deadline : Option ℕ → ℕ → ℕ
remaining_by_deadline none now = 0
remaining_by_deadline (some deadline) now = deadline - now

module _ {R : Type 0} where
  unfoldable pub to_module_view : ModuleRunState R → ModuleView
  to_module_view m = record {
    module_id = m.module_id;
    name = m.name;
    slug = m.slug;
    description = m.description;
    scoring_type = m.scoring_type;
    status = m.status;
    question_count = m.question_count;
    time_limit_seconds = m.time_limit_seconds;
    answered = m.answered;
  }

  abbrev mcq_options : Option (McqQuestionDetails R) → List QuestionOptionView
  mcq_options none = []
  mcq_options (some details) =
      map (λ option. record { key = option.key; text = option.text }) details.options

  abbrev personality_options : Option (PersonalityQuestionDetails R) → List QuestionOptionView
  personality_options none = []
  personality_options (some details) =
      map (λ option. record { key = option.key; text = option.text }) details.options

  abbrev options_view : ScoringType → Question R → List QuestionOptionView
  options_view objective q = mcq_options q.mcq_details
  options_view trait q = personality_options q.personality_details

  abbrev pattern_view : Option (PersonalityQuestionDetails R) → Option BehavioralPattern
  pattern_view none = none
  pattern_view (some details) = details.pattern

  -- Without the correct answer and the trait weights.
  unfoldable pub to_question_view : Question R → ModuleRunState R → QuestionView
  to_question_view q m = record {
    id = q.id;
    text = q.question_text;
    options = options_view m.scoring_type q;
    pattern = pattern_view q.personality_details;
  }

  -- `now` is the reading of the clock that the remaining time is counted from.
  unfoldable pub to_session_view : SessionState R → Option SessionStatus → ℕ → SessionView
  unfolding to_module_view
  to_session_view state given now = record {
    session_id = state.session_id;
    assessment_id = state.assessment_id;
    assessment_title = state.assessment_title;
    status = or_given given (view_status state.status);
    started_at = state.started_at;
    expires_at = state.expires_at;
    session_remaining_ms = state.expires_at - now;
    modules = map to_module_view state.modules;
    current_module_index = state.current_module_index;
  }

  unfoldable pub to_question_step :
      SessionState R → ModuleRunState R → Question R → (remaining : Option ℕ) → ℕ → SessionStep
  unfolding to_session_view to_question_view to_module_view
  to_question_step state m q remaining now =
      question (to_session_view state none now) (to_module_view m) (to_question_view q m)
        (suc state.answered_total) m.answered m.question_count
        (or_given remaining (remaining_by_deadline m.deadline_at now))
