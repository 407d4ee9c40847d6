-- ===== src/Engine/Questions.antt =====
-- The stored questions, as far as the engine and the session read them:
-- backend/src/question-bank/entities/{question,mcq-question-details,personality-question-details}.entity.ts
use adaptive_hire_exam_platf.Common.{ℕ, String, Option, List, map}
use adaptive_hire_exam_platf.Engine.Dict.{Dict}
use adaptive_hire_exam_platf.Engine.Types.{BehavioralPattern}

pub record McqOption : Type 0 where
  pub key : String
  pub text : String

pub record McqQuestionDetails (R : Type 0) : Type 0 where
  pub options : List McqOption
  pub correct_option : String
  pub difficulty_score : R
  pub times_used : ℕ
  pub times_correct : ℕ

pub record PersonalityOption (R : Type 0) : Type 0 where
  pub key : String
  pub text : String
  pub trait_weights : Dict R

pub record PersonalityQuestionDetails (R : Type 0) : Type 0 where
  pub options : List (PersonalityOption R)
  -- Null for a legacy agree/disagree question.
  pub pattern : Option BehavioralPattern
  pub times_used : ℕ

pub record Question (R : Type 0) : Type 0 where
  pub id : ℕ
  pub module_id : ℕ
  pub question_text : String
  pub probe_group : Option String
  pub mcq_details : Option (McqQuestionDetails R)
  pub personality_details : Option (PersonalityQuestionDetails R)

module _ {R : Type 0} where
  abbrev pub mcq_keys : McqQuestionDetails R → List String
  mcq_keys details = map (λ option. option.key) details.options

  abbrev pub personality_keys : PersonalityQuestionDetails R → List String
  personality_keys details = map (λ option. option.key) details.options
