-- ===== src/Engine/Types.antt =====
-- backend/src/adaptive-engine/engine.types.ts and the enumerations of
-- backend/src/common/enums/index.ts that the engine reads.
-- Identifiers (uuids) are numbers, compared for equality only; keys and groups are texts;
-- `Record<string, T>` is an association list in insertion order; `R` is the type of numbers.
use adaptive_hire_exam_platf.Common.{ℕ, Bool, Option, List, String}
use adaptive_hire_exam_platf.Engine.Dict.{Dict}

pub data ScoringType : Type 0 where
  objective trait : ScoringType

pub data ModuleStopReason : Type 0 where
  confidence_reached max_questions time_expired pool_exhausted : ModuleStopReason

pub data BehavioralPattern : Type 0 where
  situational forced_choice trade_off ranking : BehavioralPattern

pub data ModuleRunStatus : Type 0 where
  pending in_progress completed : ModuleRunStatus

pub record TraitTally (R : Type 0) : Type 0 where
  pub sum : R
  pub count : ℕ
  pub sum_squares : R
  pub chance_sum : Option R
  pub best_sum : Option R
  pub worst_sum : Option R

pub record TraitRange (R : Type 0) : Type 0 where
  pub chance : R
  pub best : R
  pub worst : R

pub data ProbeSignature (R : Type 0) : Type 0 where
  outcome : (is_correct : Bool) → ProbeSignature R
  weights : Dict R → ProbeSignature R
  unanswered : ProbeSignature R

pub record ProbeDivergence (R : Type 0) : Type 0 where
  pub key : String
  pub first : R
  pub second : R

pub record ProbePair (R : Type 0) : Type 0 where
  pub group : String
  pub first_question_id : ℕ
  pub first_sequence : ℕ
  pub first : ProbeSignature R
  pub asked_at_answered : ℕ
  pub second_question_id : Option ℕ
  pub second_sequence : Option ℕ
  pub second : Option (ProbeSignature R)
  pub agreement : Option R
  pub flipped : Option Bool
  pub divergent_traits : List (ProbeDivergence R)

pub record ProbeResults (R : Type 0) : Type 0 where
  pub pairs : List (ProbePair R)
  pub agreement : Option R
  pub resolved : ℕ
  pub unresolved : ℕ

pub record EvaluationResult (R : Type 0) : Type 0 where
  pub is_correct : Option Bool
  pub trait_weights : Dict R

-- The part of the state that `assessment_modules` fixes when a session starts.
pub record ModuleRunConfig : Type 0 where
  pub module_id : ℕ
  pub organisation_id : ℕ
  pub assessment_id : ℕ
  pub pool_restricted : Bool
  pub slug : String
  pub name : String
  pub description : Option String
  pub scoring_type : ScoringType
  -- The keys of the trait definitions, in catalogue order.
  pub traits : List String
  pub question_count : ℕ
  pub time_limit_seconds : ℕ

pub record ModuleRunState (R : Type 0) : Type 0 where
  pub config : ModuleRunConfig
  pub open config use *
  pub status : ModuleRunStatus
  pub started_at : Option ℕ
  pub deadline_at : Option ℕ
  pub completed_at : Option ℕ
  pub stop_reason : Option ModuleStopReason
  pub answered : ℕ
  pub correct : ℕ
  pub seen_question_ids : List ℕ
  pub ability : R
  pub information : R
  pub recent_abilities : List R
  pub trait_tallies : Dict (TraitTally R)
  pub pattern_counts : List (BehavioralPattern × ℕ)
  pub probes : List (ProbePair R)
  pub served_probe_groups : List String
