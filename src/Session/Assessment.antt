-- ===== src/Session/Assessment.antt =====
-- The assessment and the invitation, as far as a session reads them:
-- backend/src/assessments/entities/{assessment,assessment-module}.entity.ts,
-- backend/src/modules-catalog/entities/module-catalog-entry.entity.ts and
-- backend/src/invitations/entities/invitation.entity.ts. They are rows of the database, and
-- arguments of the session's operations; a session has one invitation.
use adaptive_hire_exam_platf.Common.{ℕ, String, Option, none, some, List, [], map, Bool}
use adaptive_hire_exam_platf.Engine.Numbers.{Num}
use adaptive_hire_exam_platf.Engine.Types.{ScoringType, ModuleRunConfig, ModuleRunState}
use adaptive_hire_exam_platf.Engine.Run.{create_module_state}
use adaptive_hire_exam_platf.Assessments.Window.{Window}

pub record ModuleCatalogEntry : Type 0 where
  pub slug : String
  pub name : String
  pub description : Option String
  pub scoring_type : ScoringType
  -- The keys of the traits.
  pub traits : Option (List String)

pub record AssessmentModule : Type 0 where
  pub module_id : ℕ
  pub entry : ModuleCatalogEntry
  pub question_count : ℕ
  pub time_limit_seconds : ℕ

pub record Assessment : Type 0 where
  pub id : ℕ
  pub organisation_id : ℕ
  pub title : String
  pub window : Window
  -- In display order.
  pub modules : List AssessmentModule
  -- Whether `questionPool` has a question.
  pub pool_restricted : Bool

pub record Invitation : Type 0 where
  pub id : ℕ
  pub candidate_id : Option ℕ
  pub window : Window
  pub assessment : Assessment

-- `traits ?? []`
abbrev traits_or_none : Option (List String) → List String
traits_or_none none = []
traits_or_none (some traits) = traits

unfoldable pub run_config : Assessment → AssessmentModule → ModuleRunConfig
run_config assessment config = record {
  module_id = config.module_id;
  organisation_id = assessment.organisation_id;
  assessment_id = assessment.id;
  pool_restricted = assessment.pool_restricted;
  slug = config.entry.slug;
  name = config.entry.name;
  description = config.entry.description;
  scoring_type = config.entry.scoring_type;
  traits = traits_or_none config.entry.traits;
  question_count = config.question_count;
  time_limit_seconds = config.time_limit_seconds;
}

module _ {R : Type 0} ⦃num : Num R⦄ where
  unfoldable pub fresh_modules : Assessment → List (ModuleRunState R)
  unfolding run_config create_module_state
  fresh_modules assessment =
      map (λ config. create_module_state (run_config assessment config)) assessment.modules
