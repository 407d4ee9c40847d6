-- ===== src/Session/State.antt =====
-- backend/src/sessions/session-state.ts and the rows that the session writes:
-- backend/src/sessions/entities/{assessment-session,response,session-module-result}.entity.ts.
-- Dates are epoch milliseconds.
use adaptive_hire_exam_platf.Common.{ℕ, String, Option, List, Bool, true, false, set, get_elem?}
use adaptive_hire_exam_platf.Engine.Dict.{Dict}
use adaptive_hire_exam_platf.Engine.Types.{ModuleRunState, ModuleStopReason, ProbeResults}
use adaptive_hire_exam_platf.Engine.Estimator.Traits.{TraitScore}

pub data RunStatus : Type 0 where
  in_progress finished : RunStatus

pub data SessionStatus : Type 0 where
  in_progress completed auto_submitted abandoned : SessionStatus

pub data InvitationStatus : Type 0 where
  pending in_progress completed expired revoked : InvitationStatus

pub record ServedQuestion : Type 0 where
  pub question_id : ℕ
  pub module_id : ℕ
  pub served_at : ℕ

pub record SessionState (R : Type 0) : Type 0 where
  pub session_id : ℕ
  pub candidate_id : ℕ
  pub invitation_id : ℕ
  pub assessment_id : ℕ
  pub assessment_title : String
  pub started_at : ℕ
  pub expires_at : ℕ
  pub status : RunStatus
  pub modules : List (ModuleRunState R)
  pub current_module_index : ℕ
  pub served : Option ServedQuestion
  pub answered_total : ℕ

pub record SessionRow : Type 0 where
  pub id : ℕ
  pub invitation_id : ℕ
  pub assessment_id : ℕ
  pub candidate_id : ℕ
  pub status : SessionStatus
  pub started_at : ℕ
  pub expires_at : ℕ
  pub submitted_at : Option ℕ

pub record ResponseRow (R : Type 0) : Type 0 where
  pub module_id : ℕ
  pub question_id : ℕ
  pub selected_option : Option String
  pub selected_options : Option (List String)
  pub is_correct : Option Bool
  pub ability_estimate_after : Option R
  pub question_difficulty_at_serve : Option R
  pub sequence_number : ℕ
  pub time_taken_ms : ℕ

pub record ModuleResultRow (R : Type 0) : Type 0 where
  pub module_id : ℕ
  pub ability_score : Option R
  pub trait_scores : Option (Dict (TraitScore R))
  pub probe_results : Option (ProbeResults R)
  pub questions_answered : ℕ
  pub questions_correct : ℕ
  pub stop_reason : Option ModuleStopReason
  pub started_at : Option ℕ
  pub completed_at : Option ℕ

module _ {R : Type 0} where
  -- `state.modules[state.currentModuleIndex]`
  abbrev pub current_module : SessionState R → Option (ModuleRunState R)
  current_module state = get_elem? state.modules state.current_module_index

  -- The current module is mutated through its reference: the state holds its new value.
  abbrev pub put_module : SessionState R → ModuleRunState R → SessionState R
  put_module state m = record state { modules = set state.modules state.current_module_index m }

-- `state.status === 'finished'`
abbrev pub is_finished : RunStatus → Bool
is_finished RunStatus.in_progress = false
is_finished finished = true
