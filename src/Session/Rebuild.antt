-- ===== src/Session/Rebuild.antt =====
-- `rehydrate` and `replayTraitAnswer` of backend/src/sessions/sessions.service.ts: the live state of a
-- session rebuilt from its rows, after Redis has lost it.
pub mod Progress
pub mod Replayed
pub mod Replaying
use adaptive_hire_exam_platf.Common.{
  ℕ, suc, ◌+◌, ◌*◌, ◌++◌, Option, none, some, List, [], ◌∷◌, map, find, Bool, true, false, ◌||◌,
  String, leb, length, if◌then◌else◌,
}
use adaptive_hire_exam_platf.Common.Equality.{◌==◌, nat_eq, string_eq}
use adaptive_hire_exam_platf.Failures.{Result, ok, failed, ◌>>=◌, dangling_response}
use adaptive_hire_exam_platf.Engine.Numbers.{Num}
use adaptive_hire_exam_platf.Engine.Dict.{Dict}
use adaptive_hire_exam_platf.Engine.Types.{
  ModuleRunState, ModuleRunStatus, ScoringType, objective, trait, TraitRange, ProbeSignature,
  outcome, weights, unanswered, EvaluationResult,
}
use adaptive_hire_exam_platf.Engine.Questions.{Question, PersonalityQuestionDetails}
use adaptive_hire_exam_platf.Engine.Probe.{update_first, is_true}
use adaptive_hire_exam_platf.Engine.Estimator.{information, track_ability}
use adaptive_hire_exam_platf.Engine.Estimator.Traits.{apply_trait_weights}
use adaptive_hire_exam_platf.Engine.Evaluation.{
  evaluate_ranking, evaluate_personality, achievable_trait_range,
}
use adaptive_hire_exam_platf.Engine.Run.{replay_probe, count_if_patterned}
use adaptive_hire_exam_platf.Session.State.{
  SessionState, SessionRow, SessionStatus, RunStatus, finished, ResponseRow, ModuleResultRow,
}
use adaptive_hire_exam_platf.Session.Views.{or_given}
use adaptive_hire_exam_platf.Session.World.{World, M, done, fail, save, start_module_clock}
use adaptive_hire_exam_platf.Session.Assessment.{Assessment, fresh_modules}

-- `Boolean(answer.selectedOptions?.length)`
abbrev pub has_ranking : Option (List String) → Bool
has_ranking none = false
has_ranking (some []) = false
has_ranking (some (key ∷ keys)) = true

abbrev pub is_some {ℓ} : {A : Type ℓ} → Option A → Bool
is_some none = false
is_some (some a) = true

abbrev pub is_completed : ModuleRunStatus → Bool
is_completed ModuleRunStatus.completed = true
is_completed _ = false

abbrev pub run_status : SessionStatus → RunStatus
run_status SessionStatus.in_progress = RunStatus.in_progress
run_status _ = finished

-- The `catch` drops the error.
abbrev kept : {A : Type 0} → Result A → Option A
kept (ok a) = some a
kept (failed e) = none

abbrev ranking_or_nothing : Option (List String) → List String
ranking_or_nothing none = []
ranking_or_nothing (some keys) = keys

module _ {R : Type 0} where
  abbrev pub had_answer : ResponseRow R → Bool
  had_answer answer = is_some answer.selected_option || has_ranking answer.selected_options

  -- `order: { sequenceNumber: 'ASC' }`
  unfoldable pub insert_by_sequence : ResponseRow R → List (ResponseRow R) → List (ResponseRow R)
  insert_by_sequence row [] = row ∷ []
  insert_by_sequence row (r ∷ rows) =
      if leb row.sequence_number r.sequence_number
      then row ∷ r ∷ rows
      else r ∷ insert_by_sequence row rows

  unfoldable pub by_sequence : List (ResponseRow R) → List (ResponseRow R)
  unfolding insert_by_sequence
  by_sequence [] = []
  by_sequence (row ∷ rows) = insert_by_sequence row (by_sequence rows)

  -- `modules.find((m) => m.moduleId === id)`, to be mutated.
  abbrev pub for_module :
      ℕ → (ModuleRunState R → ModuleRunState R) → List (ModuleRunState R) → List (ModuleRunState R)
  for_module module_id = update_first (λ (m : ModuleRunState R). m.module_id == module_id)

  abbrev completed_by : ModuleResultRow R → Option ℕ → ModuleRunState R → ModuleRunState R
  completed_by result none m = m
  completed_by result (some at) m = record m {
    status = ModuleRunStatus.completed;
    stop_reason = result.stop_reason;
    completed_at = some at;
  }

  -- The loop over `session_module_results`.
  unfoldable pub complete_finished :
      List (ModuleResultRow R) → List (ModuleRunState R) → List (ModuleRunState R)
  unfolding update_first
  complete_finished [] modules = modules
  complete_finished (result ∷ results) modules =
      complete_finished results
        (for_module result.module_id (completed_by result result.completed_at) modules)

  abbrev restarted : ℕ → ModuleRunStatus → ModuleRunState R → ModuleRunState R
  restarted now ModuleRunStatus.in_progress m = record m {
    started_at = some now;
    deadline_at = some (now + m.time_limit_seconds * 1000);
  }
  restarted now _ m = m

  abbrev pub with_clock : ModuleRunStatus → ModuleRunState R → World R → World R
  with_clock ModuleRunStatus.in_progress m w = start_module_clock m.module_id m.time_limit_seconds w
  with_clock _ m w = w

  unfoldable pub start_clocks : List (ModuleRunState R) → World R → World R
  start_clocks [] w = w
  start_clocks (m ∷ ms) w = start_clocks ms (with_clock m.status m w)

  -- `findIndex((m) => m.status !== 'completed')`, and the length where there is none.
  unfoldable pub first_unfinished : List (ModuleRunState R) → ℕ
  first_unfinished [] = 0
  first_unfinished (m ∷ ms) = if is_completed m.status then suc (first_unfinished ms) else 0

module _ {R : Type 0} ⦃num : Num R⦄ where
  abbrev with_ranges :
      PersonalityQuestionDetails R
      → Bool
      → Result (EvaluationResult R)
      → Option (Dict R × Dict (TraitRange R))
  with_ranges details is_ranking evaluated = kept (
      evaluated >>= λ result.
      achievable_trait_range details is_ranking >>= λ ranges. ok (result.trait_weights, ranges))

  abbrev replay_choice :
      PersonalityQuestionDetails R → Option String → Option (Dict R × Dict (TraitRange R))
  replay_choice details none = none
  replay_choice details (some selected) =
      if selected == ""
      then none
      else with_ranges details false (evaluate_personality details selected)

  unfoldable pub replay_trait_answer :
      PersonalityQuestionDetails R → ResponseRow R → Option (Dict R × Dict (TraitRange R))
  unfolding evaluate_ranking evaluate_personality achievable_trait_range
  replay_trait_answer details answer =
      if has_ranking answer.selected_options
      then with_ranges details true
          (evaluate_ranking details (ranking_or_nothing answer.selected_options))
      else replay_choice details answer.selected_option

  -- What the loop does first with each answer.
  abbrev seen : ResponseRow R → ModuleRunState R → ModuleRunState R
  seen answer m = record m {
    seen_question_ids = m.seen_question_ids ++ answer.question_id ∷ [];
    answered = m.answered + 1;
    status = ModuleRunStatus.in_progress;
  }

  unfoldable pub replay_objective : Question R → ResponseRow R → ModuleRunState R → ModuleRunState R
  unfolding information track_ability replay_probe
  replay_objective q answer m =
      let difficulty : R = or_given answer.question_difficulty_at_serve (num.of_ℕ 0) in
      let ability : R = or_given answer.ability_estimate_after m.ability in
      let tracked : ModuleRunState R =
        track_ability
          (record m {
            information = num.plus m.information (information m.ability difficulty);
            ability = ability;
          })
          ability in
      replay_probe
        (record tracked {
          correct = if is_true answer.is_correct then suc m.correct else m.correct;
        })
        q.id q.probe_group answer.sequence_number
        (if had_answer answer then outcome (is_true answer.is_correct) else unanswered)

  abbrev replayed_of :
      Option (PersonalityQuestionDetails R) → ResponseRow R → Option (Dict R × Dict (TraitRange R))
  replayed_of none answer = none
  replayed_of (some details) answer = replay_trait_answer details answer

  abbrev with_weights : Option (Dict R × Dict (TraitRange R)) → ModuleRunState R → ModuleRunState R
  with_weights none m = m
  with_weights (some (ws, ranges)) m = record m {
    trait_tallies = apply_trait_weights m.trait_tallies ws ranges;
  }

  abbrev with_pattern : Option (PersonalityQuestionDetails R) → ModuleRunState R → ModuleRunState R
  with_pattern none m = m
  with_pattern (some details) m = record m {
    pattern_counts = count_if_patterned details.pattern m.pattern_counts;
  }

  abbrev trait_signature : Bool → Option (Dict R × Dict (TraitRange R)) → ProbeSignature R
  trait_signature true (some (ws, ranges)) = weights ws
  trait_signature _ _ = unanswered

  unfoldable pub replay_trait : Question R → ResponseRow R → ModuleRunState R → ModuleRunState R
  unfolding replay_trait_answer apply_trait_weights replay_probe
  replay_trait q answer m =
      let replayed : Option (Dict R × Dict (TraitRange R)) =
        replayed_of q.personality_details answer in
      replay_probe (with_pattern q.personality_details (with_weights replayed m)) q.id q.probe_group
        answer.sequence_number (trait_signature (had_answer answer) replayed)

  abbrev pub replay_by :
      ScoringType → Question R → ResponseRow R → ModuleRunState R → ModuleRunState R
  replay_by objective q answer m = replay_objective q answer m
  replay_by trait q answer m = replay_trait q answer m

  -- The body of the loop over the answers, for the module that the answer names.
  unfoldable pub replay_answer : Question R → ResponseRow R → ModuleRunState R → ModuleRunState R
  unfolding replay_objective replay_trait
  replay_answer q answer m = replay_by m.scoring_type q answer (seen answer m)

  abbrev question_of : List (Question R) → ResponseRow R → Option (Question R)
  question_of bank answer = find (λ (q : Question R). q.id == answer.question_id) bank

  -- A response keeps its question in the bank by a foreign key; `none` is the error that a broken
  -- one would be.
  abbrev replay_in :
      Option (Question R)
      → ResponseRow R
      → List (ModuleRunState R)
      → Option (List (ModuleRunState R))
  replay_in none answer modules = none
  replay_in (some q) answer modules =
      some (for_module answer.module_id (replay_answer q answer) modules)

  unfoldable pub replay_all :
      List (Question R)
      → List (ResponseRow R)
      → List (ModuleRunState R)
      → Option (List (ModuleRunState R))
  unfolding replay_answer update_first
  replay_all bank [] modules = some modules
  replay_all bank (answer ∷ answers) modules =
      elim (replay_in (question_of bank answer) answer modules) [
        | none ↦ none
        | some replayed ↦ replay_all bank answers replayed
      ]

  unfoldable pub rebuilt :
      Assessment → SessionRow → List (ResponseRow R) → List (ModuleRunState R) → ℕ → SessionState R
  unfolding first_unfinished
  rebuilt assessment row answers modules now =
      let restarts : List (ModuleRunState R) =
        map (λ (m : ModuleRunState R). restarted now m.status m) modules in
      record {
        session_id = row.id;
        candidate_id = row.candidate_id;
        invitation_id = row.invitation_id;
        assessment_id = row.assessment_id;
        assessment_title = assessment.title;
        started_at = row.started_at;
        expires_at = row.expires_at;
        status = run_status row.status;
        modules = restarts;
        current_module_index = first_unfinished restarts;
        served = none;
        answered_total = length answers;
      }

  unfoldable pub rehydrate : Assessment → ℕ → SessionRow → M R (SessionState R)
  unfolding fresh_modules replay_all by_sequence complete_finished start_clocks rebuilt
  rehydrate assessment now row w =
      elim (replay_all w.bank (by_sequence w.responses) (fresh_modules assessment)) [
        | none ↦ fail dangling_response w
        | some replayed ↦
            let modules : List (ModuleRunState R) = complete_finished w.module_results replayed in
            let state : SessionState R =
              rebuilt assessment row (by_sequence w.responses) modules now in
            done state (save state (start_clocks modules w))
      ]
