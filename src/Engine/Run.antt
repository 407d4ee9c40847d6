-- ===== src/Engine/Run.antt =====
-- backend/src/adaptive-engine/adaptive-engine.service.ts: the engine's two calls, "what next?" and
-- "here is an answer", and the results of a finished module.
pub mod Answers
pub mod Next
pub mod Faults
use adaptive_hire_exam_platf.Common.{
  ℕ, suc, ◌+◌, String, List, [], ◌∷◌, Option, none, some, Bool, true, false, if◌then◌else◌,
}
use adaptive_hire_exam_platf.Common.Equality.{◌==◌, string_eq}
use adaptive_hire_exam_platf.Failures.{
  Result, ok, failed, ◌>>=◌, ◌>>◌, missing_mcq_details, missing_personality_details, not_a_ranking,
  ranking_required, single_choice_required,
}
use adaptive_hire_exam_platf.Engine.Numbers.{Num, round2}
use adaptive_hire_exam_platf.Engine.Constants.{starting_ability}
use adaptive_hire_exam_platf.Engine.Dict.{Dict}
use adaptive_hire_exam_platf.Engine.Types.{
  ModuleRunConfig, ModuleRunState, ModuleStopReason, confidence_reached, pool_exhausted,
  BehavioralPattern, situational, forced_choice, trade_off, ranking, pending, ScoringType,
  objective, trait, EvaluationResult, ProbeSignature, ProbeResults, TraitRange,
}
use adaptive_hire_exam_platf.Engine.Questions.{
  Question, McqQuestionDetails, PersonalityQuestionDetails,
}
use adaptive_hire_exam_platf.Engine.Probe.{mark_served, record_probe, signature, is_true, results}
use adaptive_hire_exam_platf.Engine.Evaluation.{
  evaluate_mcq, evaluate_personality, evaluate_ranking, evaluate_unanswered, achievable_trait_range,
}
use adaptive_hire_exam_platf.Engine.Estimator.{update, information, track_ability, AbilityUpdate}
use adaptive_hire_exam_platf.Engine.Estimator.Traits.{
  apply_trait_weights, trait_scores, TraitScore, overall_consistency,
}
use adaptive_hire_exam_platf.Engine.Stopping.{should_stop, threshold_met}

pub data NextStep (R : Type 0) : Type 0 where
  question : Question R → NextStep R
  module_complete : ModuleStopReason → NextStep R

pub data SubmittedAnswer : Type 0 where
  option : (selected_option : String) → SubmittedAnswer
  ordering : (selected_options : List String) → SubmittedAnswer
  unanswered : SubmittedAnswer

abbrev pub was_answered : SubmittedAnswer → Bool
was_answered unanswered = false
was_answered (option selected_option) = true
was_answered (ordering selected_options) = true

pub record AnswerOutcome (R : Type 0) : Type 0 where
  pub is_correct : Option Bool
  pub question_difficulty_at_serve : Option R
  pub ability_estimate_after : Option R

-- The write to the question's details that goes with an answer.
pub data ItemUpdate (R : Type 0) : Type 0 where
  mcq_update : (question_id : ℕ) (difficulty_score : R) (is_correct : Bool) → ItemUpdate R
  personality_update : (question_id : ℕ) → ItemUpdate R

pub record Recorded (R : Type 0) : Type 0 where
  pub state : ModuleRunState R
  pub outcome : AnswerOutcome R
  pub item_update : ItemUpdate R

abbrev pub pattern_eq : BehavioralPattern → BehavioralPattern → Bool
pattern_eq situational situational = true
pattern_eq forced_choice forced_choice = true
pattern_eq trade_off trade_off = true
pattern_eq ranking ranking = true
pattern_eq _ _ = false

-- `details.pattern === BehavioralPattern.RANKING`
abbrev pub is_ranking : Option BehavioralPattern → Bool
is_ranking none = false
is_ranking (some p) = pattern_eq p ranking

-- `counts[pattern] = (counts[pattern] ?? 0) + 1`
unfoldable pub count_pattern :
    BehavioralPattern → List (BehavioralPattern × ℕ) → List (BehavioralPattern × ℕ)
count_pattern p [] = (p, 1) ∷ []
count_pattern p ((q, n) ∷ counts) =
    if pattern_eq q p then (q, n + 1) ∷ counts else (q, n) ∷ count_pattern p counts

-- `if (details.pattern) …`
abbrev pub count_if_patterned :
    Option BehavioralPattern → List (BehavioralPattern × ℕ) → List (BehavioralPattern × ℕ)
count_if_patterned none counts = counts
count_if_patterned (some p) counts = count_pattern p counts

module _ {R : Type 0} where
  -- `if (question.probeGroup) …`: the empty text is no group.
  abbrev pub if_grouped :
      Option String → (String → ModuleRunState R) → ModuleRunState R → ModuleRunState R
  if_grouped none f state = state
  if_grouped (some group) f state = if group == "" then state else f group

  unfoldable pub mark_probe_served : ModuleRunState R → Option String → ModuleRunState R
  unfolding mark_served
  mark_probe_served state probe_group = if_grouped probe_group (mark_served state) state

  -- A ranking question needs an ordering, and every other shape a single choice.
  unfoldable pub assert_answer_shape :
      PersonalityQuestionDetails R → SubmittedAnswer → Result (Unit {0})
  assert_answer_shape details unanswered = ok tt
  assert_answer_shape details (option selected_option) =
      if is_ranking details.pattern then failed ranking_required else ok tt
  assert_answer_shape details (ordering selected_options) =
      if is_ranking details.pattern then ok tt else failed single_choice_required

module _ {R : Type 0} ⦃num : Num R⦄ where
  unfoldable pub create_module_state : ModuleRunConfig → ModuleRunState R
  create_module_state config = record {
    config = config;
    status = pending;
    started_at = none;
    deadline_at = none;
    completed_at = none;
    stop_reason = none;
    answered = 0;
    correct = 0;
    seen_question_ids = [];
    ability = num.of_ℕ starting_ability;
    information = num.of_ℕ 0;
    recent_abilities = [];
    trait_tallies = [];
    pattern_counts = [];
    probes = [];
    served_probe_groups = [];
  }

  -- `select` is the question selector: what `selectNext` returns for a state.
  unfoldable pub next_step :
      (ModuleRunState R → Option (Question R)) → ModuleRunState R → ℕ → NextStep R
  unfolding should_stop threshold_met
  next_step select state now = elim (should_stop state now) [
    | some reason ↦ module_complete reason
    | none ↦ elim (select state) [
      | some q ↦ question q
      | none ↦ module_complete (if threshold_met state then confidence_reached else pool_exhausted)
    ]
  ]

  unfoldable pub register_probe :
      ModuleRunState R → ℕ → Option String → ℕ → ProbeSignature R → ModuleRunState R
  unfolding record_probe
  register_probe state question_id probe_group sequence_number sig =
      if_grouped probe_group (λ group. record_probe state group question_id sequence_number sig)
        state

  unfoldable pub replay_probe :
      ModuleRunState R → ℕ → Option String → ℕ → ProbeSignature R → ModuleRunState R
  unfolding mark_probe_served register_probe
  replay_probe state question_id probe_group sequence_number sig =
      register_probe (mark_probe_served state probe_group) question_id probe_group sequence_number
        sig

  unfoldable pub evaluate_objective :
      McqQuestionDetails R → SubmittedAnswer → Result (EvaluationResult R)
  unfolding evaluate_mcq evaluate_unanswered
  evaluate_objective details (ordering selected_options) = failed not_a_ranking
  evaluate_objective details unanswered = ok (evaluate_unanswered objective)
  evaluate_objective details (option selected_option) = evaluate_mcq details selected_option

  -- The module state after an objective answer, before its probe is registered.
  unfoldable pub score_objective : ModuleRunState R → McqQuestionDetails R → Bool → ModuleRunState R
  unfolding update information track_ability
  score_objective state details is_correct =
      let update : AbilityUpdate R =
        update state.ability details.difficulty_score is_correct state.answered in
      let tracked : ModuleRunState R =
        track_ability
          (record state {
            ability = update.ability;
            information =
                num.plus state.information (information state.ability details.difficulty_score);
          })
          update.ability in
      record tracked {
        answered = suc state.answered;
        correct = if is_correct then suc state.correct else state.correct;
      }

  unfoldable pub record_objective :
      ModuleRunState R
      → Question R
      → McqQuestionDetails R
      → SubmittedAnswer
      → ℕ
      → Result (Recorded R)
  unfolding evaluate_objective score_objective register_probe signature update round2
  record_objective state q details answer sequence_number =
      evaluate_objective details answer >>= λ result.
      let is_correct : Bool = is_true result.is_correct in
      let scored : ModuleRunState R = score_objective state details is_correct in
      ok (record {
        state =
            register_probe scored q.id q.probe_group sequence_number
              (signature state.scoring_type (some is_correct) [] (was_answered answer));
        outcome = record {
          is_correct = some is_correct;
          question_difficulty_at_serve = some details.difficulty_score;
          ability_estimate_after = some (round2 scored.ability);
        };
        item_update =
            mcq_update q.id
              (num.round
                (update state.ability details.difficulty_score is_correct
                  state.answered).question_difficulty)
              is_correct;
      })

  unfoldable pub evaluate_trait :
      PersonalityQuestionDetails R → SubmittedAnswer → Result (EvaluationResult R)
  unfolding evaluate_personality evaluate_ranking evaluate_unanswered
  evaluate_trait details unanswered = ok (evaluate_unanswered trait)
  evaluate_trait details (ordering selected_options) = evaluate_ranking details selected_options
  evaluate_trait details (option selected_option) = evaluate_personality details selected_option

  unfoldable pub range_for :
      PersonalityQuestionDetails R → SubmittedAnswer → Result (Dict (TraitRange R))
  unfolding achievable_trait_range
  range_for details unanswered = ok []
  range_for details (option selected_option) =
      achievable_trait_range details (is_ranking details.pattern)
  range_for details (ordering selected_options) =
      achievable_trait_range details (is_ranking details.pattern)

  unfoldable pub score_trait :
      ModuleRunState R
      → PersonalityQuestionDetails R
      → Dict R
      → Dict (TraitRange R)
      → ModuleRunState R
  unfolding apply_trait_weights count_pattern
  score_trait state details weights ranges = record state {
    trait_tallies = apply_trait_weights state.trait_tallies weights ranges;
    answered = suc state.answered;
    pattern_counts = count_if_patterned details.pattern state.pattern_counts;
  }

  unfoldable pub record_trait :
      ModuleRunState R
      → Question R
      → PersonalityQuestionDetails R
      → SubmittedAnswer
      → ℕ
      → Result (Recorded R)
  unfolding assert_answer_shape evaluate_trait range_for score_trait register_probe signature
  record_trait state q details answer sequence_number = do
    assert_answer_shape details answer
    result ← evaluate_trait details answer
    ranges ← range_for details answer
    ok (record {
      state =
          register_probe (score_trait state details result.trait_weights ranges) q.id q.probe_group
            sequence_number
            (signature state.scoring_type none result.trait_weights (was_answered answer));
      outcome = record {
        is_correct = none;
        question_difficulty_at_serve = none;
        ability_estimate_after = none;
      };
      item_update = personality_update q.id;
    })

  abbrev pub with_mcq :
      Question R
      → Option (McqQuestionDetails R)
      → (McqQuestionDetails R → Result (Recorded R))
      → Result (Recorded R)
  with_mcq q none f = failed (missing_mcq_details q.id)
  with_mcq q (some details) f = f details

  abbrev pub with_personality :
      Question R
      → Option (PersonalityQuestionDetails R)
      → (PersonalityQuestionDetails R → Result (Recorded R))
      → Result (Recorded R)
  with_personality q none f = failed (missing_personality_details q.id)
  with_personality q (some details) f = f details

  abbrev pub record_by :
      ScoringType → ModuleRunState R → Question R → SubmittedAnswer → ℕ → Result (Recorded R)
  record_by objective state q answer sequence_number =
      with_mcq q q.mcq_details (λ details. record_objective state q details answer sequence_number)
  record_by trait state q answer sequence_number =
      with_personality q q.personality_details
        (λ details. record_trait state q details answer sequence_number)

  unfoldable pub record_answer :
      ModuleRunState R → Question R → SubmittedAnswer → ℕ → Result (Recorded R)
  unfolding record_objective record_trait
  record_answer state q answer sequence_number =
      record_by state.scoring_type state q answer sequence_number

  abbrev final_ability_by : ScoringType → ModuleRunState R → Option R
  final_ability_by objective state = some (round2 state.ability)
  final_ability_by trait state = none

  unfoldable pub final_ability : ModuleRunState R → Option R
  unfolding round2
  final_ability state = final_ability_by state.scoring_type state

  abbrev final_trait_scores_by : ScoringType → ModuleRunState R → Option (Dict (TraitScore R))
  final_trait_scores_by objective state = none
  final_trait_scores_by trait state = some (trait_scores state)

  unfoldable pub final_trait_scores : ModuleRunState R → Option (Dict (TraitScore R))
  unfolding trait_scores
  final_trait_scores state = final_trait_scores_by state.scoring_type state

  unfoldable pub probe_results : ModuleRunState R → Option (ProbeResults R)
  unfolding results
  probe_results state = results state

  abbrev overall_consistency_by : ScoringType → ModuleRunState R → Option R
  overall_consistency_by objective state = none
  overall_consistency_by trait state = overall_consistency state

  unfoldable pub module_consistency : ModuleRunState R → Option R
  unfolding overall_consistency
  module_consistency state = overall_consistency_by state.scoring_type state
