-- ===== src/Engine/Run/Faults.antt =====
-- Which errors recording an answer can raise: none of them is the session's "could not be
-- advanced".
use adaptive_hire_exam_platf.Common.{
  ℕ, String, List, [], ◌∷◌, Option, none, some, Bool, true, false, ◌≢◌, if◌then◌else◌, Option-cases,
  inl, inr,
}
use adaptive_hire_exam_platf.Failures.{
  Failure, Result, ok, failed, ◌>>=◌, not_advanced, require, duplicate_ranking, incomplete_ranking,
}
use adaptive_hire_exam_platf.Engine.Numbers.{Num}
use adaptive_hire_exam_platf.Engine.Types.{
  ModuleRunState, EvaluationResult, ScoringType, objective, trait,
}
use adaptive_hire_exam_platf.Engine.Questions.{
  Question, McqQuestionDetails, PersonalityQuestionDetails, personality_keys,
}
use adaptive_hire_exam_platf.Engine.Evaluation.Permutations.{permutations}
use adaptive_hire_exam_platf.Engine.Evaluation.{
  assert_known_option, assert_known_options, evaluate_mcq, evaluate_personality, evaluate_ranking,
  find_option, all_weights, outcomes_of, achievable_trait_range,
}
use adaptive_hire_exam_platf.Engine.Run.{
  SubmittedAnswer, assert_answer_shape, evaluate_objective, record_objective, evaluate_trait,
  range_for, record_trait, with_mcq, with_personality, record_by, record_answer,
}

-- A result that is not that error.
pub data Safe {ℓ} {A : Type ℓ} : Result A → Type ℓ where
  fine : (a : A) → Safe (ok a)
  refused : {e : Failure} → e ≢ not_advanced → Safe (failed e)

bind-Safe {ℓ κ} :
    {A : Type ℓ} {B : Type κ} (m : Result A) (f : A → Result B)
    → Safe m
    → ((a : A) → Safe (f a))
    → Safe (m >>= f)
bind-Safe _ f (fine a) k = k a
bind-Safe _ f (refused h) k = refused h

require-Safe : (test : Bool) (e : Failure) → e ≢ not_advanced → Safe (require test e)
require-Safe true e h = fine tt
require-Safe false e h = refused h

if-Safe {ℓ} :
    {A : Type ℓ} (test : Bool) (m n : Result A) → Safe m → Safe n → Safe (if test then m else n)
if-Safe true m n h k = h
if-Safe false m n h k = k

assert_known_option-Safe :
    (valid : List String) (key : String) → Safe (assert_known_option valid key)
unfolding assert_known_option
assert_known_option-Safe valid key = require-Safe _ _ (λ h. cc)

assert_known_options-Safe : (valid keys : List String) → Safe (assert_known_options valid keys)
unfolding assert_known_options
assert_known_options-Safe valid [] = fine tt
assert_known_options-Safe valid (key ∷ keys) =
    bind-Safe (assert_known_option valid key) _ (assert_known_option-Safe valid key)
      (λ _. assert_known_options-Safe valid keys)

module _ {R : Type 0} ⦃num : Num R⦄ where
  evaluate_mcq-Safe :
      (details : McqQuestionDetails R) (key : String) → Safe (evaluate_mcq details key)
  unfolding evaluate_mcq
  evaluate_mcq-Safe details key =
      bind-Safe (assert_known_option _ key) _ (assert_known_option-Safe _ key) (λ _. fine _)

  evaluate_personality-Safe :
      (details : PersonalityQuestionDetails R) (key : String)
      → Safe (evaluate_personality details key)
  unfolding evaluate_personality
  evaluate_personality-Safe details key = elim (Option-cases (find_option details key)) [
    | inl missing ↦
        rw (missing, evaluate_personality)
          (bind-Safe (assert_known_option _ key) _ (assert_known_option-Safe _ key) (λ _. fine _))
    | inr (chosen, found) ↦ rw (found, evaluate_personality) (fine _)
  ]

  evaluate_ranking-Safe :
      (details : PersonalityQuestionDetails R) (keys : List String)
      → Safe (evaluate_ranking details keys)
  unfolding evaluate_ranking
  evaluate_ranking-Safe details keys =
      bind-Safe _ _ (require-Safe _ duplicate_ranking (λ h. cc)) (λ _.
        bind-Safe _ _ (assert_known_options-Safe _ keys)
          (λ _. bind-Safe _ _ (require-Safe _ incomplete_ranking (λ h. cc)) (λ _. fine _)))

  all_weights-Safe :
      {A : Type 0} (evaluate : A → Result (EvaluationResult R)) (answers : List A)
      → ((a : A) → Safe (evaluate a))
      → Safe (all_weights evaluate answers)
  unfolding all_weights
  all_weights-Safe evaluate [] h = fine []
  all_weights-Safe evaluate (a ∷ answers) h = bind-Safe (evaluate a) _ (h a) (λ _.
      bind-Safe (all_weights evaluate answers) _ (all_weights-Safe evaluate answers h)
        (λ _. fine _))

  outcomes_of-Safe :
      (details : PersonalityQuestionDetails R) (ranked : Bool) → Safe (outcomes_of details ranked)
  unfolding outcomes_of
  outcomes_of-Safe details true =
      all_weights-Safe (evaluate_ranking details) (permutations (personality_keys details))
        (evaluate_ranking-Safe details)
  outcomes_of-Safe details false =
      all_weights-Safe (evaluate_personality details) (personality_keys details)
        (evaluate_personality-Safe details)

  achievable_trait_range-Safe :
      (details : PersonalityQuestionDetails R) (ranked : Bool)
      → Safe (achievable_trait_range details ranked)
  unfolding achievable_trait_range
  achievable_trait_range-Safe details ranked =
      if-Safe _ _ _ (fine _) (bind-Safe _ _ (outcomes_of-Safe details ranked) (λ _. fine _))

  evaluate_trait-Safe :
      (details : PersonalityQuestionDetails R) (answer : SubmittedAnswer)
      → Safe (evaluate_trait details answer)
  unfolding evaluate_trait
  evaluate_trait-Safe details SubmittedAnswer.unanswered = fine _
  evaluate_trait-Safe details (SubmittedAnswer.ordering keys) = evaluate_ranking-Safe details keys
  evaluate_trait-Safe details (SubmittedAnswer.option key) = evaluate_personality-Safe details key

  range_for-Safe :
      (details : PersonalityQuestionDetails R) (answer : SubmittedAnswer)
      → Safe (range_for details answer)
  unfolding range_for
  range_for-Safe details SubmittedAnswer.unanswered = fine _
  range_for-Safe details (SubmittedAnswer.ordering keys) = achievable_trait_range-Safe details _
  range_for-Safe details (SubmittedAnswer.option key) = achievable_trait_range-Safe details _

  assert_answer_shape-Safe :
      (details : PersonalityQuestionDetails R) (answer : SubmittedAnswer)
      → Safe (assert_answer_shape details answer)
  unfolding assert_answer_shape
  assert_answer_shape-Safe details SubmittedAnswer.unanswered = fine _
  assert_answer_shape-Safe details (SubmittedAnswer.ordering keys) =
      if-Safe _ _ _ (fine _) (refused (λ h. cc))
  assert_answer_shape-Safe details (SubmittedAnswer.option key) =
      if-Safe _ _ _ (refused (λ h. cc)) (fine _)

  evaluate_objective-Safe :
      (details : McqQuestionDetails R) (answer : SubmittedAnswer)
      → Safe (evaluate_objective details answer)
  unfolding evaluate_objective
  evaluate_objective-Safe details SubmittedAnswer.unanswered = fine _
  evaluate_objective-Safe details (SubmittedAnswer.ordering keys) = refused (λ h. cc)
  evaluate_objective-Safe details (SubmittedAnswer.option key) = evaluate_mcq-Safe details key

  module _ (state : ModuleRunState R) (q : Question R) (answer : SubmittedAnswer)
      (sequence_number : ℕ) where
    with_mcq-Safe :
        (details : Option (McqQuestionDetails R))
        → Safe (with_mcq q details (λ d. record_objective state q d answer sequence_number))
    unfolding record_objective
    with_mcq-Safe none = refused (λ h. cc)
    with_mcq-Safe (some details) =
        bind-Safe (evaluate_objective details answer) _ (evaluate_objective-Safe details answer)
          (λ _. fine _)

    with_personality-Safe :
        (details : Option (PersonalityQuestionDetails R))
        → Safe (with_personality q details (λ d. record_trait state q d answer sequence_number))
    unfolding record_trait
    with_personality-Safe none = refused (λ h. cc)
    with_personality-Safe (some details) =
        bind-Safe (assert_answer_shape details answer) _ (assert_answer_shape-Safe details answer)
          (λ _.
            bind-Safe (evaluate_trait details answer) _ (evaluate_trait-Safe details answer) (λ _.
              bind-Safe (range_for details answer) _ (range_for-Safe details answer) (λ _. fine _)))

    record_by-Safe :
        (scoring_type : ScoringType) → Safe (record_by scoring_type state q answer sequence_number)
    record_by-Safe objective = with_mcq-Safe q.mcq_details
    record_by-Safe trait = with_personality-Safe q.personality_details

    pub record_answer-Safe : Safe (record_answer state q answer sequence_number)
    unfolding record_answer
    record_answer-Safe = record_by-Safe state.scoring_type
