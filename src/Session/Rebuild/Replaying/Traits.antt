-- ===== src/Session/Rebuild/Replaying/Traits.antt =====
-- Replaying a stored answer, against recording it, in a personality module.
use adaptive_hire_exam_platf.Common.{
  ℕ, suc, ◌≡◌, refl, sym, ap, ◌∙◌, subst, Option, none, some, [], ◌∷◌, Bool, true, false, ◌||◌,
  arith, Bool-cases, inl, inr, if◌then◌else◌,
}
use adaptive_hire_exam_platf.Common.Equality.{string_eq, ◌==◌}
use adaptive_hire_exam_platf.Failures.{ok, >>=-eq-ok, ok-injective}
use adaptive_hire_exam_platf.Engine.Numbers.{Num}
use adaptive_hire_exam_platf.Engine.Dict.{Dict}
use adaptive_hire_exam_platf.Engine.Types.{
  ModuleRunConfig, ModuleRunState, ModuleRunStatus, ScoringType, objective, trait, EvaluationResult,
  TraitRange,
}
use adaptive_hire_exam_platf.Engine.Questions.{Question, PersonalityQuestionDetails}
use adaptive_hire_exam_platf.Engine.Probe.{signature}
use adaptive_hire_exam_platf.Engine.Estimator.Traits.{
  apply_weights, apply_ranges, apply_trait_weights,
}
use adaptive_hire_exam_platf.Engine.Evaluation.{evaluate_unanswered}
use adaptive_hire_exam_platf.Engine.Run.{
  score_trait, record_trait, with_personality, SubmittedAnswer, was_answered, Recorded,
  mark_probe_served, register_probe, replay_probe, assert_answer_shape, evaluate_trait, range_for,
  is_ranking,
}
use adaptive_hire_exam_platf.Engine.Selector.Serving.{shown_question}
use adaptive_hire_exam_platf.Session.State.{SessionState, ServedQuestion, ResponseRow}
use adaptive_hire_exam_platf.Session.Finish.{response_row, chosen_option, chosen_ordering}
use adaptive_hire_exam_platf.Session.Rebuild.{
  is_some, replay_trait_answer, has_ranking, seen, with_pattern, with_weights, trait_signature,
  replay_trait,
}
use adaptive_hire_exam_platf.Session.Rebuild.Replaying.{
  IsFilled, has_choice-was_answered, plus_one, mark_probe_served_lem, on_display,
  shown_question-config,
}

module _ {R : Type 0} ⦃num : Num R⦄ where
  -- The replay of a trait answer finds the weights and ranges that the answer had.
  replay_trait_answer-response_row :
      (state : SessionState R) (m : ModuleRunState R) (q : Question R)
      (details : PersonalityQuestionDetails R) (answer : SubmittedAnswer) (served : ServedQuestion)
      (now : ℕ) (r : Recorded R) (result : EvaluationResult R) (ranges : Dict (TraitRange R))
      → IsFilled answer
      → assert_answer_shape details answer ≡ ok tt
      → evaluate_trait details answer ≡ ok result
      → range_for details answer ≡ ok ranges
      → replay_trait_answer details (response_row state m q answer served now r)
        ≡ (if was_answered answer then some (result.trait_weights, ranges) else none)
  unfolding replay_trait_answer response_row assert_answer_shape evaluate_trait range_for
  replay_trait_answer-response_row state m q details SubmittedAnswer.unanswered served now r result
        ranges f shape evaluated ranged =
      refl
  replay_trait_answer-response_row state m q details (SubmittedAnswer.option key) served now r
        result ranges f shape evaluated ranged =
      elim (Bool-cases (is_ranking details.pattern)) [
        | inl h ↦ let no = rw h at shape in cc no
        | inr h ↦
            let named : (key == "") ≡ false = ground (arith, string_eq.same_iff key "") in
            let found = rw h at ranged in rw (named, evaluated, found) refl
      ]
  replay_trait_answer-response_row state m q details (SubmittedAnswer.ordering []) served now r
        result ranges f shape evaluated ranged =
      absurd (f refl)
  replay_trait_answer-response_row state m q details (SubmittedAnswer.ordering (k ∷ ks)) served now
        r result ranges f shape evaluated ranged =
      elim (Bool-cases (is_ranking details.pattern)) [
        | inl h ↦ let found = rw h at ranged in rw (evaluated, found) refl
        | inr h ↦ let no = rw h at shape in cc no
      ]

  -- What an answer contributed, or nothing.
  abbrev contributed : Bool → Dict R → Dict (TraitRange R) → Option (Dict R × Dict (TraitRange R))
  contributed answered ws ranges = if answered then some (ws, ranges) else none

  weighed_again :
      (before : ModuleRunState R) (q : Question R) (details : PersonalityQuestionDetails R)
      (row : ResponseRow R) (answered : Bool) (ws : Dict R) (ranges : Dict (TraitRange R))
      → before.status ≡ ModuleRunStatus.in_progress
      → row.question_id ≡ q.id
      → (answered ≡ false → (ws ≡ []) × (ranges ≡ []))
      → mark_probe_served
          (with_pattern
            (some details)
            (with_weights (contributed answered ws ranges) (seen row before)))
          q.probe_group
        ≡ score_trait (shown_question before q) details ws ranges
  unfolding score_trait apply_trait_weights apply_weights apply_ranges
  weighed_again before q details row true ws ranges running same none_left =
      mark_probe_served_lem
        (with_pattern (some details) (with_weights (some (ws, ranges)) (seen row before)))
        q.probe_group
      ∙ rw (on_display before q, plus_one before.answered, running, same) refl
  weighed_again before q details row false ws ranges running same none_left =
      let empty = none_left refl in
      mark_probe_served_lem (with_pattern (some details) (seen row before)) q.probe_group
      ∙ rw (on_display before q, plus_one before.answered, running, same, empty.0, empty.1) refl

  signature-trait :
      (scoring_type : ScoringType) (answered : Bool) (ws : Dict R) (ranges : Dict (TraitRange R))
      → scoring_type ≡ trait
      → trait_signature answered (contributed answered ws ranges)
        ≡ signature scoring_type none ws answered
  unfolding signature
  signature-trait objective answered ws ranges h = cc
  signature-trait trait true ws ranges h = refl
  signature-trait trait false ws ranges h = refl

  unanswered-nothing :
      (details : PersonalityQuestionDetails R) (answer : SubmittedAnswer)
      (result : EvaluationResult R) (ranges : Dict (TraitRange R))
      → evaluate_trait details answer ≡ ok result
      → range_for details answer ≡ ok ranges
      → was_answered answer ≡ false
      → (result.trait_weights ≡ []) × (ranges ≡ [])
  unfolding evaluate_trait range_for evaluate_unanswered
  unanswered-nothing details SubmittedAnswer.unanswered result ranges e f h = (
    sym (ap (λ (r : EvaluationResult R). r.trait_weights) (ok-injective e)),
    sym (ok-injective f),
  )
  unanswered-nothing details (SubmittedAnswer.option key) result ranges e f h = cc
  unanswered-nothing details (SubmittedAnswer.ordering keys) result ranges e f h = cc

  replay_trait-record_trait :
      (state : SessionState R) (before : ModuleRunState R) (q : Question R)
      (details : PersonalityQuestionDetails R) (answer : SubmittedAnswer) (served : ServedQuestion)
      (now : ℕ) (r : Recorded R)
      → before.status ≡ ModuleRunStatus.in_progress
      → before.scoring_type ≡ trait
      → q.personality_details ≡ some details
      → IsFilled answer
      → record_trait (shown_question before q) q details answer (suc state.answered_total) ≡ ok r
      → let row = response_row state before q answer served now r in
        replay_trait q row (seen row before) ≡ r.state
  unfolding record_trait replay_trait replay_probe response_row
  replay_trait-record_trait state before q details answer served now r running kind detailed filled
        h =
      let (done, shape, h) = >>=-eq-ok (assert_answer_shape details answer) _ h in
      let (result, evaluated, h) = >>=-eq-ok (evaluate_trait details answer) _ h in
      let (ranges, ranged, made) = >>=-eq-ok (range_for details answer) _ h in
      let row = response_row state before q answer served now r in
      let found =
        replay_trait_answer-response_row state before q details answer served now r result ranges
          filled shape evaluated ranged in
      let answered = was_answered answer in
      let ws = result.trait_weights in
      let shown = shown_question before q in
      let sequence_number = suc state.answered_total in
      let chosen = is_some (chosen_option answer) || has_ranking (chosen_ordering answer) in
      let kind' =
        ap (λ (k : ModuleRunConfig). k.scoring_type) (shown_question-config before q) ∙ kind in
      subst (λ (x : Recorded R). replay_trait q row (seen row before) ≡ x.state) (ok-injective made)
        (rw (detailed, found)
          (ap
              (λ m.
                register_probe m q.id q.probe_group sequence_number
                  (trait_signature chosen (contributed answered ws ranges)))
              (weighed_again before q details row answered ws ranges running refl
                (unanswered-nothing details answer result ranges evaluated ranged))
            ∙ ap
                (register_probe (score_trait shown details ws ranges) q.id q.probe_group
                  sequence_number)
                (rw (has_choice-was_answered answer filled)
                  (signature-trait shown.scoring_type answered ws ranges kind'))))

  pub replay_trait-with_personality :
      (state : SessionState R) (before : ModuleRunState R) (q : Question R)
      (found : Option (PersonalityQuestionDetails R)) (answer : SubmittedAnswer)
      (served : ServedQuestion) (now : ℕ) (r : Recorded R)
      → before.status ≡ ModuleRunStatus.in_progress
      → before.scoring_type ≡ trait
      → q.personality_details ≡ found
      → IsFilled answer
      → with_personality q found (λ details.
        record_trait (shown_question before q) q details answer (suc state.answered_total))
        ≡ ok r
      → let row = response_row state before q answer served now r in
        replay_trait q row (seen row before) ≡ r.state
  replay_trait-with_personality state before q none answer served now r running kind e filled h = cc
  replay_trait-with_personality state before q (some details) answer served now r running kind e
        filled h =
      replay_trait-record_trait state before q details answer served now r running kind e filled h
