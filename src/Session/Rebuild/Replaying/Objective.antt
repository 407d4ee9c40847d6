-- ===== src/Session/Rebuild/Replaying/Objective.antt =====
-- Replaying a stored answer, against recording it, in an objective module.
use adaptive_hire_exam_platf.Common.{
  last_items, ℕ, suc, ◌+◌, ◌++◌, ◌≡◌, refl, sym, ap, ◌∙◌, subst, Option, none, some, [], ◌∷◌, Bool,
  true, false, ◌||◌, if◌then◌else◌,
}
use adaptive_hire_exam_platf.Common.Equality.{string_eq}
use adaptive_hire_exam_platf.Failures.{ok, >>=-eq-ok, ok-injective}
use adaptive_hire_exam_platf.Engine.Numbers.{Num, round2}
use adaptive_hire_exam_platf.Engine.Types.{
  ModuleRunConfig, ModuleRunState, ModuleRunStatus, ScoringType, objective, trait, outcome,
  unanswered,
}
use adaptive_hire_exam_platf.Engine.Questions.{Question, McqQuestionDetails}
use adaptive_hire_exam_platf.Engine.Probe.{is_true, signature}
use adaptive_hire_exam_platf.Engine.Estimator.{information, track_ability}
use adaptive_hire_exam_platf.Engine.Constants.{stability_window}
use adaptive_hire_exam_platf.Engine.Run.{
  with_mcq, SubmittedAnswer, was_answered, Recorded, mark_probe_served, register_probe,
  score_objective, evaluate_objective, record_objective, replay_probe,
}
use adaptive_hire_exam_platf.Engine.Selector.Serving.{shown_question}
use adaptive_hire_exam_platf.Session.State.{SessionState, ServedQuestion}
use adaptive_hire_exam_platf.Session.Finish.{response_row, chosen_option, chosen_ordering}
use adaptive_hire_exam_platf.Session.Rebuild.{is_some, has_ranking, seen, replay_objective}
use adaptive_hire_exam_platf.Session.Rebuild.Replaying.{
  IsFilled, has_choice-was_answered, plus_one, mark_probe_served_lem, register_probe-ability,
  with_estimate, as_stored, register_probe-with_estimate, on_display, shown_question-config,
}

module _ {R : Type 0} ⦃num : Num R⦄ where
  -- What replaying an objective answer leaves before its probe is registered.
  scored_again :
      (before : ModuleRunState R) (q : Question R) (details : McqQuestionDetails R) (c : Bool)
      (ability : R)
      → before.status ≡ ModuleRunStatus.in_progress
      → mark_probe_served
          (record (track_ability
            (record before {
              seen_question_ids = before.seen_question_ids ++ q.id ∷ [];
              answered = before.answered + 1;
              status = ModuleRunStatus.in_progress;
              information =
                  num.plus before.information (information before.ability details.difficulty_score);
              ability = ability;
            })
            ability) { correct = if c then suc before.correct else before.correct })
          q.probe_group
        ≡ with_estimate ability
            (last_items stability_window (before.recent_abilities ++ ability ∷ []))
            (score_objective (shown_question before q) details c)
  unfolding score_objective track_ability
  scored_again before q details c ability running =
      mark_probe_served_lem
        (record (track_ability
          (record before {
            seen_question_ids = before.seen_question_ids ++ q.id ∷ [];
            answered = before.answered + 1;
            status = ModuleRunStatus.in_progress;
            information =
                num.plus before.information (information before.ability details.difficulty_score);
            ability = ability;
          })
          ability) { correct = if c then suc before.correct else before.correct })
        q.probe_group
      ∙ rw (on_display before q, plus_one before.answered, running) refl

  signature-objective :
      (scoring_type : ScoringType) (c answered : Bool)
      → scoring_type ≡ objective
      → (if answered then outcome c else unanswered)
        ≡ signature {R = R} scoring_type (some c) [] answered
  unfolding signature
  signature-objective objective c true h = refl
  signature-objective objective c false h = refl
  signature-objective trait c answered h = cc

  abbrev pub Replays :
      SessionState R
      → ModuleRunState R
      → Question R
      → SubmittedAnswer
      → ServedQuestion
      → ℕ
      → Recorded R
      → Type 0
  Replays state before q answer served now r =
      let row = response_row state before q answer served now r in
      replay_objective q row (seen row before) ≡ as_stored before.recent_abilities r.state

  replay_objective-record_objective :
      (state : SessionState R) (before : ModuleRunState R) (q : Question R)
      (details : McqQuestionDetails R) (answer : SubmittedAnswer) (served : ServedQuestion)
      (now : ℕ) (r : Recorded R)
      → before.status ≡ ModuleRunStatus.in_progress
      → before.scoring_type ≡ objective
      → IsFilled answer
      → record_objective (shown_question before q) q details answer (suc state.answered_total)
        ≡ ok r
      → Replays state before q answer served now r
  unfolding record_objective replay_objective replay_probe response_row
  replay_objective-record_objective state before q details answer served now r running kind filled
        h =
      let (result, evaluated, made) = >>=-eq-ok (evaluate_objective details answer) _ h in
      subst (Replays state before q answer served now) (ok-injective made) (
        let c = is_true result.is_correct in
        let shown = shown_question before q in
        let scored = score_objective shown details c in
        let sequence_number = suc state.answered_total in
        let sig = signature shown.scoring_type (some c) [] (was_answered answer) in
        let chosen = is_some (chosen_option answer) || has_ranking (chosen_ordering answer) in
        let window =
          last_items stability_window (before.recent_abilities ++ round2 scored.ability ∷ []) in
        ap
          (λ m.
            register_probe m q.id q.probe_group sequence_number
              (if chosen then outcome c else unanswered))
          (scored_again before q details c (round2 scored.ability) running)
        ∙ ap
            (register_probe (with_estimate (round2 scored.ability) window scored) q.id q.probe_group
              sequence_number)
            (rw (has_choice-was_answered answer filled) (
              signature-objective shown.scoring_type c (was_answered answer) (
                ap (λ (k : ModuleRunConfig). k.scoring_type) (shown_question-config before q)
                ∙ kind)))
        ∙ register_probe-with_estimate (round2 scored.ability) window scored q.id q.probe_group
            sequence_number sig
        ∙ ap
            (λ a.
              with_estimate (round2 a)
                (last_items stability_window (before.recent_abilities ++ round2 a ∷ []))
                (register_probe scored q.id q.probe_group sequence_number sig))
            (sym (register_probe-ability scored q.id q.probe_group sequence_number sig)))

  pub replay_objective-with_mcq :
      (state : SessionState R) (before : ModuleRunState R) (q : Question R)
      (found : Option (McqQuestionDetails R)) (answer : SubmittedAnswer) (served : ServedQuestion)
      (now : ℕ) (r : Recorded R)
      → before.status ≡ ModuleRunStatus.in_progress
      → before.scoring_type ≡ objective
      → IsFilled answer
      → with_mcq q found (λ details.
        record_objective (shown_question before q) q details answer (suc state.answered_total))
        ≡ ok r
      → Replays state before q answer served now r
  replay_objective-with_mcq state before q none answer served now r running kind filled h = cc
  replay_objective-with_mcq state before q (some details) answer served now r running kind filled
        h =
      replay_objective-record_objective state before q details answer served now r running kind
        filled h
