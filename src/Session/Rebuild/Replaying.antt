-- ===== src/Session/Rebuild/Replaying.antt =====
-- Replaying a stored answer, against recording it: what both kinds of module share.
pub mod Objective
pub mod Traits
pub mod Answers
use adaptive_hire_exam_platf.Common.{
  last_items, ℕ, suc, ◌+◌, ◌++◌, ◌≡◌, ◌≢◌, refl, sym, ap, ◌∙◌, subst, Option, none, some, List, [],
  ◌∷◌, Bool, true, false, ◌||◌, String, arith, Bool-cases, inl, inr, if◌then◌else◌,
}
use adaptive_hire_exam_platf.Common.Equality.{includes, string_eq, ◌==◌}
use adaptive_hire_exam_platf.Failures.{Result, ok, failed, ◌>>=◌, >>=-eq-ok, ok-injective}
use adaptive_hire_exam_platf.Engine.Numbers.{Num, round2}
use adaptive_hire_exam_platf.Engine.Dict.{Dict}
use adaptive_hire_exam_platf.Engine.Types.{
  ModuleRunConfig, ModuleRunState, ModuleRunStatus, ScoringType, objective, trait, ProbeSignature,
  outcome, unanswered, EvaluationResult, TraitRange,
}
use adaptive_hire_exam_platf.Engine.Questions.{
  Question, PersonalityQuestionDetails, McqQuestionDetails,
}
use adaptive_hire_exam_platf.Engine.Probe.{
  mark_served, is_true, signature, record_probe, can_open_pair,
}
use adaptive_hire_exam_platf.Engine.Estimator.{information, track_ability}
use adaptive_hire_exam_platf.Engine.Constants.{stability_window}
use adaptive_hire_exam_platf.Engine.Estimator.Traits.{
  apply_weights, apply_ranges, apply_trait_weights,
}
use adaptive_hire_exam_platf.Engine.Evaluation.{evaluate_unanswered}
use adaptive_hire_exam_platf.Engine.Run.{
  score_trait, record_trait, record_answer, with_mcq, with_personality, record_by, SubmittedAnswer,
  was_answered, Recorded, mark_probe_served, register_probe, score_objective, evaluate_objective,
  record_objective, replay_probe, assert_answer_shape, evaluate_trait, range_for, is_ranking,
}
use adaptive_hire_exam_platf.Engine.Selector.Serving.{shown_question}
use adaptive_hire_exam_platf.Session.State.{SessionState, ServedQuestion, ResponseRow}
use adaptive_hire_exam_platf.Session.Finish.{response_row, chosen_option, chosen_ordering}
use adaptive_hire_exam_platf.Session.Rebuild.{
  is_some, replay_trait_answer, has_ranking, seen, with_pattern, with_weights, trait_signature,
  replay_trait, replay_by, replay_answer, replay_objective,
}

-- The answer has something in it; the request handler refuses one that has not.
abbrev pub IsFilled : SubmittedAnswer → Type 0
IsFilled SubmittedAnswer.unanswered = Unit {0}
IsFilled (SubmittedAnswer.option key) = key ≢ ""
IsFilled (SubmittedAnswer.ordering keys) = keys ≢ []

pub has_choice-was_answered :
    (answer : SubmittedAnswer)
    → IsFilled answer
    → (is_some (chosen_option answer) || has_ranking (chosen_ordering answer)) ≡ was_answered answer
has_choice-was_answered SubmittedAnswer.unanswered f = refl
has_choice-was_answered (SubmittedAnswer.option key) f = refl
has_choice-was_answered (SubmittedAnswer.ordering []) f = absurd (f refl)
has_choice-was_answered (SubmittedAnswer.ordering (k ∷ ks)) f = refl

abbrev pub served_after : List String → Option String → List String
served_after groups none = groups
served_after groups (some group) =
    if group == "" then groups else if includes group groups then groups else groups ++ group ∷ []

pub plus_one : (n : ℕ) → n + 1 ≡ suc n
plus_one n = omega arith

module _ {R : Type 0} where
  pub mark_probe_served_lem :
      (m : ModuleRunState R) (group : Option String)
      → mark_probe_served m group
        ≡ record m { served_probe_groups = served_after m.served_probe_groups group }
  unfolding mark_probe_served mark_served
  mark_probe_served_lem m none = refl
  mark_probe_served_lem m (some group) = ground arith

module _ {R : Type 0} ⦃num : Num R⦄ where
  -- A state with another estimate and another window of recent estimates.
  abbrev pub with_estimate : R → List R → ModuleRunState R → ModuleRunState R
  with_estimate ability recent_abilities m = record m {
    ability = ability;
    recent_abilities = recent_abilities;
  }

  -- A module's state with its newest estimate as the responses table keeps it: two decimals, in the
  -- estimate and at the end of the window, which the answer extended from `recent_abilities`.
  abbrev pub as_stored : List R → ModuleRunState R → ModuleRunState R
  as_stored recent_abilities m =
      with_estimate (round2 m.ability)
        (last_items stability_window (recent_abilities ++ round2 m.ability ∷ [])) m

  pub register_probe-ability :
      (m : ModuleRunState R) (id : ℕ) (group : Option String) (sequence_number : ℕ)
      (sig : ProbeSignature R)
      → (register_probe m id group sequence_number sig).ability ≡ m.ability
  unfolding register_probe record_probe
  register_probe-ability m id none sequence_number sig = refl
  register_probe-ability m id (some group) sequence_number sig = ground arith

  pub register_probe-with_estimate :
      (ability : R) (recent_abilities : List R) (m : ModuleRunState R) (id : ℕ)
      (group : Option String) (sequence_number : ℕ) (sig : ProbeSignature R)
      → register_probe (with_estimate ability recent_abilities m) id group sequence_number sig
        ≡ with_estimate ability recent_abilities (register_probe m id group sequence_number sig)
  unfolding register_probe record_probe can_open_pair
  register_probe-with_estimate ability recent_abilities m id none sequence_number sig = refl
  register_probe-with_estimate ability recent_abilities m id (some group) sequence_number sig =
      ground arith

  -- The module once its question is on screen.
  pub on_display :
      (before : ModuleRunState R) (q : Question R)
      → shown_question before q ≡ record before {
        seen_question_ids = before.seen_question_ids ++ q.id ∷ [];
        served_probe_groups = served_after before.served_probe_groups q.probe_group;
      }
  on_display before q =
      mark_probe_served_lem
        (record before { seen_question_ids = before.seen_question_ids ++ q.id ∷ [] }) q.probe_group

  pub shown_question-config :
      (before : ModuleRunState R) (q : Question R)
      → (shown_question before q).config ≡ before.config
  shown_question-config before q = rw (on_display before q) refl
