-- ===== src/Tests/Engine.antt =====
-- Runs of the engine.
use mathlib.Core.List.{List, [], ◌∷◌, Mem, Nodup, Nodup-cons, Nodup-nil, not-mem-nil, Perm}
use adaptive_hire_exam_platf.Common.Orders.{includes_iff}
use mathlib.Core.Path.{◌≡◌, refl}
use mathlib.Core.Logic.{◌≢◌, ◌↔◌, ◌⊎◌}
use mathlib.Core.Bool.{true}
use mathlib.Core.Option.{none, some}
use adaptive_hire_exam_platf.Common.{ℕ, suc, map, length, All, arith, String}
use adaptive_hire_exam_platf.Common.Equality.{string_eq, includes}
use adaptive_hire_exam_platf.Failures.{Result, ok, failed, IsOk}
use adaptive_hire_exam_platf.Engine.Types.{outcome}
use adaptive_hire_exam_platf.Engine.Questions.{personality_keys}
use adaptive_hire_exam_platf.Engine.Probe.{due_twin, due_in, blocked_groups, record_probe}
use adaptive_hire_exam_platf.Engine.Probe.Blocking.{IsDue, due_twin_iff, blocked_groups_iff}
use adaptive_hire_exam_platf.Engine.Probe.Pairs.{ProbesInv, record_probe-ProbesInv}
use adaptive_hire_exam_platf.Engine.Evaluation.{
  evaluate_ranking, evaluate_personality, achievable_trait_range,
}
use adaptive_hire_exam_platf.Engine.Evaluation.Permutations.{permutations}
use adaptive_hire_exam_platf.Engine.Evaluation.Orderings.{permutations-Perm, factorial}
use adaptive_hire_exam_platf.Engine.Evaluation.Ranking.{
  evaluate_ranking_iff, evaluate_personality_iff, achievable_trait_range-IsOk,
}
use adaptive_hire_exam_platf.Engine.Run.{
  personality_update, SubmittedAnswer, Recorded, record_answer,
}
use adaptive_hire_exam_platf.Engine.Run.Answers.{ModuleInv, Counted, record_answer-Counted}
use adaptive_hire_exam_platf.Tests.Fixtures.{whole, logic_module, logic_question, ranking_details}

-- The module's probes are in order before its tenth answer.
logic-ProbesInv : ProbesInv 0 logic_module
logic-ProbesInv = record {
  few = omega arith;
  each =
      (record { numbered = omega arith; asked = omega arith; room = omega arith; spaced = tt }, tt);
  single = (λ o. refl, tt);
}

pub logic-ModuleInv : ModuleInv 0 logic_module
logic-ModuleInv = record {
  within = omega arith;
  right = omega arith;
  window = omega arith;
  paired = logic-ProbesInv;
}

logic_due : due_twin logic_module ≡ some "syllogism"
unfolding due_twin due_in
logic_due = refl

due_twin_iff_example :
    (due_twin logic_module ≡ some "syllogism")
    ↔ IsDue logic_module.answered "syllogism" logic_module.probes
due_twin_iff_example = due_twin_iff logic_module "syllogism"

named_group : ◌≢◌ {A = String} "syllogism" ""
named_group h = cc

blocked_groups_iff_example : (includes "syllogism" (blocked_groups logic_module) ≡ true) ↔ (
    ((includes "syllogism" logic_module.served_probe_groups ≡ true)
      ⊎ (includes "syllogism" (map (λ pair. pair.group) logic_module.probes) ≡ true))
    × (due_twin logic_module ≢ some "syllogism"))
blocked_groups_iff_example = blocked_groups_iff logic_module "syllogism" named_group

record_probe-ProbesInv_example : ProbesInv 0 (
    record_probe
      (record logic_module { answered = suc logic_module.answered })
      "syllogism"
      41
      10
      (outcome true))
record_probe-ProbesInv_example =
    record_probe-ProbesInv "syllogism" 41 10 (outcome true) 0 logic_module logic-ProbesInv
      (λ opened. logic_due) (omega arith)

-- What the engine makes of the tenth answer; the other case does not arise.
abbrev pub recorded_of : Result (Recorded ℕ) → Recorded ℕ
recorded_of (ok r) = r
recorded_of (failed e) = record {
  state = logic_module;
  outcome = record {
    is_correct = none;
    ability_estimate_after = none;
    question_difficulty_at_serve = none;
  };
  item_update = personality_update 0;
}

abbrev tenth : Recorded ℕ
tenth = recorded_of (record_answer logic_module logic_question (SubmittedAnswer.option "b") 10)

tenth-ok : record_answer logic_module logic_question (SubmittedAnswer.option "b") 10 ≡ ok tenth
unfolding record_answer
tenth-ok = refl

record_answer-Counted_example : Counted 0 logic_module tenth.state
record_answer-Counted_example =
    record_answer-Counted 0 logic_module logic_question (SubmittedAnswer.option "b") 10
      logic-ModuleInv (omega arith) (λ named opened. logic_due) (omega arith) tenth tenth-ok

apart : ¬ Mem {A = String} "x" ("y" ∷ [])
unfolding includes
apart m = cc ((includes_iff {A = String} "x" ("y" ∷ [])).1 m)

distinct_keys : Nodup (personality_keys ranking_details)
distinct_keys = Nodup-cons.1 (apart, Nodup-cons.1 (not-mem-nil, Nodup-nil))

evaluate_ranking_iff_example :
    IsOk (evaluate_ranking ranking_details ("y" ∷ "x" ∷ []))
    ↔ Perm ("y" ∷ "x" ∷ []) (personality_keys ranking_details)
evaluate_ranking_iff_example = evaluate_ranking_iff ranking_details ("y" ∷ "x" ∷ []) distinct_keys

evaluate_personality_iff_example :
    IsOk (evaluate_personality ranking_details "x")
    ↔ (includes "x" (personality_keys ranking_details) ≡ true)
evaluate_personality_iff_example = evaluate_personality_iff ranking_details "x"

achievable_trait_range-IsOk_example : IsOk (achievable_trait_range ranking_details true)
achievable_trait_range-IsOk_example = achievable_trait_range-IsOk ranking_details true distinct_keys

abbrev three : List ℕ
three = 1 ∷ 2 ∷ 3 ∷ []

permutations-Perm_example :
    All (λ o. Perm o three) (permutations three)
    × ((o : List ℕ) → Perm o three → Mem o (permutations three))
    × (length (permutations three) ≡ factorial (length three))
permutations-Perm_example = permutations-Perm three
