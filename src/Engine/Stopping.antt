-- ===== src/Engine/Stopping.antt =====
-- backend/src/adaptive-engine/stopping-engine/stopping-engine.service.ts: when a module is over.
use adaptive_hire_exam_platf.Common.{
  ℕ, List, [], ◌∷◌, map, Option, none, some, Bool, false, not, leb, if◌then◌else◌,
}
use adaptive_hire_exam_platf.Common.Equality.{◌==◌, nat_eq}
use adaptive_hire_exam_platf.Engine.Numbers.{Num, smallest}
use adaptive_hire_exam_platf.Engine.Constants.{
  ability_confidence_threshold, trait_confidence_threshold,
}
use adaptive_hire_exam_platf.Engine.Dict.{lookup}
use adaptive_hire_exam_platf.Engine.Types.{
  ModuleRunState, ModuleStopReason, time_expired, max_questions, ScoringType, objective, trait,
}
use adaptive_hire_exam_platf.Engine.Estimator.{ability_confidence}
use adaptive_hire_exam_platf.Engine.Estimator.Traits.{trait_confidence, trait_keys}

-- `bound !== null && now >= bound`
abbrev pub reached : Option ℕ → ℕ → Bool
reached none now = false
reached (some bound) now = leb bound now

module _ {R : Type 0} where
  -- `some reason` is a decision to stop, `none` is `CONTINUE`.
  unfoldable pub should_stop : ModuleRunState R → ℕ → Option ModuleStopReason
  should_stop state now =
      if reached state.deadline_at now
      then some time_expired
      else if leb state.question_count state.answered
      then some max_questions
      else none

module _ {R : Type 0} ⦃num : Num R⦄ where
  abbrev weakest : List R → R
  weakest [] = num.of_ℕ 0
  weakest (r ∷ rs) = smallest (r ∷ rs)

  abbrev confidence_by : ScoringType → ModuleRunState R → R
  confidence_by objective state = ability_confidence state
  confidence_by trait state =
      weakest (map (λ key. trait_confidence (lookup key state.trait_tallies)) (trait_keys state))

  unfoldable pub confidence : ModuleRunState R → R
  unfolding ability_confidence trait_confidence smallest lookup
  confidence state = confidence_by state.scoring_type state

  abbrev threshold : ScoringType → R
  threshold objective = ability_confidence_threshold
  threshold trait = trait_confidence_threshold

  unfoldable pub threshold_met : ModuleRunState R → Bool
  unfolding confidence
  threshold_met state =
      if state.answered == 0
      then false
      else not (num.lt (confidence state) (threshold state.scoring_type))
