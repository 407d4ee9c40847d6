-- ===== src/Engine/Estimator.antt =====
-- backend/src/adaptive-engine/ability-estimator/ability-estimator.service.ts: the Elo update, the
-- precision and stability of an estimate, and the tallies of a trait.
pub mod Traits
use adaptive_hire_exam_platf.Common.{
  ℕ, List, [], ◌∷◌, ◌++◌, Bool, true, false, not, ltb, leb, length, last_items, if◌then◌else◌,
}
use adaptive_hire_exam_platf.Engine.Numbers.{Num, clamp01, min, largest, smallest}
use adaptive_hire_exam_platf.Engine.Constants.{
  elo_d, k_early, k_late, k_switch_after, k_question, ability_prior_spread, stability_window,
  stability_band,
}
use adaptive_hire_exam_platf.Engine.Types.{ModuleRunState}

pub record AbilityUpdate (R : Type 0) : Type 0 where
  pub ability : R
  pub question_difficulty : R
  pub expected : R

module _ {R : Type 0} ⦃num : Num R⦄ where
  unfoldable pub expected_score : R → R → R
  expected_score ability difficulty = num.divide (num.of_ℕ 1) (
      num.plus (num.of_ℕ 1)
        (num.power_of_ten (num.divide (num.minus difficulty ability) (num.of_ℕ elo_d))))

  -- `isCorrect ? 1 : 0`
  abbrev pub actual_score : Bool → R
  actual_score is_correct = if is_correct then num.of_ℕ 1 else num.of_ℕ 0

  unfoldable pub update : R → R → Bool → ℕ → AbilityUpdate R
  unfolding expected_score
  update ability question_difficulty is_correct answered_so_far = record {
    ability = num.plus ability (num.times k (num.minus (actual_score is_correct) expected));
    question_difficulty =
        num.plus question_difficulty
          (num.times (num.of_ℕ k_question) (num.minus expected (actual_score is_correct)));
    expected = expected;
  }
    where
      expected : R
      expected = expected_score ability question_difficulty

      k : R
      k = num.of_ℕ (if ltb answered_so_far k_switch_after then k_early else k_late)

  unfoldable pub information : R → R → R
  unfolding expected_score
  information ability difficulty =
      let p : R = expected_score ability difficulty in
      let logits_per_elo_point : R = num.divide num.ln10 (num.of_ℕ elo_d) in
      num.times (num.times p (num.minus (num.of_ℕ 1) p))
        (num.times logits_per_elo_point logits_per_elo_point)

  unfoldable pub standard_error : R → R
  standard_error info =
      if num.lt (num.of_ℕ 0) info then num.divide (num.of_ℕ 1) (num.sqrt info) else num.infinity

  unfoldable pub precision_confidence : ModuleRunState R → R
  unfolding standard_error clamp01
  precision_confidence state =
      let se : R = standard_error state.information in
      if not (num.is_finite se)
      then num.of_ℕ 0
      else clamp01 (num.minus (num.of_ℕ 1) (num.divide se (num.of_ℕ ability_prior_spread)))

  unfoldable pub stability_confidence : ModuleRunState R → R
  unfolding largest smallest clamp01
  stability_confidence state =
      let window : List R = last_items stability_window state.recent_abilities in
      if ltb (length window) stability_window
      then num.of_ℕ 0
      else clamp01 (
          num.minus (num.of_ℕ 1)
            (num.divide (num.minus (largest window) (smallest window)) (num.of_ℕ stability_band)))

  unfoldable pub ability_confidence : ModuleRunState R → R
  unfolding precision_confidence stability_confidence min
  ability_confidence state = min (precision_confidence state) (stability_confidence state)

module _ {R : Type 0} where
  -- Appends an estimate to the trailing window, and trims it.
  unfoldable pub track_ability : ModuleRunState R → R → ModuleRunState R
  track_ability state ability = record state {
    recent_abilities = last_items stability_window (state.recent_abilities ++ ability ∷ []);
  }
