-- ===== src/Engine/Constants.antt =====
-- backend/src/adaptive-engine/adaptive-engine.constants.ts: the whole-number tunables, and the
-- position factor of a ranking.
use adaptive_hire_exam_platf.Common.{ℕ, ◌-◌, leb, if◌then◌else◌}
use adaptive_hire_exam_platf.Engine.Numbers.{Num}

abbrev pub starting_ability : ℕ
starting_ability = 1000

abbrev pub elo_d : ℕ
elo_d = 400

abbrev pub k_early : ℕ
k_early = 48

abbrev pub k_late : ℕ
k_late = 24

abbrev pub k_switch_after : ℕ
k_switch_after = 5

abbrev pub k_question : ℕ
k_question = 8

abbrev pub ability_prior_spread : ℕ
ability_prior_spread = 400

abbrev pub stability_window : ℕ
stability_window = 4

abbrev pub stability_band : ℕ
stability_band = 80

abbrev pub selector_shortlist_size : ℕ
selector_shortlist_size = 5

abbrev pub trait_target_questions : ℕ
trait_target_questions = 3

abbrev pub consistency_min_samples : ℕ
consistency_min_samples = 2

abbrev pub consistency_zero_at_stdev : ℕ
consistency_zero_at_stdev = 3

abbrev pub probe_gap_questions : ℕ
probe_gap_questions = 8

abbrev pub probe_max_pairs : ℕ
probe_max_pairs = 2

-- `TRAIT_WEIGHT_MAX - TRAIT_WEIGHT_MIN`, for weights from -3 to 3.
abbrev pub probe_agreement_zero_at : ℕ
probe_agreement_zero_at = 6

module _ {R : Type 0} ⦃num : Num R⦄ where
  -- 0.7 for an ability, 1 for a trait.
  abbrev pub ability_confidence_threshold : R
  ability_confidence_threshold = num.divide (num.of_ℕ 7) (num.of_ℕ 10)

  abbrev pub trait_confidence_threshold : R
  trait_confidence_threshold = num.of_ℕ 1

  unfoldable pub ranking_position_factor : ℕ → ℕ → R
  ranking_position_factor position total =
      if leb total 1
      then num.of_ℕ 1
      else num.times (num.of_ℕ 1) (
          num.minus (num.of_ℕ 1)
            (num.divide (num.times (num.of_ℕ 2) (num.of_ℕ position)) (num.of_ℕ (total - 1))))
