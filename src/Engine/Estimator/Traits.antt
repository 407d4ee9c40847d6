-- ===== src/Engine/Estimator/Traits.antt =====
-- The trait half of
-- backend/src/adaptive-engine/ability-estimator/ability-estimator.service.ts: tallies, coverage,
-- consistency and the reported scores.
use adaptive_hire_exam_platf.Common.{
  ◌+◌, List, [], ◌∷◌, Option, none, some, String, ltb, length, if◌then◌else◌,
}
use adaptive_hire_exam_platf.Common.Equality.{◌==◌, nat_eq}
use adaptive_hire_exam_platf.Engine.Numbers.{Num, clamp, clamp01, max, negate, round1, round2}
use adaptive_hire_exam_platf.Engine.Constants.{
  consistency_min_samples, consistency_zero_at_stdev, trait_target_questions,
}
use adaptive_hire_exam_platf.Engine.Dict.{
  Dict, lookup, update_entry, set_entry, entry_keys, entry_values,
}
use adaptive_hire_exam_platf.Engine.Types.{ModuleRunState, TraitTally, TraitRange}
use adaptive_hire_exam_platf.Engine.Probe.Comparison.{mean}

pub record TraitScore (R : Type 0) : Type 0 where
  pub score : R
  pub confidence : R
  pub consistency : Option R

module _ {R : Type 0} ⦃num : Num R⦄ where
  abbrev pub empty_tally : TraitTally R
  empty_tally = record {
    sum = num.of_ℕ 0;
    count = 0;
    sum_squares = num.of_ℕ 0;
    chance_sum = none;
    best_sum = none;
    worst_sum = none;
  }

  abbrev pub tally_weight : R → TraitTally R → TraitTally R
  tally_weight weight tally = record tally {
    sum = num.plus tally.sum weight;
    count = tally.count + 1;
    sum_squares = num.plus tally.sum_squares (num.times weight weight);
  }

  -- `(sum ?? 0) + value`
  abbrev pub plus_or : Option R → R → R
  plus_or none value = num.plus (num.of_ℕ 0) value
  plus_or (some sum) value = num.plus sum value

  abbrev pub tally_range : TraitRange R → TraitTally R → TraitTally R
  tally_range range tally = record tally {
    chance_sum = some (plus_or tally.chance_sum range.chance);
    best_sum = some (plus_or tally.best_sum range.best);
    worst_sum = some (plus_or tally.worst_sum range.worst);
  }

  unfoldable pub apply_weights : Dict R → Dict (TraitTally R) → Dict (TraitTally R)
  unfolding update_entry
  apply_weights [] tallies = tallies
  apply_weights ((key, weight) ∷ ws) tallies =
      apply_weights ws (update_entry key empty_tally (tally_weight weight) tallies)

  unfoldable pub apply_ranges : Dict (TraitRange R) → Dict (TraitTally R) → Dict (TraitTally R)
  unfolding update_entry
  apply_ranges [] tallies = tallies
  apply_ranges ((key, range) ∷ ranges) tallies =
      apply_ranges ranges (update_entry key empty_tally (tally_range range) tallies)

  -- `ranges` left out is the empty object.
  unfoldable pub apply_trait_weights :
      Dict (TraitTally R) → Dict R → Dict (TraitRange R) → Dict (TraitTally R)
  unfolding apply_weights apply_ranges
  apply_trait_weights tallies ws ranges = apply_ranges ranges (apply_weights ws tallies)

  unfoldable pub trait_consistency : Option (TraitTally R) → Option R
  unfolding round2 clamp01 max
  trait_consistency none = none
  trait_consistency (some tally) =
      let average : R = num.divide tally.sum (num.of_ℕ tally.count) in
      let variance : R = max (num.of_ℕ 0) (
        num.minus (num.divide tally.sum_squares (num.of_ℕ tally.count))
          (num.times average average)) in
      if ltb tally.count consistency_min_samples
      then none
      else some (
          round2 (
            clamp01 (
              num.minus (num.of_ℕ 1)
                (num.divide (num.sqrt variance) (num.of_ℕ consistency_zero_at_stdev)))))

  abbrev pub keep_some : Option R → List R → List R
  keep_some none rs = rs
  keep_some (some r) rs = r ∷ rs

  unfoldable pub consistencies : List (TraitTally R) → List R
  unfolding trait_consistency
  consistencies [] = []
  consistencies (tally ∷ tallies) =
      keep_some (trait_consistency (some tally)) (consistencies tallies)

  unfoldable pub overall_consistency : ModuleRunState R → Option R
  unfolding consistencies mean round2
  overall_consistency state = elim (consistencies (entry_values state.trait_tallies)) [
    | [] ↦ none
    | r ∷ rs ↦ some (round2 (mean (r ∷ rs)))
  ]

  unfoldable pub trait_confidence : Option (TraitTally R) → R
  unfolding clamp01
  trait_confidence none = num.of_ℕ 0
  trait_confidence (some tally) =
      if tally.count == 0
      then num.of_ℕ 0
      else clamp01 (num.divide (num.of_ℕ tally.count) (num.of_ℕ trait_target_questions))

  abbrev pub mean_or_zero : Option (TraitTally R) → R
  mean_or_zero none = num.of_ℕ 0
  mean_or_zero (some tally) =
      if ltb 0 tally.count then num.divide tally.sum (num.of_ℕ tally.count) else num.of_ℕ 0

  -- The weights run from -3 to 3, a range of 6.
  unfoldable pub legacy_trait_score : Option (TraitTally R) → R
  unfolding clamp01 negate
  legacy_trait_score tally =
      num.times
        (clamp01 (num.divide (num.minus (mean_or_zero tally) (negate (num.of_ℕ 3))) (num.of_ℕ 6)))
        (num.of_ℕ 100)

  unfoldable pub scaled_score : R → R → R → R → R
  unfolding clamp max
  scaled_score sum chance best worst =
      let spread : R = max (num.minus best chance) (num.minus chance worst) in
      if num.lt (num.of_ℕ 0) spread
      then clamp
          (num.plus (num.of_ℕ 50)
            (num.times (num.of_ℕ 50) (num.divide (num.minus sum chance) spread)))
          (num.of_ℕ 0) (num.of_ℕ 100)
      else num.of_ℕ 50

  abbrev pub score_on : TraitTally R → Option R → Option R → Option R → R
  score_on tally (some chance) (some best) (some worst) = scaled_score tally.sum chance best worst
  score_on tally _ _ _ = legacy_trait_score (some tally)

  unfoldable pub trait_score : Option (TraitTally R) → R
  unfolding legacy_trait_score scaled_score
  trait_score none = legacy_trait_score none
  trait_score (some tally) = score_on tally tally.chance_sum tally.best_sum tally.worst_sum

  unfoldable pub scores_for :
      Dict (TraitTally R) → List String → Dict (TraitScore R) → Dict (TraitScore R)
  unfolding trait_score trait_confidence trait_consistency round1 round2 lookup update_entry
  scores_for tallies [] scores = scores
  scores_for tallies (key ∷ keys) scores = scores_for tallies keys (
      set_entry key
        (record {
          score = round1 (trait_score (lookup key tallies));
          confidence = round2 (trait_confidence (lookup key tallies));
          consistency = trait_consistency (lookup key tallies);
        })
        scores)

  -- `state.traits.length ? … : Object.keys(state.traitTallies)`
  abbrev pub trait_keys : ModuleRunState R → List String
  trait_keys state =
      if length state.traits == 0 then entry_keys state.trait_tallies else state.traits

  unfoldable pub trait_scores : ModuleRunState R → Dict (TraitScore R)
  unfolding scores_for
  trait_scores state = scores_for state.trait_tallies (trait_keys state) []
