-- ===== src/Reports/Profiles.antt =====
-- backend/src/reports/behavioral-profiles.ts and the constants of report.constants.ts: the composites
-- of a candidate's traits, and the index over them.
pub mod Evidence
pub mod Repeated
use adaptive_hire_exam_platf.Common.{
  ℕ, Option, none, some, List, [], ◌∷◌, map, length, Bool, true, false, not, ◌&&◌, String,
  if◌then◌else◌,
}
use adaptive_hire_exam_platf.Common.Equality.{◌==◌, string_eq}
use adaptive_hire_exam_platf.Engine.Numbers.{Num, round1, round2}
use adaptive_hire_exam_platf.Engine.Selector.{order_by}

pub record ReportedTrait (R : Type 0) : Type 0 where
  pub key : String
  pub label : String
  pub score : R
  pub confidence : R
  pub consistency : Option R

pub record ProfileDefinition (R : Type 0) : Type 0 where
  pub key : String
  pub label : String
  pub description : String
  -- The trait's key and its share.
  pub weights : List (String × R)

pub data ProfileBand : Type 0 where
  strong moderate developing : ProfileBand

pub record Contribution (R : Type 0) : Type 0 where
  pub key : String
  pub label : String
  pub score : R
  pub weight : R

pub record ProfileScore (R : Type 0) : Type 0 where
  pub key : String
  pub label : String
  pub description : String
  pub score : Option R
  pub confidence : R
  pub band : Option ProfileBand
  pub contributions : List (Contribution R)

pub record BehavioralAssessment (R : Type 0) : Type 0 where
  pub profiles : List (ProfileScore R)
  pub index : Option R
  pub confidence : R

abbrev pub if_reportable {ℓ} : {A : Type ℓ} → Bool → A → Option A
if_reportable true a = some a
if_reportable false a = none

module _ {R : Type 0} ⦃num : Num R⦄ where
  -- A decimal with two digits.
  abbrev pub hundredths : ℕ → R
  hundredths n = num.divide (num.of_ℕ n) (num.of_ℕ 100)

  -- `MIN_TRAIT_CONFIDENCE`
  abbrev pub min_trait_confidence : R
  min_trait_confidence = hundredths 50

  abbrev pub behavioral_strong_at : R
  behavioral_strong_at = num.of_ℕ 65

  abbrev pub behavioral_moderate_at : R
  behavioral_moderate_at = num.of_ℕ 45

  unfoldable pub behavioral_profiles : List (ProfileDefinition R)
  behavioral_profiles =
      record {
        key = "leadership_readiness";
        label = "Leadership Readiness";
        description = "Takes charge of a situation, sets direction and carries others with them.";
        weights =
            ("leadership", hundredths 35)
            ∷ ("ownership", hundredths 20)
            ∷ ("communication", hundredths 20)
            ∷ ("accountability", hundredths 15)
            ∷ ("risk_tolerance", hundredths 10)
            ∷ [];
      }
      ∷ record {
        key = "collaboration";
        label = "Team Collaboration";
        description = "Works with and through other people rather than around them.";
        weights =
            ("teamwork", hundredths 35)
            ∷ ("empathy", hundredths 30)
            ∷ ("communication", hundredths 25)
            ∷ ("integrity", hundredths 10)
            ∷ [];
      }
      ∷ record {
        key = "reliability";
        label = "Reliability & Follow-Through";
        description = "Owns commitments and closes them out without being chased.";
        weights =
            ("accountability", hundredths 35)
            ∷ ("ownership", hundredths 30)
            ∷ ("integrity", hundredths 25)
            ∷ ("resilience", hundredths 10)
            ∷ [];
      }
      ∷ record {
        key = "resilience_under_pressure";
        label = "Adaptability Under Pressure";
        description = "Holds up and re-plans when the situation changes or the pressure rises.";
        weights =
            ("adaptability", hundredths 40)
            ∷ ("resilience", hundredths 35)
            ∷ ("risk_tolerance", hundredths 15)
            ∷ ("ownership", hundredths 10)
            ∷ [];
      }
      ∷ record {
        key = "integrity_judgment";
        label = "Integrity & Judgment";
        description = "Makes the defensible call when the convenient one is available.";
        weights =
            ("integrity", hundredths 50)
            ∷ ("accountability", hundredths 25)
            ∷ ("ownership", hundredths 15)
            ∷ ("empathy", hundredths 10)
            ∷ [];
      }
      ∷ []

  -- `a >= b`
  abbrev pub at_least : R → R → Bool
  at_least a b = not (num.lt a b)

  -- `x === 0`
  abbrev pub is_zero : R → Bool
  is_zero x = not (num.lt x (num.of_ℕ 0)) && not (num.lt (num.of_ℕ 0) x)

  -- `reduce((sum, x) => sum + x, start)`
  unfoldable pub sum_from : R → List R → R
  sum_from start [] = start
  sum_from start (x ∷ xs) = sum_from (num.plus start x) xs

  unfoldable pub mean : List R → R
  unfolding sum_from
  mean xs = num.divide (sum_from (num.of_ℕ 0) xs) (num.of_ℕ (length xs))

  -- `new Map(traits.map((trait) => [trait.key, trait])).get(key)`: the last one wins.
  unfoldable pub by_key : List (ReportedTrait R) → String → Option (ReportedTrait R)
  by_key [] key = none
  by_key (t ∷ ts) key = elim (by_key ts key) [
    | some later ↦ some later
    | none ↦ if t.key == key then some t else none
  ]

  abbrev pub if_measured :
      Option (ReportedTrait R) → R → List (ReportedTrait R × R) → List (ReportedTrait R × R)
  if_measured none weight rest = rest
  if_measured (some t) weight rest =
      if num.lt (num.of_ℕ 0) t.confidence then (t, weight) ∷ rest else rest

  unfoldable pub present : List (ReportedTrait R) → List (String × R) → List (ReportedTrait R × R)
  unfolding by_key
  present traits [] = []
  present traits ((key, weight) ∷ weights) =
      if_measured (by_key traits key) weight (present traits weights)

  abbrev pub total_weight : List (ReportedTrait R × R) → R
  total_weight entries = sum_from (num.of_ℕ 0) (map (λ (e : ReportedTrait R × R). e.1) entries)

  -- The weighted mean of a figure of the traits.
  unfoldable pub weighted : (ReportedTrait R → R) → List (ReportedTrait R × R) → R
  unfolding sum_from
  weighted figure entries =
      num.divide
        (sum_from (num.of_ℕ 0)
          (map (λ (e : ReportedTrait R × R). num.times (figure e.0) e.1) entries))
        (total_weight entries)

  unfoldable pub band_for : R → ProfileBand
  band_for score =
      if at_least score behavioral_strong_at
      then strong
      else if at_least score behavioral_moderate_at
      then moderate
      else developing

  abbrev pub contribution : R → ReportedTrait R × R → Contribution R
  contribution total (t, weight) = record {
    key = t.key;
    label = t.label;
    score = t.score;
    weight = round2 (num.divide weight total);
  }

  abbrev pub heavier : Contribution R → Contribution R → Bool
  heavier a b = num.lt b.weight a.weight

  -- One composite, from the traits that bear on it.
  unfoldable pub composite : ProfileDefinition R → List (ReportedTrait R × R) → ProfileScore R
  unfolding weighted round1 round2 band_for order_by
  composite definition entries =
      let score : R = weighted (λ t. t.score) entries in
      let confidence : R = weighted (λ t. t.confidence) entries in
      let reportable : Bool = at_least confidence min_trait_confidence in
      record {
        key = definition.key;
        label = definition.label;
        description = definition.description;
        score = if_reportable reportable (round1 score);
        confidence = round2 confidence;
        band = if_reportable reportable (band_for score);
        contributions = order_by heavier (map (contribution (total_weight entries)) entries);
      }

  abbrev pub if_any :
      ProfileDefinition R
      → List (ReportedTrait R × R)
      → List (ProfileScore R)
      → List (ProfileScore R)
  if_any definition entries rest =
      if is_zero (total_weight entries) then rest else composite definition entries ∷ rest

  -- The loop over the definitions.
  unfoldable pub composites :
      List (ReportedTrait R) → List (ProfileDefinition R) → List (ProfileScore R)
  unfolding present composite
  composites traits [] = []
  composites traits (definition ∷ definitions) =
      if_any definition (present traits definition.weights) (composites traits definitions)

  abbrev pub if_scored : Option R → List R → List R
  if_scored none rest = rest
  if_scored (some score) rest = score ∷ rest

  unfoldable pub scores_of : List (ProfileScore R) → List R
  scores_of [] = []
  scores_of (profile ∷ profiles) = if_scored profile.score (scores_of profiles)

  abbrev pub mean_or_none : List R → Option R
  mean_or_none [] = none
  mean_or_none (x ∷ xs) = some (round1 (mean (x ∷ xs)))

  unfoldable pub behavioral_index : List (ProfileScore R) → Option R
  unfolding mean round1 scores_of
  behavioral_index profiles = mean_or_none (scores_of profiles)

  abbrev pub mean_confidence : List (ProfileScore R) → R
  mean_confidence [] = num.of_ℕ 0
  mean_confidence (p ∷ ps) =
      round2 (mean (map (λ (profile : ProfileScore R). profile.confidence) (p ∷ ps)))

  unfoldable pub build_behavioral_profiles : List (ReportedTrait R) → BehavioralAssessment R
  unfolding composites behavioral_index mean round2 behavioral_profiles
  build_behavioral_profiles traits =
      let profiles : List (ProfileScore R) = composites traits behavioral_profiles in
      record {
        profiles = profiles;
        index = behavioral_index profiles;
        confidence = mean_confidence profiles;
      }
