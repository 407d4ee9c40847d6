-- ===== src/Reports/Builder.antt =====
-- backend/src/reports/report-builder.ts: the figures, the recommendation and the findings of a report.
-- A finding is the data of its line; the wording of the lines and the narrative are left out.
pub mod Recommending
pub mod Findings
use adaptive_hire_exam_platf.Common.{
  ℕ, ◌+◌, Option, none, some, List, [], ◌∷◌, ◌++◌, map, filter, Bool, true, false, ◌&&◌, String,
  ltb, leb, if◌then◌else◌,
}
use adaptive_hire_exam_platf.Common.Equality.{◌==◌, nat_eq}
use adaptive_hire_exam_platf.Engine.Numbers.{Num, round1, max, min}
use adaptive_hire_exam_platf.Engine.Types.{ScoringType, objective, trait}
use adaptive_hire_exam_platf.Reports.Profiles.{
  ReportedTrait, ProfileScore, ProfileBand, strong, developing, BehavioralAssessment, hundredths,
  at_least, sum_from, mean, build_behavioral_profiles,
}

pub data HiringRecommendation : Type 0 where
  strongly_recommended recommended borderline not_recommended : HiringRecommendation

pub record ModuleSummary (R : Type 0) : Type 0 where
  pub module_id : ℕ
  pub name : String
  pub scoring_type : ScoringType
  pub score : Option R
  pub questions_answered : ℕ
  pub question_count : ℕ
  pub traits : List (ReportedTrait R)

-- A line under "Strengths" or "Weaknesses".
pub data Finding (R : Type 0) : Type 0 where
  section_finding : (name : String) (score : R) → Finding R
  trait_finding : (label : String) (score : R) → Finding R
  profile_finding : (label : String) (score : Option R) → Finding R
  thin_section : (name : String) (answered asked : ℕ) → Finding R

pub record BuiltReport (R : Type 0) : Type 0 where
  pub strengths : List (Finding R)
  pub weaknesses : List (Finding R)
  pub hiring_recommendation : Option HiringRecommendation
  pub overall_score : Option R
  pub ability_score : Option R
  pub behavioral_score : Option R
  pub profiles : List (ProfileScore R)

abbrev pub min_finding_answers : ℕ
min_finding_answers = 3

abbrev pub is_objective : ScoringType → Bool
is_objective objective = true
is_objective trait = false

abbrev pub is_strong : Option ProfileBand → Bool
is_strong (some strong) = true
is_strong _ = false

abbrev pub is_developing : Option ProfileBand → Bool
is_developing (some developing) = true
is_developing _ = false

abbrev pub capped : HiringRecommendation → HiringRecommendation
capped strongly_recommended = borderline
capped recommended = borderline
capped banded = banded

-- `reduce((total, module) => total + …, 0)`
abbrev pub total_of {ℓ} : {A : Type ℓ} → (A → ℕ) → List A → ℕ
total_of f [] = 0
total_of f (x ∷ xs) = f x + total_of f xs

module _ {R : Type 0} where
  abbrev pub is_attempted : ModuleSummary R → Bool
  is_attempted m = is_objective m.scoring_type && ltb 0 m.questions_answered

  abbrev pub traits_of : List (ModuleSummary R) → List (ReportedTrait R)
  traits_of [] = []
  traits_of (m ∷ ms) = m.traits ++ traits_of ms

  abbrev pub is_established : ModuleSummary R → Bool
  is_established m = leb min_finding_answers m.questions_answered

  abbrev pub thin_finding : ModuleSummary R → List (Finding R)
  thin_finding m =
      if ltb 0 m.questions_answered && ltb m.questions_answered m.question_count
      then thin_section m.name m.questions_answered m.question_count ∷ []
      else []

module _ {R : Type 0} ⦃num : Num R⦄ where
  abbrev pub strong_score : R
  strong_score = num.of_ℕ 65

  abbrev pub weak_score : R
  weak_score = num.of_ℕ 35

  abbrev pub strongly_recommended_at : R
  strongly_recommended_at = num.of_ℕ 75

  abbrev pub recommended_at : R
  recommended_at = num.of_ℕ 55

  abbrev pub borderline_at : R
  borderline_at = num.of_ℕ 40

  abbrev pub min_coverage_ratio : R
  min_coverage_ratio = hundredths 60

  abbrev pub min_finding_confidence : R
  min_finding_confidence = hundredths 80

  unfoldable pub expected_correct_by_chance : List ℕ → Option R
  unfolding round1 sum_from
  expected_correct_by_chance option_counts = summed (filter (λ count. ltb 0 count) option_counts)
    where
      summed : List ℕ → Option R
      summed [] = none
      summed (count ∷ counts) = some (
          round1 (
            sum_from (num.of_ℕ 0)
              (map (λ n. num.divide (num.of_ℕ 1) (num.of_ℕ n)) (count ∷ counts))))

  -- Between `ABILITY_FLOOR` and `ABILITY_CEILING`.
  unfoldable pub normalise_ability : R → R
  unfolding round1 max min
  normalise_ability ability =
      let span : R = num.minus (num.of_ℕ 1400) (num.of_ℕ 600) in
      let ratio : R = num.divide (num.minus ability (num.of_ℕ 600)) span in
      round1 (num.times (min (num.of_ℕ 1) (max (num.of_ℕ 0) ratio)) (num.of_ℕ 100))

  abbrev pub weighted_part : Option R → R → List (R × R)
  weighted_part none weight = []
  weighted_part (some score) weight = (score, weight) ∷ []

  abbrev pub blended : List (R × R) → Option R
  blended [] = none
  blended (part ∷ parts) = some (
      round1 (
        num.divide (sum_from (num.of_ℕ 0) (map (λ (p : R × R). num.times p.0 p.1) (part ∷ parts)))
          (sum_from (num.of_ℕ 0) (map (λ (p : R × R). p.1) (part ∷ parts)))))

  unfoldable pub blend_scores : Option R → Option R → Option R
  unfolding round1 sum_from
  blend_scores ability_score behavioral_score = blended (
      weighted_part ability_score (hundredths 70) ++ weighted_part behavioral_score (hundredths 30))

  unfoldable pub banded : R → HiringRecommendation
  banded score =
      if at_least score strongly_recommended_at
      then strongly_recommended
      else if at_least score recommended_at
      then recommended
      else if at_least score borderline_at
      then borderline
      else not_recommended

  unfoldable pub recommend : Option R → R → Option HiringRecommendation
  unfolding banded
  recommend none coverage = none
  recommend (some score) coverage =
      some (if at_least coverage min_coverage_ratio then banded score else capped (banded score))

  unfoldable pub coverage_ratio : List (ModuleSummary R) → R
  unfolding min
  coverage_ratio modules =
      let expected : ℕ = total_of (λ (m : ModuleSummary R). m.question_count) modules in
      let answered : ℕ = total_of (λ (m : ModuleSummary R). m.questions_answered) modules in
      if expected == 0
      then num.of_ℕ 1
      else min (num.of_ℕ 1) (num.divide (num.of_ℕ answered) (num.of_ℕ expected))

  -- A score is null in a module without one, which fails every test.
  abbrev pub section_if : (R → Bool) → ModuleSummary R → Option R → List (Finding R)
  section_if test m none = []
  section_if test m (some score) =
      if test score && is_established m then section_finding m.name score ∷ [] else []

  abbrev pub established_traits : List (ReportedTrait R) → List (ReportedTrait R)
  established_traits =
      filter (λ (t : ReportedTrait R). at_least t.confidence min_finding_confidence)

  abbrev pub established_profiles : List (ProfileScore R) → List (ProfileScore R)
  established_profiles =
      filter (λ (p : ProfileScore R). at_least p.confidence min_finding_confidence)

  unfoldable pub trait_findings : (R → Bool) → List (ReportedTrait R) → List (Finding R)
  trait_findings test traits =
      map (λ (t : ReportedTrait R). trait_finding t.label t.score)
        (filter (λ (t : ReportedTrait R). test t.score) (established_traits traits))

  unfoldable pub profile_findings :
      (Option ProfileBand → Bool) → List (ProfileScore R) → List (Finding R)
  profile_findings test profiles =
      map (λ (p : ProfileScore R). profile_finding p.label p.score)
        (filter (λ (p : ProfileScore R). test p.band) (established_profiles profiles))

  -- The loops over the modules.
  unfoldable pub strong_sections : List (ModuleSummary R) → List (Finding R)
  unfolding trait_findings
  strong_sections [] = []
  strong_sections (m ∷ ms) =
      section_if (λ score. at_least score strong_score) m m.score
      ++ (trait_findings (λ score. at_least score strong_score) m.traits ++ strong_sections ms)

  unfoldable pub weak_sections : List (ModuleSummary R) → List (Finding R)
  unfolding trait_findings
  weak_sections [] = []
  weak_sections (m ∷ ms) =
      section_if (λ score. at_least weak_score score) m m.score
      ++ (trait_findings (λ score. at_least weak_score score) m.traits
          ++ (thin_finding m ++ weak_sections ms))

  unfoldable pub collect_strengths :
      List (ModuleSummary R) → BehavioralAssessment R → List (Finding R)
  unfolding strong_sections profile_findings
  collect_strengths modules behavioral =
      strong_sections modules ++ profile_findings is_strong behavioral.profiles

  unfoldable pub collect_weaknesses :
      List (ModuleSummary R) → BehavioralAssessment R → List (Finding R)
  unfolding weak_sections profile_findings
  collect_weaknesses modules behavioral =
      weak_sections modules ++ profile_findings is_developing behavioral.profiles

  abbrev pub score_or_zero : Option R → R
  score_or_zero none = num.of_ℕ 0
  score_or_zero (some score) = score

  abbrev pub mean_score : List (ModuleSummary R) → Option R
  mean_score [] = none
  mean_score (m ∷ ms) =
      some (round1 (mean (map (λ (x : ModuleSummary R). score_or_zero x.score) (m ∷ ms))))

  unfoldable pub build_report : List (ModuleSummary R) → BuiltReport R
  unfolding mean round1 build_behavioral_profiles blend_scores coverage_ratio recommend
      collect_strengths collect_weaknesses
  build_report modules =
      let ability_score : Option R = mean_score (filter is_attempted modules) in
      let behavioral : BehavioralAssessment R = build_behavioral_profiles (traits_of modules) in
      let overall_score : Option R = blend_scores ability_score behavioral.index in
      record {
        strengths = collect_strengths modules behavioral;
        weaknesses = collect_weaknesses modules behavioral;
        hiring_recommendation = recommend overall_score (coverage_ratio modules);
        overall_score = overall_score;
        ability_score = ability_score;
        behavioral_score = behavioral.index;
        profiles = behavioral.profiles;
      }
