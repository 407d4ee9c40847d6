-- ===== src/Reports/Profiles/Evidence.antt =====
-- What a composite rests on.
use mathlib.Core.List.{Memᴰ}
use adaptive_hire_exam_platf.Common.{
  ◌≡◌, ◌↔◌, refl, ◌∙◌, Option, none, some, List, [], ◌∷◌, map, Bool, true, false, String, All,
  All-imp, All-map, Bool-cases, Option-cases, inl, inr,
}
use adaptive_hire_exam_platf.Common.Equality.{◌==◌, string_eq}
use adaptive_hire_exam_platf.Engine.Numbers.{Num}
use adaptive_hire_exam_platf.Engine.Selector.Picking.{order_by-All}
use adaptive_hire_exam_platf.Reports.Profiles.{
  ReportedTrait, ProfileDefinition, ProfileScore, Contribution, if_measured, if_reportable, by_key,
  present, composite, composites, contribution, heavier, total_weight, is_zero, behavioral_profiles,
  build_behavioral_profiles,
}

if_reportable-none_iff :
    {A B : Type 0} (b : Bool) (x : A) (y : B)
    → (if_reportable b x ≡ none) ↔ (if_reportable b y ≡ none)
if_reportable-none_iff true x y = (λ h. cc, λ h. cc)
if_reportable-none_iff false x y = (λ h. refl, λ h. refl)

module _ {R : Type 0} ⦃num : Num R⦄ (traits : List (ReportedTrait R)) where
  -- A trait that the report has and that was measured.
  abbrev pub IsMeasured : ReportedTrait R → Type 0
  IsMeasured t = Memᴰ t traits × (num.lt (num.of_ℕ 0) t.confidence ≡ true)

  -- A share of a composite that such a trait brings.
  pub record IsShare (c : Contribution R) : Type 0 where
    pub from : ReportedTrait R
    pub measured : IsMeasured from
    pub of_key : c.key ≡ from.key
    pub of_label : c.label ≡ from.label
    pub of_score : c.score ≡ from.score

  pub record IsSupported (profile : ProfileScore R) : Type 0 where
    pub banded : (profile.score ≡ none) ↔ (profile.band ≡ none)
    pub shares : All IsShare profile.contributions

module _ {R : Type 0} ⦃num : Num R⦄ where
  by_key-Memᴰ :
      (traits : List (ReportedTrait R)) (key : String) (t : ReportedTrait R)
      → by_key traits key ≡ some t
      → Memᴰ t traits
  unfolding by_key
  by_key-Memᴰ [] key t h = cc
  by_key-Memᴰ (x ∷ xs) key t h = elim (Option-cases (by_key xs key)) [
    | inl gone ↦ elim (Bool-cases (x.key == key)) [
      | inl here ↦ let same = rw (gone, here) at h in Memᴰ.head (cc same)
      | inr other ↦ let no = rw (gone, other) at h in cc no
    ]
    | inr (later, found) ↦
        let same = rw found at h in Memᴰ.tail (by_key-Memᴰ xs key t (found ∙ same))
  ]

  if_measured-All :
      (traits : List (ReportedTrait R)) (found : Option (ReportedTrait R)) (weight : R)
      (rest : List (ReportedTrait R × R))
      → ((t : ReportedTrait R) → found ≡ some t → Memᴰ t traits)
      → All (λ e. IsMeasured traits e.0) rest
      → All (λ e. IsMeasured traits e.0) (if_measured found weight rest)
  if_measured-All traits none weight rest f h = h
  if_measured-All traits (some t) weight rest f h =
      elim (Bool-cases (num.lt (num.of_ℕ 0) t.confidence)) [
        | inl measured ↦ rw measured ((f t refl, measured), h)
        | inr unmeasured ↦ rw unmeasured h
      ]

  present-All :
      (traits : List (ReportedTrait R)) (weights : List (String × R))
      → All (λ e. IsMeasured traits e.0) (present traits weights)
  unfolding present
  present-All traits [] = tt
  present-All traits ((key, weight) ∷ weights) =
      if_measured-All traits (by_key traits key) weight (present traits weights)
        (λ t e. by_key-Memᴰ traits key t e) (present-All traits weights)

  composite-IsSupported :
      (traits : List (ReportedTrait R)) (definition : ProfileDefinition R)
      (entries : List (ReportedTrait R × R))
      → All (λ e. IsMeasured traits e.0) entries
      → IsSupported traits (composite definition entries)
  unfolding composite
  composite-IsSupported traits definition entries h = record {
    banded = if_reportable-none_iff _ _ _;
    shares =
        order_by-All (IsShare traits) heavier (map (contribution (total_weight entries)) entries) (
          All-map (IsShare traits) (contribution (total_weight entries)) entries (
            All-imp (λ e. IsMeasured traits e.0)
              (λ e. IsShare traits (contribution (total_weight entries) e)) entries
              (λ e m. record {
                from = e.0;
                measured = m;
                of_key = refl;
                of_label = refl;
                of_score = refl;
              })
              h));
  }

  composites-IsSupported :
      (traits : List (ReportedTrait R)) (definitions : List (ProfileDefinition R))
      → All (IsSupported traits) (composites traits definitions)
  unfolding composites
  composites-IsSupported traits [] = tt
  composites-IsSupported traits (definition ∷ definitions) =
      let entries = present traits definition.weights in
      let rest = composites-IsSupported traits definitions in
      elim (Bool-cases (is_zero (total_weight entries))) [
        | inl empty ↦ rw empty rest
        | inr some_weight ↦ rw some_weight (
          composite-IsSupported traits definition entries (present-All traits definition.weights),
          rest,
        )
      ]

  -- Nothing in a composite is made up: every share comes from a trait that the report has with a
  -- confidence above zero, under its key, label and score; and a composite has a band exactly if it
  -- has a score.
  pub build_behavioral_profiles-IsSupported :
      (traits : List (ReportedTrait R))
      → All (IsSupported traits) (build_behavioral_profiles traits).profiles
  unfolding build_behavioral_profiles
  build_behavioral_profiles-IsSupported traits = composites-IsSupported traits behavioral_profiles
