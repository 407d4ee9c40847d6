-- ===== src/Reports/Profiles/Repeated.antt =====
-- What the composites make of a trait that two modules measured.
use adaptive_hire_exam_platf.Common.{
  ◌≡◌, refl, sym, ◌∙◌, none, some, List, [], ◌∷◌, ◌++◌, String, Option-cases, inl, inr,
}
use adaptive_hire_exam_platf.Common.Equality.{string_eq}
use adaptive_hire_exam_platf.Engine.Numbers.{Num}
use adaptive_hire_exam_platf.Reports.Profiles.{
  ReportedTrait, ProfileDefinition, by_key, present, composites, behavioral_profiles,
  build_behavioral_profiles,
}

module _ {R : Type 0} ⦃num : Num R⦄ where
  -- Every trait of the first list is in the second one too.
  abbrev pub IsRepeated : List (ReportedTrait R) → List (ReportedTrait R) → Type 0
  IsRepeated ts us = (key : String) → by_key us key ≡ none → by_key ts key ≡ none

  by_key-later :
      (ts us : List (ReportedTrait R)) (key : String) (t : ReportedTrait R)
      → by_key us key ≡ some t
      → by_key (ts ++ us) key ≡ some t
  unfolding by_key
  by_key-later [] us key t h = h
  by_key-later (x ∷ ts) us key t h = rw (by_key-later ts us key t h) refl

  by_key-earlier :
      (ts us : List (ReportedTrait R)) (key : String)
      → by_key us key ≡ none
      → by_key (ts ++ us) key ≡ by_key ts key
  unfolding by_key
  by_key-earlier [] us key h = h
  by_key-earlier (x ∷ ts) us key h = rw (by_key-earlier ts us key h) refl

  by_key-append :
      (ts us : List (ReportedTrait R)) (key : String)
      → IsRepeated ts us
      → by_key (ts ++ us) key ≡ by_key us key
  by_key-append ts us key h = elim (Option-cases (by_key us key)) [
    | inl gone ↦ by_key-earlier ts us key gone ∙ h key gone ∙ sym gone
    | inr (t, found) ↦ by_key-later ts us key t found ∙ sym found
  ]

  present-append :
      (ts us : List (ReportedTrait R)) (weights : List (String × R))
      → IsRepeated ts us
      → present (ts ++ us) weights ≡ present us weights
  unfolding present
  present-append ts us [] h = refl
  present-append ts us ((key, weight) ∷ weights) h =
      rw (by_key-append ts us key h, present-append ts us weights h) refl

  composites-append :
      (ts us : List (ReportedTrait R)) (definitions : List (ProfileDefinition R))
      → IsRepeated ts us
      → composites (ts ++ us) definitions ≡ composites us definitions
  unfolding composites
  composites-append ts us [] h = refl
  composites-append ts us (definition ∷ definitions) h =
      rw (present-append ts us definition.weights h, composites-append ts us definitions h) refl

  -- Where a later module reports every trait that the earlier ones reported, the composites and the
  -- index are those of the later module alone: what the earlier ones measured counts for nothing,
  -- even where the later module measured nothing.
  pub build_behavioral_profiles-append :
      (ts us : List (ReportedTrait R))
      → IsRepeated ts us
      → build_behavioral_profiles (ts ++ us) ≡ build_behavioral_profiles us
  unfolding build_behavioral_profiles
  build_behavioral_profiles-append ts us h = rw (composites-append ts us behavioral_profiles h) refl
