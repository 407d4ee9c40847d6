-- ===== src/Reports/Builder/Findings.antt =====
-- The findings of a report, and the evidence behind each of them.
use mathlib.Core.List.{Memᴰ}
use adaptive_hire_exam_platf.Common.{
  ◌≤◌, ◌<◌, ◌≡◌, refl, Option, none, some, List, [], ◌∷◌, filter, Bool, true, false, All, All-imp,
  All-append, All-map, All-lookup, filter-Memᴰ, arith, ltb, ◌&&◌, Bool-cases, inl, inr,
}
use adaptive_hire_exam_platf.Engine.Numbers.{Num}
use adaptive_hire_exam_platf.Reports.Profiles.{
  ReportedTrait, ProfileScore, ProfileBand, BehavioralAssessment, at_least,
}
use adaptive_hire_exam_platf.Reports.Builder.{
  ModuleSummary, Finding, section_finding, trait_finding, profile_finding, thin_section, is_strong,
  is_developing, is_established, thin_finding, min_finding_confidence, strong_score, weak_score,
  section_if, trait_findings, profile_findings, strong_sections, weak_sections, collect_strengths,
  collect_weaknesses,
}

module _ {R : Type 0} ⦃num : Num R⦄ (test : R → Bool) (band_test : Option ProfileBand → Bool)
    (thin_too : Bool) (profiles : List (ProfileScore R)) where
  -- The line says what one of the modules, of their traits or of the composites has, and that has
  -- enough evidence: three answers behind a section's score, a confidence of 0.8 behind the others.
  pub data Earned (modules : List (ModuleSummary R)) : Finding R → Type 0 where
    by_section :
        (m : ModuleSummary R) (score : R)
        → Memᴰ m modules
        → m.score ≡ some score
        → test score ≡ true
        → 3 ≤ m.questions_answered
        → Earned modules (section_finding m.name score)
    by_trait :
        (m : ModuleSummary R) (t : ReportedTrait R)
        → Memᴰ m modules
        → Memᴰ t m.traits
        → test t.score ≡ true
        → at_least t.confidence min_finding_confidence ≡ true
        → Earned modules (trait_finding t.label t.score)
    by_profile :
        (p : ProfileScore R)
        → Memᴰ p profiles
        → band_test p.band ≡ true
        → at_least p.confidence min_finding_confidence ≡ true
        → Earned modules (profile_finding p.label p.score)
    by_count :
        (m : ModuleSummary R)
        → Memᴰ m modules
        → thin_too ≡ true
        → 0 < m.questions_answered
        → m.questions_answered < m.question_count
        → Earned modules (thin_section m.name m.questions_answered m.question_count)

  Earned-tail :
      (m : ModuleSummary R) (ms : List (ModuleSummary R)) (f : Finding R)
      → Earned ms f
      → Earned (m ∷ ms) f
  Earned-tail m ms f (by_section m' score i e t n) = by_section m' score (Memᴰ.tail i) e t n
  Earned-tail m ms f (by_trait m' t i j s c) = by_trait m' t (Memᴰ.tail i) j s c
  Earned-tail m ms f (by_profile p i b c) = by_profile p i b c
  Earned-tail m ms f (by_count m' i b n k) = by_count m' (Memᴰ.tail i) b n k

  section-Earned :
      (m : ModuleSummary R) (modules : List (ModuleSummary R)) (score : Option R)
      → Memᴰ m modules
      → m.score ≡ score
      → All (Earned modules) (section_if test m score)
  section-Earned m modules none i e = tt
  section-Earned m modules (some score) i e = elim (Bool-cases (test score && is_established m)) [
    | inl both ↦ rw both (by_section m score i e (ground arith) (ground arith), tt)
    | inr missing ↦ rw missing tt
  ]

  traits-Earned :
      (m : ModuleSummary R) (modules : List (ModuleSummary R))
      → Memᴰ m modules
      → All (Earned modules) (trait_findings test m.traits)
  unfolding trait_findings
  traits-Earned m modules i =
      let sure : ReportedTrait R → Bool = λ t. at_least t.confidence min_finding_confidence in
      let met : ReportedTrait R → Bool = λ t. test t.score in
      All-map (Earned modules) (λ (t : ReportedTrait R). trait_finding t.label t.score)
        (filter met (filter sure m.traits))
        (All-imp (λ t. Memᴰ t (filter sure m.traits) × (met t ≡ true))
          (λ t. Earned modules (trait_finding t.label t.score)) (filter met (filter sure m.traits))
          (λ t h.
            let found =
              All-lookup (λ u. Memᴰ u m.traits × (sure u ≡ true)) (filter sure m.traits)
                (filter-Memᴰ sure m.traits) h.0 in
            by_trait m t i found.0 h.1 found.1)
          (filter-Memᴰ met (filter sure m.traits)))

  thin-Earned :
      (m : ModuleSummary R) (modules : List (ModuleSummary R))
      → thin_too ≡ true
      → Memᴰ m modules
      → All (Earned modules) (thin_finding m)
  thin-Earned m modules also i =
      elim (Bool-cases (ltb 0 m.questions_answered && ltb m.questions_answered m.question_count)) [
        | inl both ↦ rw both (by_count m i also (ground arith) (ground arith), tt)
        | inr missing ↦ rw missing tt
      ]

  profiles-Earned :
      (modules : List (ModuleSummary R))
      → All (Earned modules) (profile_findings band_test profiles)
  unfolding profile_findings
  profiles-Earned modules =
      let sure : ProfileScore R → Bool = λ p. at_least p.confidence min_finding_confidence in
      let met : ProfileScore R → Bool = λ p. band_test p.band in
      All-map (Earned modules) (λ (p : ProfileScore R). profile_finding p.label p.score)
        (filter met (filter sure profiles))
        (All-imp (λ p. Memᴰ p (filter sure profiles) × (met p ≡ true))
          (λ p. Earned modules (profile_finding p.label p.score))
          (filter met (filter sure profiles))
          (λ p h.
            let found =
              All-lookup (λ u. Memᴰ u profiles × (sure u ≡ true)) (filter sure profiles)
                (filter-Memᴰ sure profiles) h.0 in
            by_profile p found.0 h.1 found.1)
          (filter-Memᴰ met (filter sure profiles)))

module _ {R : Type 0} ⦃num : Num R⦄ (profiles : List (ProfileScore R)) where
  -- What puts a line under "Strengths".
  abbrev pub IsStrength : List (ModuleSummary R) → Finding R → Type 0
  IsStrength = Earned (λ score. at_least score strong_score) is_strong false profiles

  -- What puts a line under "Weaknesses".
  abbrev pub IsWeakness : List (ModuleSummary R) → Finding R → Type 0
  IsWeakness = Earned (λ score. at_least weak_score score) is_developing true profiles

  strong_sections-IsStrength :
      (modules : List (ModuleSummary R)) → All (IsStrength modules) (strong_sections modules)
  unfolding strong_sections
  strong_sections-IsStrength [] = tt
  strong_sections-IsStrength (m ∷ ms) =
      let test = λ (score : R). at_least score strong_score in
      let rest =
        All-imp (IsStrength ms) (IsStrength (m ∷ ms)) (strong_sections ms)
          (Earned-tail test is_strong false profiles m ms) (strong_sections-IsStrength ms) in
      All-append (IsStrength (m ∷ ms)) (section_if test m m.score) _
        (section-Earned test is_strong false profiles m (m ∷ ms) m.score (Memᴰ.head refl) refl)
        (All-append (IsStrength (m ∷ ms)) (trait_findings test m.traits) (strong_sections ms)
          (traits-Earned test is_strong false profiles m (m ∷ ms) (Memᴰ.head refl)) rest)

  weak_sections-IsWeakness :
      (modules : List (ModuleSummary R)) → All (IsWeakness modules) (weak_sections modules)
  unfolding weak_sections
  weak_sections-IsWeakness [] = tt
  weak_sections-IsWeakness (m ∷ ms) =
      let test = λ (score : R). at_least weak_score score in
      let rest =
        All-imp (IsWeakness ms) (IsWeakness (m ∷ ms)) (weak_sections ms)
          (Earned-tail test is_developing true profiles m ms) (weak_sections-IsWeakness ms) in
      All-append (IsWeakness (m ∷ ms)) (section_if test m m.score) _
        (section-Earned test is_developing true profiles m (m ∷ ms) m.score (Memᴰ.head refl) refl)
        (All-append (IsWeakness (m ∷ ms)) (trait_findings test m.traits) _
          (traits-Earned test is_developing true profiles m (m ∷ ms) (Memᴰ.head refl))
          (All-append (IsWeakness (m ∷ ms)) (thin_finding m) (weak_sections ms)
            (thin-Earned test is_developing true profiles m (m ∷ ms) refl (Memᴰ.head refl)) rest))

module _ {R : Type 0} ⦃num : Num R⦄ where
  -- No strength and no weakness without evidence. Every line under "Strengths" is the score of 65 or
  -- more of a section with at least three answers, such a score of a trait with a confidence of 0.8
  -- or more, or a composite in the band "strong" with that confidence. Every line under "Weaknesses"
  -- is such a line for a score of 35 or less and the band "developing", or names a section that was
  -- begun and has fewer answers than it asks for.
  pub collect_findings-Earned :
      (modules : List (ModuleSummary R)) (behavioral : BehavioralAssessment R)
      → All (IsStrength behavioral.profiles modules) (collect_strengths modules behavioral)
        × All (IsWeakness behavioral.profiles modules) (collect_weaknesses modules behavioral)
  unfolding collect_strengths collect_weaknesses
  collect_findings-Earned modules behavioral = (
    All-append (IsStrength behavioral.profiles modules) (strong_sections modules) _
        (strong_sections-IsStrength behavioral.profiles modules)
        (profiles-Earned (λ score. at_least score strong_score) is_strong false behavioral.profiles
          modules),
    All-append (IsWeakness behavioral.profiles modules) (weak_sections modules) _
        (weak_sections-IsWeakness behavioral.profiles modules)
        (profiles-Earned (λ score. at_least weak_score score) is_developing true behavioral.profiles
          modules),
  )
