-- ===== src/Reports/Builder/Recommending.antt =====
-- The recommendation of a report.
use adaptive_hire_exam_platf.Common.{
  ℕ, ◌≤◌, ◌≡◌, refl, some, true, arith, if◌then◌else◌, ◌⊎◌, inl, inr, Bool-cases,
}
use adaptive_hire_exam_platf.Engine.Numbers.{Num, NumLaws}
use adaptive_hire_exam_platf.Engine.Numbers.Bounds.{Le}
use adaptive_hire_exam_platf.Reports.Profiles.{at_least}
use adaptive_hire_exam_platf.Reports.Builder.{
  HiringRecommendation, strongly_recommended, recommended, borderline, not_recommended, capped,
  strongly_recommended_at, recommended_at, borderline_at, min_coverage_ratio, banded, recommend,
}

abbrev pub rank : HiringRecommendation → ℕ
rank strongly_recommended = 3
rank recommended = 2
rank borderline = 1
rank not_recommended = 0

capped-cases :
    (a : HiringRecommendation)
    → ((rank a ≤ 1) × (rank (capped a) ≡ rank a)) ⊎ ((1 ≤ rank a) × (rank (capped a) ≡ 1))
capped-cases strongly_recommended = inr (omega arith, refl)
capped-cases recommended = inr (omega arith, refl)
capped-cases borderline = inl (omega arith, refl)
capped-cases not_recommended = inl (omega arith, refl)

capped_le : (a : HiringRecommendation) → rank (capped a) ≤ rank a
capped_le a = elim (capped-cases a) [
  | inl (low, same) ↦ omega (arith, same)
  | inr (high, one) ↦ omega (arith, high, one)
]

capped_mono : (a b : HiringRecommendation) → rank a ≤ rank b → rank (capped a) ≤ rank (capped b)
capped_mono a b h = elim (capped-cases a) [
  | inl (low, same) ↦ elim (capped-cases b) [
    | inl (low', same') ↦ omega (arith, h, same, same')
    | inr (high', one') ↦ omega (arith, low, same, one')
  ]
  | inr (high, one) ↦ elim (capped-cases b) [
    | inl (low', same') ↦ omega (arith, h, high, one, low', same')
    | inr (high', one') ↦ omega (arith, one, one')
  ]
]

module _ {R : Type 0} ⦃num : Num R⦄ (laws : NumLaws R) where
  at_least_mono : (bar a b : R) → Le a b → at_least a bar ≡ true → at_least b bar ≡ true
  at_least_mono bar a b h k = ground (arith, laws.le_trans bar a b)

  banded_mono : (a b : R) → Le a b → rank (banded a) ≤ rank (banded b)
  unfolding banded
  banded_mono a b h = ground (
    arith,
    at_least_mono strongly_recommended_at a b h,
    at_least_mono recommended_at a b h,
    at_least_mono borderline_at a b h,
  )

  -- More is never worse: a score that is no lower, on a coverage that is no lower, never gets a
  -- lower recommendation; the cap for thin evidence keeps the order of the bands.
  pub recommend_mono :
      (score score' coverage coverage' : R) (given given' : HiringRecommendation)
      → Le score score'
      → Le coverage coverage'
      → recommend (some score) coverage ≡ some given
      → recommend (some score') coverage' ≡ some given'
      → rank given ≤ rank given'
  unfolding recommend
  recommend_mono score score' coverage coverage' given given' h k e e' =
      let chosen : given
          ≡ (if at_least coverage min_coverage_ratio then banded score else capped (banded score)) =
        cc e in
      let chosen' : given' ≡ (
          if at_least coverage' min_coverage_ratio then banded score' else capped (banded score')) =
        cc e' in
      let higher = banded_mono score score' h in
      elim (Bool-cases (at_least coverage min_coverage_ratio)) [
        | inl full ↦
            let full' = at_least_mono min_coverage_ratio coverage coverage' k full in
            rw (chosen, chosen', full, full') higher
        | inr thin ↦ elim (Bool-cases (at_least coverage' min_coverage_ratio)) [
          | inl full' ↦
              let low = capped_le (banded score) in
              rw (chosen, chosen', thin, full') (omega (arith, low, higher))
          | inr thin' ↦
              rw (chosen, chosen', thin, thin') (capped_mono (banded score) (banded score') higher)
        ]
      ]
