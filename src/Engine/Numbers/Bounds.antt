-- ===== src/Engine/Numbers/Bounds.antt =====
-- Bounds of `clamp` and of the larger and smaller of two numbers.
use adaptive_hire_exam_platf.Common.{false, ◌≡◌, arith}
use adaptive_hire_exam_platf.Engine.Numbers.{Num, NumLaws, max, min, clamp}

-- `a <= b` on numbers.
abbrev pub Le : {R : Type 0} ⦃num : Num R⦄ → R → R → Type 0
Le ⦃num⦄ a b = num.lt b a ≡ false

module _ {R : Type 0} ⦃num : Num R⦄ (laws : NumLaws R) where
  pub le_refl : (a : R) → Le a a
  le_refl a = ground (arith, laws.lt_asymm a a)

  pub max_bounds : (a b : R) → Le a (max a b) × Le b (max a b)
  unfolding max
  max_bounds a b = ground (arith, laws.lt_asymm a b, le_refl a, le_refl b)

  pub min_bounds : (a b : R) → Le (min a b) a × Le (min a b) b
  unfolding min
  min_bounds a b = ground (arith, laws.lt_asymm b a, le_refl a, le_refl b)

  pub clamp_bounds :
      (value low high : R)
      → Le low high
      → Le low (clamp value low high) × Le (clamp value low high) high
  unfolding clamp
  clamp_bounds value low high h = ground (
    arith,
    max_bounds low value,
    min_bounds high (max low value),
    le_refl low,
    le_refl high,
    laws.lt_asymm low value,
  )
