-- ===== src/Engine/Numbers.antt =====
-- The JavaScript numbers of the engine, as an interface. Ability estimates, trait weights and
-- confidences are IEEE doubles in the source; the operations that it uses on them are arguments of
-- the model, and `NumLaws` states the order laws that hold of doubles other than NaN.
pub mod Bounds
use adaptive_hire_exam_platf.Common.{ℕ, List, [], ◌∷◌, Bool, true, false, ◌≡◌, if◌then◌else◌}

pub record Num (R : Type 0) : Type 0 where
  pub of_ℕ : ℕ → R
  pub plus : R → R → R
  pub minus : R → R → R
  pub times : R → R → R
  pub divide : R → R → R
  -- `10 ** x`, `Math.sqrt`, `Math.LN10`, `Math.round`
  pub power_of_ten : R → R
  pub sqrt : R → R
  pub ln10 : R
  pub round : R → R
  pub infinity : R
  pub is_finite : R → Bool
  -- `a < b`
  pub lt : R → R → Bool

module _ {R : Type 0} ⦃num : Num R⦄ where
  -- The two-argument `Math.max` and `Math.min`, away from NaN.
  unfoldable pub max : R → R → R
  max a b = if num.lt a b then b else a

  unfoldable pub min : R → R → R
  min a b = if num.lt b a then b else a

  unfoldable pub clamp : R → R → R → R
  unfolding min max
  clamp value low high = min high (max low value)

  unfoldable pub clamp01 : R → R
  unfolding clamp
  clamp01 value = clamp value (num.of_ℕ 0) (num.of_ℕ 1)

  unfoldable pub negate : R → R
  negate x = num.minus (num.of_ℕ 0) x

  -- `Math.round(value * 10) / 10` and `Math.round(value * 100) / 100`
  unfoldable pub round1 : R → R
  round1 value = num.divide (num.round (num.times value (num.of_ℕ 10))) (num.of_ℕ 10)

  unfoldable pub round2 : R → R
  round2 value = num.divide (num.round (num.times value (num.of_ℕ 100))) (num.of_ℕ 100)

  -- `Math.max(...values)` and `Math.min(...values)`
  unfoldable pub max_of : R → List R → R
  unfolding max
  max_of best [] = best
  max_of best (v ∷ vs) = max_of (max best v) vs

  unfoldable pub min_of : R → List R → R
  unfolding min
  min_of worst [] = worst
  min_of worst (v ∷ vs) = min_of (min worst v) vs

  unfoldable pub largest : List R → R
  unfolding max_of negate
  largest values = max_of (negate num.infinity) values

  unfoldable pub smallest : List R → R
  unfolding min_of
  smallest values = min_of num.infinity values

-- The laws of the order that the bounds rest on: `a <= b` is "not `b < a`".
pub record NumLaws (R : Type 0) ⦃num : Num R⦄ : Type 0 where
  pub lt_asymm : (a b : R) → num.lt a b ≡ true → num.lt b a ≡ false
  pub le_trans : (a b c : R) → num.lt b a ≡ false → num.lt c b ≡ false → num.lt c a ≡ false
