-- ===== src/Engine/Probe/Comparison.antt =====
-- How closely two answers to one construct agree: `compare` and `compareTraits` of
-- backend/src/adaptive-engine/consistency-probe/consistency-probe.service.ts.
use adaptive_hire_exam_platf.Common.{
  List, [], ◌∷◌, map, Option, none, some, Bool, true, false, not, String, if◌then◌else◌, filter,
  length,
}
use adaptive_hire_exam_platf.Engine.Numbers.{Num, round2, clamp01}
use adaptive_hire_exam_platf.Engine.Constants.{probe_agreement_zero_at}
use adaptive_hire_exam_platf.Engine.Dict.{Dict, lookup}
use adaptive_hire_exam_platf.Engine.Types.{ProbeSignature, outcome, weights, ProbeDivergence}

pub record Compared (R : Type 0) : Type 0 where
  pub agreement : Option R
  pub flipped : Option Bool
  pub divergent_traits : List (ProbeDivergence R)

-- One element of `perTrait`.
pub record TraitAgreement (R : Type 0) : Type 0 where
  pub key : String
  pub first : R
  pub second : R
  pub agreement : R

abbrev pub xor : Bool → Bool → Bool
xor true b = not b
xor false b = b

module _ {R : Type 0} ⦃num : Num R⦄ where
  -- `Math.abs(a - b)`
  unfoldable pub distance : R → R → R
  distance a b = if num.lt a b then num.minus b a else num.minus a b

  unfoldable pub trait_agreement : String → R → R → TraitAgreement R
  unfolding distance round2 clamp01
  trait_agreement key a b = record {
    key = key;
    first = round2 a;
    second = round2 b;
    agreement =
        clamp01
          (num.minus (num.of_ℕ 1) (num.divide (distance a b) (num.of_ℕ probe_agreement_zero_at)));
  }

  abbrev pub shared_with : String → R → Option R → List (TraitAgreement R) → List (TraitAgreement R)
  shared_with key a none rest = rest
  shared_with key a (some b) rest = trait_agreement key a b ∷ rest

  -- The traits that both answers touched, in the order of the first.
  unfoldable pub per_trait : Dict R → Dict R → List (TraitAgreement R)
  unfolding lookup trait_agreement
  per_trait [] second = []
  per_trait ((key, a) ∷ first) second =
      shared_with key a (lookup key second) (per_trait first second)

  -- `values.reduce((sum, value) => sum + value, 0)`
  unfoldable pub total_from : R → List R → R
  total_from sum [] = sum
  total_from sum (r ∷ rs) = total_from (num.plus sum r) rs

  unfoldable pub mean : List R → R
  unfolding total_from
  mean rs = num.divide (total_from (num.of_ℕ 0) rs) (num.of_ℕ (length rs))

  -- `sort((a, b) => a.agreement - b.agreement)`, which is stable.
  unfoldable pub insert_by_agreement :
      TraitAgreement R → List (TraitAgreement R) → List (TraitAgreement R)
  insert_by_agreement t [] = t ∷ []
  insert_by_agreement t (u ∷ us) =
      if num.lt u.agreement t.agreement then u ∷ insert_by_agreement t us else t ∷ u ∷ us

  unfoldable pub sort_by_agreement : List (TraitAgreement R) → List (TraitAgreement R)
  unfolding insert_by_agreement
  sort_by_agreement [] = []
  sort_by_agreement (t ∷ ts) = insert_by_agreement t (sort_by_agreement ts)

  abbrev divergence : TraitAgreement R → ProbeDivergence R
  divergence t = record { key = t.key; first = t.first; second = t.second }

  unfoldable pub divergences : List (TraitAgreement R) → List (ProbeDivergence R)
  unfolding sort_by_agreement
  divergences ts =
      map divergence (sort_by_agreement (filter (λ t. num.lt t.agreement (num.of_ℕ 1)) ts))

  abbrev uncomparable : Compared R
  uncomparable = record { agreement = none; flipped = none; divergent_traits = [] }

  unfoldable pub compare_traits : Dict R → Dict R → Compared R
  unfolding per_trait mean divergences round2
  compare_traits first second = elim (per_trait first second) [
    | [] ↦ uncomparable
    | t ∷ ts ↦ record {
      agreement = some (round2 (mean (map (λ u. u.agreement) (t ∷ ts))));
      flipped = none;
      divergent_traits = divergences (t ∷ ts);
    }
  ]

  unfoldable pub compare : ProbeSignature R → ProbeSignature R → Compared R
  unfolding compare_traits
  compare (outcome a) (outcome b) = record {
    agreement = some (if xor a b then num.of_ℕ 0 else num.of_ℕ 1);
    flipped = some (xor a b);
    divergent_traits = [];
  }
  compare (weights first) (weights second) = compare_traits first second
  compare _ _ = uncomparable
