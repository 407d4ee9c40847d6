-- ===== src/Engine/Evaluation.antt =====
-- backend/src/adaptive-engine/evaluation/evaluation.service.ts: what one answer means.
pub mod Permutations
pub mod Orderings
pub mod Ranking
use adaptive_hire_exam_platf.Common.{
  ℕ, suc, ◌+◌, String, List, [], ◌∷◌, ◌++◌, map, Option, none, some, Bool, true, false, not, find,
  filter, length, if◌then◌else◌,
}
use adaptive_hire_exam_platf.Common.Equality.{◌==◌, nat_eq, string_eq, includes, distinct}
use adaptive_hire_exam_platf.Failures.{
  Result, ok, failed, ◌>>=◌, ◌>>◌, require, duplicate_ranking, unknown_option, incomplete_ranking,
}
use adaptive_hire_exam_platf.Engine.Numbers.{Num, largest, smallest}
use adaptive_hire_exam_platf.Engine.Constants.{ranking_position_factor}
use adaptive_hire_exam_platf.Engine.Types.{
  EvaluationResult, TraitRange, ScoringType, objective, trait,
}
use adaptive_hire_exam_platf.Engine.Questions.{
  McqQuestionDetails, PersonalityQuestionDetails, PersonalityOption, mcq_keys, personality_keys,
}
use adaptive_hire_exam_platf.Engine.Probe.Comparison.{mean}
use adaptive_hire_exam_platf.Engine.Dict.{Dict, lookup, update_entry, entry_keys}
use Permutations.{permutations}

unfoldable pub assert_known_option : List String → String → Result (Unit {0})
unfolding includes
assert_known_option valid_keys selected =
    require (includes selected valid_keys) (unknown_option selected)

-- `for (const key of orderedKeys) this.assertKnownOption(validKeys, key)`
unfoldable pub assert_known_options : List String → List String → Result (Unit {0})
unfolding assert_known_option
assert_known_options valid_keys [] = ok tt
assert_known_options valid_keys (key ∷ keys) =
    let rest = assert_known_options valid_keys keys in
    assert_known_option valid_keys key >>= λ _. rest

-- The keys that stand earlier in the list too: `indexOf(key) !== index`.
unfoldable pub duplicates_after : List String → List String → List String
unfolding includes
duplicates_after earlier [] = []
duplicates_after earlier (key ∷ keys) =
    if includes key earlier
    then key ∷ duplicates_after (key ∷ earlier) keys
    else duplicates_after (key ∷ earlier) keys

-- The running sum and count of one trait in a ranking.
pub record Total (R : Type 0) : Type 0 where
  pub sum : R
  pub count : ℕ

module _ {R : Type 0} ⦃num : Num R⦄ where
  unfoldable pub evaluate_mcq : McqQuestionDetails R → String → Result (EvaluationResult R)
  unfolding assert_known_option
  evaluate_mcq details selected_option = do
    assert_known_option (mcq_keys details) selected_option
    ok (record {
      is_correct = some (selected_option == details.correct_option);
      trait_weights = [];
    })

  abbrev pub find_option : PersonalityQuestionDetails R → String → Option (PersonalityOption R)
  find_option details selected = find (λ option. option.key == selected) details.options

  unfoldable pub evaluate_personality :
      PersonalityQuestionDetails R → String → Result (EvaluationResult R)
  unfolding assert_known_option
  evaluate_personality details selected_option = elim (find_option details selected_option) [
    | some chosen ↦ ok (record { is_correct = none; trait_weights = chosen.trait_weights })
    | none ↦ assert_known_option (personality_keys details) selected_option >>= λ _.
        ok (record { is_correct = none; trait_weights = [] })
  ]

  -- The inner loop over one option's weights.
  unfoldable pub add_weights : R → Dict R → Dict (Total R) → Dict (Total R)
  unfolding update_entry
  add_weights factor [] totals = totals
  add_weights factor ((key, weight) ∷ ws) totals = add_weights factor ws (
      update_entry key (record { sum = num.of_ℕ 0; count = 0 })
        (λ total. record {
          sum = num.plus total.sum (num.times weight factor);
          count = total.count + 1;
        })
        totals)

  abbrev add_option : R → Option (PersonalityOption R) → Dict (Total R) → Dict (Total R)
  add_option factor none totals = totals
  add_option factor (some option) totals = add_weights factor option.trait_weights totals

  -- `orderedKeys.forEach((key, position) => …)`, where `count` is the number of ranked keys.
  unfoldable pub ranking_totals :
      PersonalityQuestionDetails R → ℕ → ℕ → List String → Dict (Total R) → Dict (Total R)
  unfolding add_weights ranking_position_factor
  ranking_totals details count position [] totals = totals
  ranking_totals details count position (key ∷ keys) totals =
      ranking_totals details count (position + 1) keys
        (add_option (ranking_position_factor position count) (find_option details key) totals)

  unfoldable pub averages : Dict (Total R) → Dict R
  averages [] = []
  averages ((key, total) ∷ totals) =
      (key, num.divide total.sum (num.of_ℕ total.count)) ∷ averages totals

  abbrev pub ranked : PersonalityQuestionDetails R → List String → EvaluationResult R
  ranked details ordered_keys = record {
    is_correct = none;
    trait_weights = averages (ranking_totals details (length ordered_keys) 0 ordered_keys []);
  }

  unfoldable pub evaluate_ranking :
      PersonalityQuestionDetails R → List String → Result (EvaluationResult R)
  unfolding duplicates_after assert_known_options ranking_totals averages
  evaluate_ranking details ordered_keys = do
    require (length (duplicates_after [] ordered_keys) == 0) duplicate_ranking
    assert_known_options (personality_keys details) ordered_keys
    require (length ordered_keys == length (personality_keys details)) incomplete_ranking
    ok (ranked details ordered_keys)

  -- Evaluates every answer, and fails with the first that fails.
  unfoldable pub all_weights :
      {A : Type 0} → (A → Result (EvaluationResult R)) → List A → Result (List (Dict R))
  all_weights evaluate [] = ok []
  all_weights evaluate (a ∷ answers) =
      let rest = all_weights evaluate answers in
      evaluate a >>= λ result. rest >>= λ others. ok (result.trait_weights ∷ others)

  abbrev pub weight_or_zero : Option R → R
  weight_or_zero none = num.of_ℕ 0
  weight_or_zero (some w) = w

  unfoldable pub range_of : List R → TraitRange R
  unfolding mean largest smallest
  range_of values = record { chance = mean values; best = largest values; worst = smallest values }

  unfoldable pub mentioned_traits : List (PersonalityOption R) → List String
  mentioned_traits [] = []
  mentioned_traits (option ∷ options) = entry_keys option.trait_weights ++ mentioned_traits options

  unfoldable pub ranges_over : List (Dict R) → List String → Dict (TraitRange R)
  unfolding range_of lookup
  ranges_over outcomes traits =
      map (λ key. (key, range_of (map (λ ws. weight_or_zero (lookup key ws)) outcomes))) traits

  -- Every answer that a candidate could have given.
  unfoldable pub outcomes_of : PersonalityQuestionDetails R → Bool → Result (List (Dict R))
  unfolding permutations all_weights evaluate_ranking evaluate_personality
  outcomes_of details true =
      all_weights (evaluate_ranking details) (permutations (personality_keys details))
  outcomes_of details false = all_weights (evaluate_personality details) (personality_keys details)

  unfoldable pub achievable_trait_range :
      PersonalityQuestionDetails R → Bool → Result (Dict (TraitRange R))
  unfolding outcomes_of ranges_over mentioned_traits distinct
  achievable_trait_range details is_ranking =
      if length (personality_keys details) == 0
      then ok []
      else (outcomes_of details is_ranking >>= λ outcomes.
          ok (ranges_over outcomes (distinct (mentioned_traits details.options))))

  unfoldable pub evaluate_unanswered : ScoringType → EvaluationResult R
  evaluate_unanswered objective = record { is_correct = some false; trait_weights = [] }
  evaluate_unanswered trait = record { is_correct = none; trait_weights = [] }
