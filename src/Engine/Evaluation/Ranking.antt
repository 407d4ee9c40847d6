-- ===== src/Engine/Evaluation/Ranking.antt =====
-- Which answers `evaluateMcq`, `evaluatePersonality` and `evaluateRanking` accept, and that the
-- scale of a question can always be computed.
use mathlib.Core.List.{
  Mem, Mem-prop, mem-cons, mem-cons_self, mem-cons_of_mem, not-mem-nil, Nodup, Nodup-cons,
  Nodup-nil, Subset, Perm,
}
use mathlib.Core.List.Perm
use mathlib.Core.Logic.Or
use mathlib.Core.Bool.{Bool-set}
use adaptive_hire_exam_platf.Common.{
  nat_beq_iff, ◌≡◌, refl, ◌↔◌, List, [], ◌∷◌, String, Bool, true, false, length, All, map, All,
  All-imp, Bool-cases, Option-cases, some, find, inl, inr, arith, subst,
}
use adaptive_hire_exam_platf.Common.Equality.{◌==◌, nat_eq, string_eq, includes, distinct}
use adaptive_hire_exam_platf.Common.Orders.{includes_iff, Perm-length, Perm_of_subset}
use adaptive_hire_exam_platf.Failures.{
  Failure, Result, ok, failed, ◌>>=◌, ◌>>◌, require, IsOk, duplicate_ranking, incomplete_ranking,
}
use adaptive_hire_exam_platf.Engine.Evaluation.Permutations.{permutations}
use adaptive_hire_exam_platf.Engine.Evaluation.Orderings.{permutations-Perm}
use adaptive_hire_exam_platf.Engine.Numbers.{Num}
use adaptive_hire_exam_platf.Engine.Dict.{Dict}
use adaptive_hire_exam_platf.Engine.Types.{EvaluationResult}
use adaptive_hire_exam_platf.Engine.Questions.{
  PersonalityOption, PersonalityQuestionDetails, personality_keys,
}
use adaptive_hire_exam_platf.Engine.Evaluation.{
  outcomes_of, ranges_over, mentioned_traits, find_option, evaluate_personality,
  achievable_trait_range, assert_known_options, duplicates_after, all_weights, ranked,
  evaluate_ranking,
}

apart_cons :
    {k key : String} {keys : List String} (earlier : List String)
    → ¬ Mem k keys
    → Mem key keys
    → includes key earlier ≡ false
    → includes key (k ∷ earlier) ≡ false
unfolding includes
apart_cons {k} {key} {keys} earlier fresh m h = elim (Bool-cases (key == k)) [
  | inl same ↦ absurd (fresh (subst (λ z. Mem z keys) ((string_eq.same_iff key k).0 same) m))
  | inr other ↦ ground arith
]

not_included : (k : String) (valid : List String) → includes k valid ≡ false → ¬ Mem k valid
not_included k valid h m = cc ((includes_iff k valid).1 m)

-- No key stands twice, and none of `earlier` stands in the list.
duplicates_after_sound :
    (earlier keys : List String)
    → length (duplicates_after earlier keys) ≡ 0
    → Nodup keys × ((key : String) → Mem key keys → includes key earlier ≡ false)
unfolding duplicates_after includes
duplicates_after_sound earlier [] h = (Nodup-nil, λ key m. absurd (not-mem-nil m))
duplicates_after_sound earlier (k ∷ keys) h = elim (Bool-cases (includes k earlier)) [
  | inl twice ↦ absurd (ground arith)
  | inr new ↦
      let (d, apart) = duplicates_after_sound (k ∷ earlier) keys (ground arith) in
      (
        Nodup-cons.1 (λ m. ground (arith, apart k m, string_eq.same_iff k k), d),
        λ key m.
            Or.elim (Bool-set _ _) (mem-cons.0 m) (λ same. rw same new)
              (λ later. ground (arith, apart key later)),
      )
]

duplicates_after_complete :
    (earlier keys : List String)
    → Nodup keys
    → ((key : String) → Mem key keys → includes key earlier ≡ false)
    → length (duplicates_after earlier keys) ≡ 0
unfolding duplicates_after includes
duplicates_after_complete earlier [] d apart = refl
duplicates_after_complete earlier (k ∷ keys) d apart =
    let (fresh, rest) = Nodup-cons.0 d in
    ground (
      arith,
      apart k mem-cons_self,
      duplicates_after_complete (k ∷ earlier) keys rest
          (λ key m. apart_cons earlier fresh m (apart key (mem-cons_of_mem k m))),
    )

assert_known_options_iff :
    (valid keys : List String) → IsOk (assert_known_options valid keys) ↔ Subset keys valid
unfolding assert_known_options
assert_known_options_iff valid [] = (λ h key m. absurd (not-mem-nil m), λ s. tt)
assert_known_options_iff valid (k ∷ keys) = elim (Bool-cases (includes k valid)) [
  | inl known ↦ (
    λ h key m.
        Or.elim Mem-prop (mem-cons.0 m) (λ same. rw same ((includes_iff k valid).0 known))
          ((assert_known_options_iff valid keys).0 (rw known at h) key),
    λ s. rw known ((assert_known_options_iff valid keys).1 (λ key m. s key (mem-cons_of_mem k m))),
  )
  | inr foreign ↦ (
    λ h. absurd (rw foreign at h),
    λ s. absurd (not_included k valid foreign (s k mem-cons_self)),
  )
]

-- A chain of three checks.
checks_iff {ℓ} :
    {A : Type ℓ} (first second : Bool) (between : Result (Unit {0})) (d e : Failure) (a : A)
    → IsOk (require first d >> (between >>= λ _. (require second e >> ok a)))
      ↔ ((first ≡ true) × IsOk between × (second ≡ true))
checks_iff true true (ok _) d e a = (λ h. (refl, tt, refl), λ h. tt)
checks_iff true false (ok _) d e a = (λ h. absurd h, λ h. cc h.2)
checks_iff true _ (failed f) d e a = (λ h. absurd h, λ h. absurd h.1)
checks_iff false _ _ d e a = (λ h. absurd h, λ h. cc h.0)

module _ {R : Type 0} where
  find_key :
      (options : List (PersonalityOption R)) (selected : String)
      → (includes selected (map (λ option. option.key) options) ≡ true) ↔ (
          (option : PersonalityOption R) × (find (λ option. option.key == selected) options
            ≡ some option))
  unfolding includes
  find_key [] selected = (λ h. cc, λ h. cc h.1)
  find_key (option ∷ options) selected = elim (Bool-cases (option.key == selected)) [
    | inl here ↦ (
      λ h. (option, rw here),
      λ h.
          ground
            (arith, string_eq.same_iff option.key selected, string_eq.same_iff selected option.key),
    )
    | inr there ↦ (
      λ h. rw there (
          (find_key options selected).0 (
            ground (
              arith,
              string_eq.same_iff option.key selected,
              string_eq.same_iff selected option.key,
            ))),
      λ h. ground (arith, (find_key options selected).1 (h.0, (rw there at h.1))),
    )
  ]

then_IsOk : {A B : Type 0} (r : Result A) (f : A → B) → IsOk r → IsOk (r >>= λ a. ok (f a))
then_IsOk (ok a) f h = tt
then_IsOk (failed e) f h = absurd h

module _ {R : Type 0} ⦃num : Num R⦄ where
  -- A ranking is accepted exactly if it is a rearrangement of the question's options, each placed
  -- once; the options of the question must have different keys.
  pub evaluate_ranking_iff :
      (details : PersonalityQuestionDetails R) (ordered_keys : List String)
      → Nodup (personality_keys details)
      → IsOk (evaluate_ranking details ordered_keys) ↔ Perm ordered_keys (personality_keys details)
  unfolding evaluate_ranking
  evaluate_ranking_iff details ordered_keys distinct_keys =
      let valid : List String = personality_keys details in
      let both =
        checks_iff (length (duplicates_after [] ordered_keys) == 0)
          (length ordered_keys == length valid) (assert_known_options valid ordered_keys)
          duplicate_ranking incomplete_ranking (ranked details ordered_keys) in
      (
        λ h.
            let (once, known, full) = both.0 h in
            Perm_of_subset (duplicates_after_sound [] ordered_keys ((nat_beq_iff _ 0).0 once)).0
              ((assert_known_options_iff valid ordered_keys).0 known)
              (omega (arith, (nat_beq_iff (length ordered_keys) (length valid)).0 full)),
        λ p. both.1 (
          (nat_beq_iff _ 0).1 (
              duplicates_after_complete [] ordered_keys (Perm.nodup (Perm.symm p) distinct_keys)
                (λ key m. refl)),
          (assert_known_options_iff valid ordered_keys).1 (Perm.subset p),
          (nat_beq_iff (length ordered_keys) (length valid)).1 (Perm-length p),
        ),
      )

  bind_IsOk :
      (first : Result (EvaluationResult R)) (rest : Result (List (Dict R)))
      → IsOk first
      → IsOk rest
      → IsOk (first >>= λ result. rest >>= λ others. ok (result.trait_weights ∷ others))
  bind_IsOk (ok r) (ok rs) h k = tt
  bind_IsOk (ok r) (failed e) h k = absurd k
  bind_IsOk (failed e) rest h k = absurd h

  all_weights-IsOk :
      {A : Type 0} (evaluate : A → Result (EvaluationResult R)) (answers : List A)
      → All (λ a. IsOk (evaluate a)) answers
      → IsOk (all_weights evaluate answers)
  unfolding all_weights
  all_weights-IsOk evaluate [] h = tt
  all_weights-IsOk evaluate (a ∷ answers) (h, hs) =
      bind_IsOk (evaluate a) (all_weights evaluate answers) h (all_weights-IsOk evaluate answers hs)

  -- A single choice is accepted exactly if it is one of the question's options.
  pub evaluate_personality_iff :
      (details : PersonalityQuestionDetails R) (selected : String)
      → IsOk (evaluate_personality details selected)
        ↔ (includes selected (personality_keys details) ≡ true)
  unfolding evaluate_personality
  evaluate_personality_iff details selected = elim (Option-cases (find_option details selected)) [
    | inl missing ↦
        rw (missing, evaluate_personality)
          (elim (Bool-cases (includes selected (personality_keys details))) [
            | inl known ↦
                let hit = (find_key details.options selected).0 known in cc (missing, hit.1)
            | inr foreign ↦ rw foreign (λ h. absurd h, λ h. cc)
          ])
    | inr (chosen, found) ↦
        rw (found, evaluate_personality)
          (λ h. (find_key details.options selected).1 (chosen, found), λ h. tt)
  ]

  accepts-All :
      (details : PersonalityQuestionDetails R) (keys : List String)
      → Subset keys (personality_keys details)
      → All (λ key. IsOk (evaluate_personality details key)) keys
  accepts-All details [] s = tt
  accepts-All details (key ∷ keys) s = (
    (evaluate_personality_iff details key).1
        ((includes_iff key (personality_keys details)).1 (s key mem-cons_self)),
    accepts-All details keys (λ k m. s k (mem-cons_of_mem key m)),
  )

  outcomes_of-IsOk :
      (details : PersonalityQuestionDetails R) (is_ranking : Bool)
      → Nodup (personality_keys details)
      → IsOk (outcomes_of details is_ranking)
  unfolding outcomes_of
  outcomes_of-IsOk details true distinct_keys =
      all_weights-IsOk (evaluate_ranking details) (permutations (personality_keys details)) (
        All-imp (λ o. Perm o (personality_keys details)) (λ o. IsOk (evaluate_ranking details o))
          (permutations (personality_keys details))
          (λ o p. (evaluate_ranking_iff details o distinct_keys).1 p)
          (permutations-Perm (personality_keys details)).0)
  outcomes_of-IsOk details false distinct_keys =
      all_weights-IsOk (evaluate_personality details) (personality_keys details)
        (accepts-All details (personality_keys details) (λ k m. m))

  -- The scale of a question whose options have different keys can always be computed: no answer
  -- that `achievableTraitRange` enumerates is refused, for a ranking and for a single choice.
  pub achievable_trait_range-IsOk :
      (details : PersonalityQuestionDetails R) (is_ranking : Bool)
      → Nodup (personality_keys details)
      → IsOk (achievable_trait_range details is_ranking)
  unfolding achievable_trait_range
  achievable_trait_range-IsOk details is_ranking distinct_keys =
      elim (Bool-cases (length (personality_keys details) == 0)) [
        | inl empty ↦ rw empty tt
        | inr some_key ↦ rw some_key (
            then_IsOk (outcomes_of details is_ranking)
              (λ outcomes. ranges_over outcomes (distinct (mentioned_traits details.options)))
              (outcomes_of-IsOk details is_ranking distinct_keys))
      ]
