-- ===== src/Session/Finish/Statistics.antt =====
-- What an answer's update of its question leaves of the bank: the updates of `recordObjectiveAnswer`
-- and `recordTraitAnswer` of backend/src/adaptive-engine/adaptive-engine.service.ts.
use mathlib.Core.Option
use adaptive_hire_exam_platf.Common.{
  ℕ, ◌≡◌, refl, sym, ap, ap₂, Option, none, some, List, [], ◌∷◌, map, filter, not, Bool, Bool-cases,
  inl, inr, if◌then◌else◌,
}
use adaptive_hire_exam_platf.Common.Equality.{◌==◌, nat_eq}
use adaptive_hire_exam_platf.Failures.{ok, >>=-eq-ok, ok-injective}
use adaptive_hire_exam_platf.Engine.Numbers.{Num}
use adaptive_hire_exam_platf.Engine.Types.{ModuleRunState, ScoringType, objective, trait}
use adaptive_hire_exam_platf.Engine.Questions.{
  Question, McqQuestionDetails, PersonalityQuestionDetails,
}
use adaptive_hire_exam_platf.Engine.Run.{
  SubmittedAnswer, Recorded, ItemUpdate, mcq_update, personality_update, record_answer, record_by,
  record_objective, record_trait, with_mcq, with_personality, evaluate_objective, evaluate_trait,
  range_for, assert_answer_shape,
}
use adaptive_hire_exam_platf.Session.World.{apply_item_update, set_difficulty, use_personality}

-- The question that an update is about.
abbrev pub updated_id : {R : Type 0} → ItemUpdate R → ℕ
updated_id (mcq_update id difficulty is_correct) = id
updated_id (personality_update id) = id

module _ {R : Type 0} ⦃num : Num R⦄ where
  -- A question with its difficulty and its counts left out.
  abbrev pub without_statistics : Question R → Question R
  without_statistics q = record q {
    mcq_details =
        Option.map
          (λ (d : McqQuestionDetails R). record d {
            difficulty_score = num.of_ℕ 0;
            times_used = 0;
            times_correct = 0;
          })
          q.mcq_details;
    personality_details =
        Option.map (λ (d : PersonalityQuestionDetails R). record d { times_used = 0 })
          q.personality_details;
  }

  -- The bank holds the same questions, and at most the difficulty and the counts of the one with this
  -- id are others.
  pub record OnlyStatistics (id : ℕ) (before after : List (Question R)) : Type 0 where
    pub contents : map without_statistics after ≡ map without_statistics before
    pub others :
        filter (λ (q : Question R). not (q.id == id)) after
        ≡ filter (λ (q : Question R). not (q.id == id)) before

  pub OnlyStatistics-same : (id : ℕ) (bank : List (Question R)) → OnlyStatistics id bank bank
  OnlyStatistics-same id bank = record { contents = refl; others = refl }

  set_difficulty-without_statistics :
      (q : Question R) (difficulty : R) (is_correct : Bool)
      (details : Option (McqQuestionDetails R))
      → q.mcq_details ≡ details
      → without_statistics (record q { mcq_details = set_difficulty difficulty is_correct details })
        ≡ without_statistics q
  set_difficulty-without_statistics q difficulty is_correct none h = rw h refl
  set_difficulty-without_statistics q difficulty is_correct (some details) h = rw h refl

  use_personality-without_statistics :
      (q : Question R) (details : Option (PersonalityQuestionDetails R))
      → q.personality_details ≡ details
      → without_statistics (record q { personality_details = use_personality details })
        ≡ without_statistics q
  use_personality-without_statistics q none h = rw h refl
  use_personality-without_statistics q (some details) h = rw h refl

  -- A map that changes the questions with this id, and nothing but their statistics.
  map-OnlyStatistics :
      (id : ℕ) (f : Question R → Question R)
      → ((q : Question R) → without_statistics (f q) ≡ without_statistics q)
      → ((q : Question R) → (f q).id ≡ q.id)
      → (bank : List (Question R))
      → OnlyStatistics id bank (map (λ (q : Question R). if q.id == id then f q else q) bank)
  map-OnlyStatistics id f quiet same [] = record { contents = refl; others = refl }
  map-OnlyStatistics id f quiet same (q ∷ bank) =
      let rest = map-OnlyStatistics id f quiet same bank in
      elim (Bool-cases (q.id == id)) [
        | inl hit ↦ rw hit (record {
          contents = ap₂ (λ (x : Question R) xs. x ∷ xs) (quiet q) rest.contents;
          others = rw (same q, hit) rest.others;
        })
        | inr miss ↦ rw miss (record {
          contents = ap (λ xs. without_statistics q ∷ xs) rest.contents;
          others = rw miss (ap (λ xs. q ∷ xs) rest.others);
        })
      ]

  pub apply_item_update-OnlyStatistics :
      (update : ItemUpdate R) (bank : List (Question R))
      → OnlyStatistics (updated_id update) bank (apply_item_update update bank)
  unfolding apply_item_update
  apply_item_update-OnlyStatistics (mcq_update id difficulty is_correct) bank =
      map-OnlyStatistics id
        (λ (q : Question R). record q {
          mcq_details = set_difficulty difficulty is_correct q.mcq_details;
        })
        (λ q. set_difficulty-without_statistics q difficulty is_correct q.mcq_details refl)
        (λ q. refl) bank
  apply_item_update-OnlyStatistics (personality_update id) bank =
      map-OnlyStatistics id
        (λ (q : Question R). record q {
          personality_details = use_personality q.personality_details;
        })
        (λ q. use_personality-without_statistics q q.personality_details refl) (λ q. refl) bank

  record_objective-updated_id :
      (m : ModuleRunState R) (q : Question R) (details : Option (McqQuestionDetails R))
      (answer : SubmittedAnswer) (n : ℕ) (r : Recorded R)
      → with_mcq q details (λ d. record_objective m q d answer n) ≡ ok r
      → updated_id r.item_update ≡ q.id
  unfolding record_objective
  record_objective-updated_id m q none answer n r h = cc
  record_objective-updated_id m q (some details) answer n r h =
      let (result, evaluated, made) = >>=-eq-ok (evaluate_objective details answer) _ h in
      ap (λ (x : Recorded R). updated_id x.item_update) (sym (ok-injective made))

  record_trait-updated_id :
      (m : ModuleRunState R) (q : Question R) (details : Option (PersonalityQuestionDetails R))
      (answer : SubmittedAnswer) (n : ℕ) (r : Recorded R)
      → with_personality q details (λ d. record_trait m q d answer n) ≡ ok r
      → updated_id r.item_update ≡ q.id
  unfolding record_trait
  record_trait-updated_id m q none answer n r h = cc
  record_trait-updated_id m q (some details) answer n r h =
      let (u, shaped, h') = >>=-eq-ok (assert_answer_shape details answer) _ h in
      let (result, evaluated, h'') = >>=-eq-ok (evaluate_trait details answer) _ h' in
      let (ranges, ranged, made) = >>=-eq-ok (range_for details answer) _ h'' in
      ap (λ (x : Recorded R). updated_id x.item_update) (sym (ok-injective made))

  record_by-updated_id :
      (kind : ScoringType) (m : ModuleRunState R) (q : Question R) (answer : SubmittedAnswer)
      (n : ℕ) (r : Recorded R)
      → record_by kind m q answer n ≡ ok r
      → updated_id r.item_update ≡ q.id
  record_by-updated_id objective m q answer n r h =
      record_objective-updated_id m q q.mcq_details answer n r h
  record_by-updated_id trait m q answer n r h =
      record_trait-updated_id m q q.personality_details answer n r h

  pub record_answer-updated_id :
      (m : ModuleRunState R) (q : Question R) (answer : SubmittedAnswer) (n : ℕ) (r : Recorded R)
      → record_answer m q answer n ≡ ok r
      → updated_id r.item_update ≡ q.id
  unfolding record_answer
  record_answer-updated_id m q answer n r h = record_by-updated_id m.scoring_type m q answer n r h
