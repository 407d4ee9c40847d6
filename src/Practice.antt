-- ===== src/Practice.antt =====
-- backend/src/question-bank/practice.service.ts: the practice questions that a candidate sees before an
-- assessment. `collates` is the database's order of names and ids.
pub mod Rotation
pub mod Breadth
use adaptive_hire_exam_platf.Common.{
  ℕ, zero, suc, Option, none, some, List, [], ◌∷◌, ◌++◌, map, filter, any, length, Bool, true,
  false, not, ◌&&◌, ◌||◌, String, ltb, leb, if◌then◌else◌,
}
use adaptive_hire_exam_platf.Common.Equality.{◌==◌, nat_eq, includes}
use adaptive_hire_exam_platf.Engine.Types.{ScoringType, objective, trait, BehavioralPattern}
use adaptive_hire_exam_platf.Engine.Questions.{
  McqQuestionDetails, McqOption, PersonalityQuestionDetails, PersonalityOption,
}
use adaptive_hire_exam_platf.Engine.Bank.{StoredQuestion, is_active, visible_to_org}
use adaptive_hire_exam_platf.Engine.Selector.{order_by}

abbrev pub practice_target : ℕ
practice_target = 3

-- A question with the columns of its module that the query joins.
pub record SampleRow (R : Type 0) : Type 0 where
  pub stored : StoredQuestion R
  pub open stored use *
  pub module_name : String
  pub scoring_type : ScoringType
  pub created_at : ℕ

pub record PracticeOption : Type 0 where
  pub key : String
  pub text : String

pub record PracticeQuestion : Type 0 where
  pub id : ℕ
  pub module_name : String
  pub scoring_type : ScoringType
  pub text : String
  pub options : List PracticeOption
  pub pattern : Option BehavioralPattern
  pub correct_option : Option String

-- How the database orders module names and organisation ids, strictly.
pub record Collation : Type 0 where
  pub name_before : String → String → Bool
  pub id_before : ℕ → ℕ → Bool

-- `NULLS LAST`
abbrev pub owner_before : Collation → Option ℕ → Option ℕ → Bool
owner_before collates (some a) (some b) = collates.id_before a b
owner_before collates (some a) none = true
owner_before collates none b = false

-- The round-robin, over queues of any kind.
module _ {A : Type 0} where
  abbrev pub is_waiting : List A → Bool
  is_waiting [] = false
  is_waiting (x ∷ xs) = true

  -- One pass of the inner loop, which stops at the target.
  unfoldable pub one_round : List A → List (List A) → List A × List (List A)
  one_round picked [] = (picked, [])
  one_round picked ([] ∷ queues) =
      let rest : List A × List (List A) = one_round picked queues in
      if leb practice_target (length picked) then (picked, [] ∷ queues) else (rest.0, [] ∷ rest.1)
  one_round picked ((x ∷ xs) ∷ queues) =
      let rest : List A × List (List A) = one_round (picked ++ x ∷ []) queues in
      if leb practice_target (length picked)
      then (picked, (x ∷ xs) ∷ queues)
      else (rest.0, xs ∷ rest.1)

  -- The `while`, on fuel.
  unfoldable pub rotate : ℕ → List A → List (List A) → List A
  unfolding one_round
  rotate zero picked queues = picked
  rotate (suc fuel) picked queues =
      let turn : List A × List (List A) = one_round picked queues in
      let rest : List A = rotate fuel turn.0 turn.1 in
      if ltb (length picked) practice_target && any is_waiting queues then rest else picked

module _ {R : Type 0} where
  abbrev pub sample_before : Collation → SampleRow R → SampleRow R → Bool
  sample_before collates a b =
      collates.name_before a.module_name b.module_name
      || (not (collates.name_before b.module_name a.module_name)
          && (owner_before collates a.organisation_id b.organisation_id
              || (not (owner_before collates b.organisation_id a.organisation_id)
                  && ltb a.created_at b.created_at)))

  unfoldable pub sample_query : Collation → List ℕ → ℕ → List (SampleRow R) → List (SampleRow R)
  unfolding order_by includes visible_to_org
  sample_query collates module_ids organisation_id bank = order_by (sample_before collates) (
      filter
        (λ (q : SampleRow R).
          includes q.module_id module_ids
          && (q.is_sample
              && (is_active q.status
                  && visible_to_org organisation_id (map (λ (r : SampleRow R). r.stored) bank)
                      q.stored)))
        bank)

  -- `byModule`, a map that keeps the order of its keys.
  unfoldable pub enqueue :
      SampleRow R → List (ℕ × List (SampleRow R)) → List (ℕ × List (SampleRow R))
  enqueue row [] = (row.module_id, row ∷ []) ∷ []
  enqueue row ((id, queue) ∷ queues) =
      if id == row.module_id
      then (id, queue ++ row ∷ []) ∷ queues
      else (id, queue) ∷ enqueue row queues

  unfoldable pub by_module :
      List (ℕ × List (SampleRow R)) → List (SampleRow R) → List (ℕ × List (SampleRow R))
  unfolding enqueue
  by_module queues [] = queues
  by_module queues (row ∷ rows) = by_module (enqueue row queues) rows

  abbrev mcq_texts : Option (McqQuestionDetails R) → List PracticeOption
  mcq_texts none = []
  mcq_texts (some details) =
      map (λ (o : McqOption). record { key = o.key; text = o.text }) details.options

  abbrev personality_texts : Option (PersonalityQuestionDetails R) → List PracticeOption
  personality_texts none = []
  personality_texts (some details) =
      map (λ (o : PersonalityOption R). record { key = o.key; text = o.text }) details.options

  abbrev correct_of : Option (McqQuestionDetails R) → Option String
  correct_of none = none
  correct_of (some details) = some details.correct_option

  abbrev pattern_of : Option (PersonalityQuestionDetails R) → Option BehavioralPattern
  pattern_of none = none
  pattern_of (some details) = details.pattern

  abbrev practice_by : ScoringType → SampleRow R → PracticeQuestion
  practice_by objective row = record {
    id = row.id;
    module_name = row.module_name;
    scoring_type = objective;
    text = row.question_text;
    options = mcq_texts row.mcq_details;
    pattern = none;
    correct_option = correct_of row.mcq_details;
  }
  practice_by trait row = record {
    id = row.id;
    module_name = row.module_name;
    scoring_type = trait;
    text = row.question_text;
    options = personality_texts row.personality_details;
    pattern = pattern_of row.personality_details;
    correct_option = none;
  }

  -- The loop over the picked rows.
  unfoldable pub practice_question : SampleRow R → PracticeQuestion
  practice_question row = practice_by row.scoring_type row

  -- Each round picks at least one, so that as many rounds as the target are enough.
  unfoldable pub pick_samples : List (SampleRow R) → List (SampleRow R)
  unfolding rotate by_module
  pick_samples rows =
      rotate practice_target [] (map (λ (q : ℕ × List (SampleRow R)). q.1) (by_module [] rows))

  unfoldable pub for_modules : Collation → List ℕ → ℕ → List (SampleRow R) → List PracticeQuestion
  unfolding sample_query pick_samples practice_question
  for_modules collates module_ids organisation_id bank =
      if length module_ids == 0
      then []
      else map practice_question
          (pick_samples (sample_query collates module_ids organisation_id bank))
