-- ===== src/Engine/Bank.antt =====
-- The question bank's rows and who may see them:
-- backend/src/question-bank/entities/question.entity.ts and
-- backend/src/question-bank/question-visibility.ts, whose SQL conditions are tests here.
use adaptive_hire_exam_platf.Common.{
  ℕ, Option, none, some, List, Bool, true, false, not, ◌&&◌, ◌||◌, any,
}
use adaptive_hire_exam_platf.Common.Equality.{◌==◌, nat_eq}
use adaptive_hire_exam_platf.Engine.Questions.{Question}

pub data QuestionStatus : Type 0 where
  draft active archived : QuestionStatus

pub record StoredQuestion (R : Type 0) : Type 0 where
  pub question : Question R
  pub open question use *
  pub status : QuestionStatus
  pub is_sample : Bool
  -- Null for a question of the platform.
  pub organisation_id : Option ℕ
  pub forked_from_id : Option ℕ

abbrev pub is_active : QuestionStatus → Bool
is_active QuestionStatus.active = true
is_active _ = false

-- A column that holds this value; a null equals nothing.
abbrev pub holds : Option ℕ → ℕ → Bool
holds none id = false
holds (some own) id = own == id

abbrev pub is_null {ℓ} : {A : Type ℓ} → Option A → Bool
is_null none = true
is_null (some a) = false

module _ {R : Type 0} where
  abbrev pub is_fork_of : ℕ → StoredQuestion R → StoredQuestion R → Bool
  is_fork_of organisation_id q fork =
      holds fork.forked_from_id q.id && holds fork.organisation_id organisation_id

  -- `QUESTION_VISIBLE_TO_ORG`
  unfoldable pub visible_to_org : ℕ → List (StoredQuestion R) → StoredQuestion R → Bool
  visible_to_org organisation_id bank q =
      holds q.organisation_id organisation_id
      || (is_null q.organisation_id && not (any (is_fork_of organisation_id q) bank))

  -- `QUESTION_IS_SERVABLE`
  abbrev pub is_servable : StoredQuestion R → Bool
  is_servable q = not q.is_sample
