-- ===== src/Reports/Ranking.antt =====
-- `rankByScore` of backend/src/reports/reports.service.ts: the standing of the attempts at one
-- assessment.
pub mod Standing
pub mod Noting
pub mod Cohort
use adaptive_hire_exam_platf.Common.{
  ℕ, suc, Option, none, some, List, [], ◌∷◌, map, length, Bool, true, false, not, ◌&&◌,
  if◌then◌else◌,
}
use adaptive_hire_exam_platf.Common.Equality.{◌==◌, nat_eq}
use adaptive_hire_exam_platf.Engine.Numbers.{Num}
use adaptive_hire_exam_platf.Engine.Selector.{order_by}
use adaptive_hire_exam_platf.Session.Views.{or_given}

pub record AttemptListItem (R : Type 0) : Type 0 where
  pub session_id : ℕ
  pub overall_score : Option R
  pub rank : Option ℕ
  pub cohort_size : ℕ

-- `ranks.get(id)`, where the last write is the first entry.
unfoldable pub rank_of : ℕ → List (ℕ × ℕ) → Option ℕ
rank_of id [] = none
rank_of id ((own, rank) ∷ ranks) = if own == id then some rank else rank_of id ranks

module _ {R : Type 0} where
  abbrev pub if_scored : ℕ → Option R → List (ℕ × R) → List (ℕ × R)
  if_scored id none rest = rest
  if_scored id (some score) rest = (id, score) ∷ rest

  unfoldable pub scored_of : List (AttemptListItem R) → List (ℕ × R)
  scored_of [] = []
  scored_of (row ∷ rows) = if_scored row.session_id row.overall_score (scored_of rows)

module _ {R : Type 0} ⦃num : Num R⦄ where
  abbrev pub higher : ℕ × R → ℕ × R → Bool
  higher a b = num.lt b.1 a.1

  -- `previous.score === entry.score`
  abbrev pub same_score : R → R → Bool
  same_score a b = not (num.lt a b) && not (num.lt b a)

  abbrev pub place : List (ℕ × ℕ) → Option (ℕ × R) → ℕ → R → ℕ
  place ranks none index score = suc index
  place ranks (some previous) index score =
      if same_score previous.1 score
      then or_given (rank_of previous.0 ranks) (suc index)
      else suc index

  -- The `forEach`, from an index on.
  unfoldable pub ranks_from : List (ℕ × ℕ) → Option (ℕ × R) → ℕ → List (ℕ × R) → List (ℕ × ℕ)
  unfolding rank_of
  ranks_from ranks previous index [] = ranks
  ranks_from ranks previous index (entry ∷ rest) =
      ranks_from ((entry.0, place ranks previous index entry.1) ∷ ranks) (some entry) (suc index)
        rest

  unfoldable pub rank_by_score : List (AttemptListItem R) → List (AttemptListItem R)
  unfolding scored_of order_by ranks_from rank_of
  rank_by_score rows =
      let scored : List (ℕ × R) = order_by higher (scored_of rows) in
      let ranks : List (ℕ × ℕ) = ranks_from [] none 0 scored in
      map
        (λ (row : AttemptListItem R). record row {
          rank = rank_of row.session_id ranks;
          cohort_size = length scored;
        })
        rows
