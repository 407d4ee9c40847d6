-- ===== src/Reports/Ranking/Cohort.antt =====
-- The standings of a whole cohort.
use adaptive_hire_exam_platf.Common.{
  ℕ, suc, ◌≡◌, ◌≢◌, refl, sym, subst, ap, ap₂, ◌∙◌, Option, none, some, List, [], ◌∷◌, map, length,
  All, arith, Option-cases, Bool, Bool-cases, inl, inr,
}
use adaptive_hire_exam_platf.Engine.Numbers.{Num, NumLaws}
use adaptive_hire_exam_platf.Engine.Selector.{order_by, insert_by}
use adaptive_hire_exam_platf.Engine.Selector.Picking.{order_by-All}
use adaptive_hire_exam_platf.Reports.Ranking.{
  AttemptListItem, rank_of, if_scored, scored_of, higher, ranks_from, rank_by_score,
}
use adaptive_hire_exam_platf.Reports.Ranking.Standing.{
  better, Distinct, better-order_by, better-same, falling-Placed, order_by-Falls,
}
use adaptive_hire_exam_platf.Reports.Ranking.Noting.{
  Right, order_by-Distinct, ranks_from-Right, ranks_from-absent,
}

module _ {A : Type 0} (before : A → A → Bool) where
  length-insert_by : (x : A) (xs : List A) → length (insert_by before x xs) ≡ suc (length xs)
  unfolding insert_by
  length-insert_by x [] = refl
  length-insert_by x (y ∷ ys) = ground (arith, length-insert_by x ys)

  length-order_by : (xs : List A) → length (order_by before xs) ≡ length xs
  unfolding order_by
  length-order_by [] = refl
  length-order_by (x ∷ xs) = length-insert_by x (order_by before xs) ∙ ap suc (length-order_by xs)

  insert_by-All-back :
      (P : A → Type 0) (x : A) (xs : List A) → All P (insert_by before x xs) → P x × All P xs
  unfolding insert_by
  insert_by-All-back P x [] h = h
  insert_by-All-back P x (y ∷ ys) h = elim (Bool-cases (before y x)) [
    | inl after ↦
        let parts = rw after at h in
        let rest = insert_by-All-back P x ys parts.1 in (rest.0, (parts.0, rest.1))
    | inr first ↦ rw first at h
  ]

  order_by-All-back : (P : A → Type 0) (xs : List A) → All P (order_by before xs) → All P xs
  unfolding order_by
  order_by-All-back P [] h = tt
  order_by-All-back P (x ∷ xs) h =
      let parts = insert_by-All-back P x (order_by before xs) h in
      (parts.0, order_by-All-back P xs parts.1)

map-cong-All :
    {A B : Type 0} (f g : A → B) (xs : List A) → All (λ x. f x ≡ g x) xs → map f xs ≡ map g xs
map-cong-All f g [] h = refl
map-cong-All f g (x ∷ xs) (p, h) = ap₂ (λ y ys. y ∷ ys) p (map-cong-All f g xs h)

module _ {R : Type 0} where
  -- Every attempt has its own session.
  abbrev pub DistinctSessions : List (AttemptListItem R) → Type 0
  DistinctSessions [] = Unit {0}
  DistinctSessions (row ∷ rows) =
      All (λ (r : AttemptListItem R). r.session_id ≢ row.session_id) rows × DistinctSessions rows

  scored_of-All :
      (id : ℕ) (rows : List (AttemptListItem R))
      → All (λ (r : AttemptListItem R). r.session_id ≢ id) rows
      → All (λ x. x.0 ≢ id) (scored_of rows)
  unfolding scored_of
  scored_of-All id [] h = tt
  scored_of-All id (row ∷ rows) (other, h) = added row.overall_score (scored_of-All id rows h)
    where
      added :
          (score : Option R)
          → All (λ x. x.0 ≢ id) (scored_of rows)
          → All (λ x. x.0 ≢ id) (if_scored row.session_id score (scored_of rows))
      added none rest = rest
      added (some s) rest = (other, rest)

  scored_of-Distinct :
      (rows : List (AttemptListItem R)) → DistinctSessions rows → Distinct (scored_of rows)
  unfolding scored_of
  scored_of-Distinct [] d = tt
  scored_of-Distinct (row ∷ rows) (first, d) = added row.overall_score (scored_of-Distinct rows d)
    where
      added :
          (score : Option R)
          → Distinct (scored_of rows)
          → Distinct (if_scored row.session_id score (scored_of rows))
      added none rest = rest
      added (some s) rest = (scored_of-All row.session_id rows first, rest)

  -- An attempt without a score is not in the order at all.
  unscored-absent :
      (rows : List (AttemptListItem R))
      → DistinctSessions rows
      → All
          (λ (row : AttemptListItem R).
            row.overall_score ≡ none → All (λ x. x.0 ≢ row.session_id) (scored_of rows))
          rows
  unfolding scored_of
  unscored-absent [] d = tt
  unscored-absent (r ∷ rows) (first, d) = (
    λ unscored. rw unscored (scored_of-All r.session_id rows first),
    later rows first (unscored-absent rows d),
  )
    where
      added :
          (row : AttemptListItem R) (score : Option R)
          → row.session_id ≢ r.session_id
          → All (λ x. x.0 ≢ row.session_id) (scored_of rows)
          → All (λ x. x.0 ≢ row.session_id) (if_scored r.session_id score (scored_of rows))
      added row none other rest = rest
      added row (some s) other rest = ((λ same. other (sym same)), rest)

      later :
          (others : List (AttemptListItem R))
          → All (λ (x : AttemptListItem R). x.session_id ≢ r.session_id) others
          → All
              (λ (row : AttemptListItem R).
                row.overall_score ≡ none → All (λ x. x.0 ≢ row.session_id) (scored_of rows))
              others
          → All
              (λ (row : AttemptListItem R).
                row.overall_score ≡ none
                → All
                    (λ x. x.0 ≢ row.session_id)
                    (if_scored r.session_id r.overall_score (scored_of rows)))
              others
      later [] h k = tt
      later (row ∷ others) (other, h) (absent, k) =
          ((λ unscored. added row r.overall_score other (absent unscored)), later others h k)

  scored-All :
      (P : ℕ × R → Type 0) (rows : List (AttemptListItem R))
      → All P (scored_of rows)
      → All
          (λ (row : AttemptListItem R).
            (s : R) → row.overall_score ≡ some s → P (row.session_id, s))
          rows
  unfolding scored_of
  scored-All P [] h = tt
  scored-All P (row ∷ rows) h =
      let parts = taken row.overall_score h in (parts.0, scored-All P rows parts.1)
    where
      taken :
          (score : Option R)
          → All P (if_scored row.session_id score (scored_of rows))
          → ((s : R) → score ≡ some s → P (row.session_id, s)) × All P (scored_of rows)
      taken none k = ((λ s e. cc), k)
      taken (some t) k = ((λ s e. subst (λ u. P (row.session_id, u)) (cc e) k.0), k.1)

module _ {R : Type 0} ⦃num : Num R⦄ where
  -- One more than the number of attempts with a higher score, for an attempt with a score.
  abbrev pub standing : List (AttemptListItem R) → Option R → Option ℕ
  standing rows none = none
  standing rows (some score) = some (suc (better score (scored_of rows)))

module _ {R : Type 0} ⦃num : Num R⦄ (laws : NumLaws R) where
  sorted-Right :
      (rows : List (AttemptListItem R))
      → DistinctSessions rows
      → All
          (Right
            (λ s. better s (scored_of rows))
            (ranks_from [] none 0 (order_by higher (scored_of rows))))
          (order_by higher (scored_of rows))
  unfolding better
  sorted-Right rows d =
      let scored = scored_of rows in
      let sorted = order_by higher scored in
      (ranks_from-Right (λ s. better s scored) [] none 0 [] sorted
        (λ a b same. better-same laws a b scored same) tt
        (falling-Placed laws (λ s. better s scored) none [] sorted
          (λ s. omega (arith, better-order_by s scored)) refl tt (order_by-Falls laws scored))
        (nothing sorted) (order_by-Distinct scored (scored_of-Distinct rows d)) tt).1
    where
      nothing : (es : List (ℕ × R)) → All (λ e. Unit {0}) es
      nothing [] = tt
      nothing (e ∷ es) = (tt, nothing es)

  -- The standings are what a recruiter counts by hand. If every attempt has its own session, an
  -- attempt with a score gets one more than the number of attempts with a higher score, so equal
  -- scores share a position and the next one resumes after them; one without a score gets none; and
  -- the size of the cohort is the number of attempts with a score.
  pub rank_by_score-standing :
      (rows : List (AttemptListItem R))
      → DistinctSessions rows
      → rank_by_score rows
        ≡ map
            (λ (row : AttemptListItem R). record row {
              rank = standing rows row.overall_score;
              cohort_size = length (scored_of rows);
            })
            rows
  unfolding rank_by_score rank_of
  rank_by_score-standing rows d = map-cong-All _ _ rows (
      each rows (unscored-absent rows d)
        (scored-All _ rows (order_by-All-back higher _ (scored_of rows) (sorted-Right rows d))))
    where
      ranks : List (ℕ × ℕ)
      ranks = ranks_from [] none 0 (order_by higher (scored_of rows))

      own :
          (row : AttemptListItem R)
          → (row.overall_score ≡ none → All (λ x. x.0 ≢ row.session_id) (scored_of rows))
          → ((s : R)
              → row.overall_score ≡ some s
              → Right (λ s. better s (scored_of rows)) ranks (row.session_id, s))
          → rank_of row.session_id ranks ≡ standing rows row.overall_score
      own row absent right = elim (Option-cases row.overall_score) [
        | inl gone ↦ rw gone (
            ranks_from-absent [] none 0 row.session_id (order_by higher (scored_of rows))
              (order_by-All (λ x. x.0 ≢ row.session_id) higher (scored_of rows) (absent gone)) refl)
        | inr (s, e) ↦ rw e (right s e)
      ]

      each :
          (others : List (AttemptListItem R))
          → All
              (λ (row : AttemptListItem R).
                row.overall_score ≡ none → All (λ x. x.0 ≢ row.session_id) (scored_of rows))
              others
          → All
              (λ (row : AttemptListItem R).
                (s : R)
                → row.overall_score ≡ some s
                → Right (λ s. better s (scored_of rows)) ranks (row.session_id, s))
              others
          → All
              (λ (row : AttemptListItem R).
                record row {
                  rank = rank_of row.session_id ranks;
                  cohort_size = length (order_by higher (scored_of rows));
                }
                ≡ record row {
                  rank = standing rows row.overall_score;
                  cohort_size = length (scored_of rows);
                })
              others
      each [] h k = tt
      each (row ∷ others) (absent, h) (right, k) = (
        ap₂ (λ r n. record row { rank = r; cohort_size = n }) (own row absent right)
            (length-order_by higher (scored_of rows)),
        each others h k,
      )
