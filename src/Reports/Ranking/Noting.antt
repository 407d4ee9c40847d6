-- ===== src/Reports/Ranking/Noting.antt =====
-- The ranks that the loop over the sorted attempts notes.
use adaptive_hire_exam_platf.Common.{
  ℕ, suc, ◌≡◌, ◌≢◌, sym, ap, Option, none, some, List, [], ◌∷◌, true, All, arith, Bool-cases, inl,
  inr,
}
use adaptive_hire_exam_platf.Common.Equality.{nat_eq}
use adaptive_hire_exam_platf.Engine.Numbers.{Num}
use adaptive_hire_exam_platf.Engine.Selector.{order_by, insert_by}
use adaptive_hire_exam_platf.Engine.Selector.Picking.{insert_by-All, order_by-All}
use adaptive_hire_exam_platf.Reports.Ranking.{rank_of, higher, same_score, place, ranks_from}
use adaptive_hire_exam_platf.Reports.Ranking.Standing.{Distinct, IsFresh, Placed}

module _ {R : Type 0} ⦃num : Num R⦄ where
  insert_by-Distinct :
      (e : ℕ × R) (es : List (ℕ × R))
      → All (λ x. x.0 ≢ e.0) es
      → Distinct es
      → Distinct (insert_by higher e es)
  unfolding insert_by
  insert_by-Distinct e [] h d = (tt, tt)
  insert_by-Distinct e (x ∷ es) (other, h) (first, d) = elim (Bool-cases (higher x e)) [
    | inl after ↦ rw after (
      insert_by-All (λ z. z.0 ≢ x.0) higher e es (λ same. other (sym same)) first,
      insert_by-Distinct e es h d,
    )
    | inr before ↦ rw before ((other, h), (first, d))
  ]

  pub order_by-Distinct : (es : List (ℕ × R)) → Distinct es → Distinct (order_by higher es)
  unfolding order_by
  order_by-Distinct [] d = tt
  order_by-Distinct (e ∷ es) (first, d) =
      insert_by-Distinct e (order_by higher es) (order_by-All (λ x. x.0 ≢ e.0) higher es first)
        (order_by-Distinct es d)

  -- The rank noted for an entry is one more than the number of higher scores.
  abbrev pub Right : (R → ℕ) → List (ℕ × ℕ) → ℕ × R → Type 0
  Right c ranks e = rank_of e.0 ranks ≡ some (suc (c e.1))

  abbrev PrevRight : (R → ℕ) → List (ℕ × ℕ) → Option (ℕ × R) → Type 0
  PrevRight c ranks none = Unit {0}
  PrevRight c ranks (some p) = Right c ranks p

  place-lem :
      (c : R → ℕ) (ranks : List (ℕ × ℕ)) (previous : Option (ℕ × R)) (index : ℕ) (score : R)
      → ((a b : R) → same_score a b ≡ true → c a ≡ c b)
      → PrevRight c ranks previous
      → (IsFresh previous score → c score ≡ index)
      → place ranks previous index score ≡ suc (c score)
  place-lem c ranks none index score cong right fresh = ap suc (sym (fresh tt))
  place-lem c ranks (some p) index score cong right fresh =
      elim (Bool-cases (same_score p.1 score)) [
        | inl tied ↦ rw (tied, right) (ap suc (cong p.1 score tied))
        | inr apart ↦ rw apart (ap suc (sym (fresh apart)))
      ]

  still-Right :
      (c : R → ℕ) (ranks : List (ℕ × ℕ)) (id n : ℕ) (es : List (ℕ × R))
      → All (λ x. id ≢ x.0) es
      → All (Right c ranks) es
      → All (Right c ((id, n) ∷ ranks)) es
  unfolding rank_of
  still-Right c ranks id n [] h k = tt
  still-Right c ranks id n (e ∷ es) (other, h) (right, k) =
      (ground (arith, nat_eq.same_iff id e.0), still-Right c ranks id n es h k)

  pub ranks_from-Right :
      (c : R → ℕ) (ranks : List (ℕ × ℕ)) (previous : Option (ℕ × R)) (index : ℕ)
      (kept rest : List (ℕ × R))
      → ((a b : R) → same_score a b ≡ true → c a ≡ c b)
      → PrevRight c ranks previous
      → Placed c previous index rest
      → All (λ e. All (λ x. e.0 ≢ x.0) kept) rest
      → Distinct rest
      → All (Right c ranks) kept
      → All (Right c (ranks_from ranks previous index rest)) kept
        × All (Right c (ranks_from ranks previous index rest)) rest
  unfolding ranks_from rank_of
  ranks_from-Right c ranks previous index kept [] cong right placed apart d k = (k, tt)
  ranks_from-Right c ranks previous index kept (e ∷ rest) cong right (fresh, placed) (other, apart)
        (first, d) k =
      let n = place ranks previous index e.1 in
      let noted : Right c ((e.0, n) ∷ ranks) e =
        rw (place-lem c ranks previous index e.1 cong right fresh)
          (ground (arith, nat_eq.same_iff e.0 e.0)) in
      let (all_kept, others) =
        ranks_from-Right c ((e.0, n) ∷ ranks) (some e) (suc index) (e ∷ kept) rest cong noted placed
          (both e kept rest first apart) d (noted, still-Right c ranks e.0 n kept other k) in
      (all_kept.1, (all_kept.0, others))
    where
      both :
          (e : ℕ × R) (kept rest : List (ℕ × R))
          → All (λ x. x.0 ≢ e.0) rest
          → All (λ y. All (λ x. y.0 ≢ x.0) kept) rest
          → All (λ y. All (λ x. y.0 ≢ x.0) (e ∷ kept)) rest
      both e kept [] h k = tt
      both e kept (y ∷ rest) (p, h) (q, k) = ((p, q), both e kept rest h k)

  pub ranks_from-absent :
      (ranks : List (ℕ × ℕ)) (previous : Option (ℕ × R)) (index id : ℕ) (rest : List (ℕ × R))
      → All (λ x. x.0 ≢ id) rest
      → rank_of id ranks ≡ none
      → rank_of id (ranks_from ranks previous index rest) ≡ none
  unfolding ranks_from rank_of
  ranks_from-absent ranks previous index id [] h k = k
  ranks_from-absent ranks previous index id (e ∷ rest) (other, h) k =
      ranks_from-absent ((e.0, place ranks previous index e.1) ∷ ranks) (some e) (suc index) id rest
        h (ground (arith, nat_eq.same_iff e.0 id))
