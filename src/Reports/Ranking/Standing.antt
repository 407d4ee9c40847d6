-- ===== src/Reports/Ranking/Standing.antt =====
-- The standing of an attempt is one more than the number of attempts above it.
use adaptive_hire_exam_platf.Common.{
  ℕ, suc, ◌+◌, ◌≡◌, ◌≢◌, refl, ap, ◌∙◌, Option, none, some, List, [], ◌∷◌, length, true, false, All,
  All-imp, arith, Bool-cases, inl, inr, if◌then◌else◌,
}
use adaptive_hire_exam_platf.Common.Equality.{nat_eq}
use adaptive_hire_exam_platf.Engine.Numbers.{Num, NumLaws}
use adaptive_hire_exam_platf.Engine.Selector.{order_by, insert_by}
use adaptive_hire_exam_platf.Engine.Selector.Picking.{insert_by-All}
use adaptive_hire_exam_platf.Reports.Ranking.{higher, same_score}

module _ {R : Type 0} where
  abbrev pub Distinct : List (ℕ × R) → Type 0
  Distinct [] = Unit {0}
  Distinct (e ∷ es) = All (λ x. x.0 ≢ e.0) es × Distinct es

module _ {R : Type 0} ⦃num : Num R⦄ where
  -- How many have a higher score.
  unfoldable pub better : R → List (ℕ × R) → ℕ
  better score [] = 0
  better score (e ∷ es) = (if num.lt score e.1 then 1 else 0) + better score es

  abbrev pub Falls : List (ℕ × R) → Type 0
  Falls [] = Unit {0}
  Falls (e ∷ es) = All (λ x. num.lt e.1 x.1 ≡ false) es × Falls es

  -- All that were placed have at least the score of the previous one.
  abbrev Above : Option (ℕ × R) → List (ℕ × R) → Type 0
  Above none done = done ≡ []
  Above (some p) done = All (λ d. num.lt d.1 p.1 ≡ false) done

  abbrev Below : Option (ℕ × R) → List (ℕ × R) → Type 0
  Below none rest = Unit {0}
  Below (some p) rest = All (λ x. num.lt p.1 x.1 ≡ false) rest

  abbrev pub IsFresh : Option (ℕ × R) → R → Type 0
  IsFresh none score = Unit {0}
  IsFresh (some p) score = same_score p.1 score ≡ false

  -- At the head of each group of equal scores, the index is the number of higher scores.
  abbrev pub Placed : (R → ℕ) → Option (ℕ × R) → ℕ → List (ℕ × R) → Type 0
  Placed c previous index [] = Unit {0}
  Placed c previous index (e ∷ rest) =
      (IsFresh previous e.1 → c e.1 ≡ index) × Placed c (some e) (suc index) rest

  better-All :
      (score : R) (es : List (ℕ × R))
      → All (λ x. num.lt score x.1 ≡ true) es
      → better score es ≡ length es
  unfolding better
  better-All score [] h = refl
  better-All score (e ∷ es) (first, h) = rw first (omega (arith, better-All score es h))

  better-none :
      (score : R) (es : List (ℕ × R)) → All (λ x. num.lt score x.1 ≡ false) es → better score es ≡ 0
  unfolding better
  better-none score [] h = refl
  better-none score (e ∷ es) (first, h) = rw first (omega (arith, better-none score es h))

  better-insert_by :
      (score : R) (e : ℕ × R) (es : List (ℕ × R))
      → better score (insert_by higher e es) ≡ better score (e ∷ es)
  unfolding better insert_by
  better-insert_by score e [] = refl
  better-insert_by score e (x ∷ es) = ground (arith, better-insert_by score e es)

  pub better-order_by :
      (score : R) (es : List (ℕ × R)) → better score (order_by higher es) ≡ better score es
  unfolding better order_by
  better-order_by score [] = refl
  better-order_by score (e ∷ es) =
      better-insert_by score e (order_by higher es)
      ∙ ap (λ n. (if num.lt score e.1 then 1 else 0) + n) (better-order_by score es)

module _ {R : Type 0} ⦃num : Num R⦄ (laws : NumLaws R) where
  irreflexive : (a : R) → num.lt a a ≡ false
  irreflexive a = ground (arith, laws.lt_asymm a a)

  pub better-same :
      (a b : R) (es : List (ℕ × R)) → same_score a b ≡ true → better a es ≡ better b es
  unfolding better
  better-same a b [] h = refl
  better-same a b (e ∷ es) h =
      ground (arith, better-same a b es h, laws.le_trans e.1 b a, laws.le_trans e.1 a b)

  previous-All :
      (p e : ℕ × R) (done : List (ℕ × R))
      → num.lt e.1 p.1 ≡ true
      → All (λ d. num.lt d.1 p.1 ≡ false) done
      → All (λ d. num.lt e.1 d.1 ≡ true) done
  previous-All p e done h =
      All-imp (λ d. num.lt d.1 p.1 ≡ false) (λ d. num.lt e.1 d.1 ≡ true) done
        (λ d k. ground (arith, laws.le_trans p.1 d.1 e.1))

  counted :
      (previous : Option (ℕ × R)) (e : ℕ × R) (done rest : List (ℕ × R))
      → Above previous done
      → Below previous (e ∷ rest)
      → IsFresh previous e.1
      → better e.1 done ≡ length done
  unfolding better
  counted none e done rest a b f = rw a refl
  counted (some p) e done rest a (b, below) f =
      better-All e.1 done (previous-All p e done (ground arith) a)

  next-Above :
      (previous : Option (ℕ × R)) (e : ℕ × R) (done rest : List (ℕ × R))
      → Above previous done
      → Below previous (e ∷ rest)
      → Above (some e) (e ∷ done)
  next-Above none e done rest a b = rw a (irreflexive e.1, tt)
  next-Above (some p) e done rest a (b, below) = (
    irreflexive e.1,
    All-imp (λ d. num.lt d.1 p.1 ≡ false) (λ d. num.lt d.1 e.1 ≡ false) done
        (λ d k. laws.le_trans e.1 p.1 d.1 b k) a,
  )

  pub falling-Placed :
      (c : R → ℕ) (previous : Option (ℕ × R)) (done rest : List (ℕ × R))
      → ((s : R) → c s ≡ better s done + better s rest)
      → Above previous done
      → Below previous rest
      → Falls rest
      → Placed c previous (length done) rest
  unfolding better
  falling-Placed c previous done [] total a b f = tt
  falling-Placed c previous done (e ∷ rest) total a b (first, f) = (
    λ fresh.
        let all_done = counted previous e done rest a b fresh in
        let none_left = better-none e.1 rest first in
        let self = irreflexive e.1 in
        let sum = total e.1 in
        (let sum' = rw self at sum in omega (arith, sum', all_done, none_left)),
    falling-Placed c (some e) (e ∷ done) rest (λ s. omega (arith, total s))
        (next-Above previous e done rest a b) first f,
  )

  insert_by-Falls : (e : ℕ × R) (es : List (ℕ × R)) → Falls es → Falls (insert_by higher e es)
  unfolding insert_by
  insert_by-Falls e [] f = (tt, tt)
  insert_by-Falls e (x ∷ es) (first, f) = elim (Bool-cases (higher x e)) [
    | inl after ↦ rw after (
      insert_by-All (λ z. num.lt x.1 z.1 ≡ false) higher e es (laws.lt_asymm e.1 x.1 after) first,
      insert_by-Falls e es f,
    )
    | inr before ↦ rw before (
      (
        before,
        All-imp (λ z. num.lt x.1 z.1 ≡ false) (λ z. num.lt e.1 z.1 ≡ false) es
            (λ z k. laws.le_trans z.1 x.1 e.1 k before) first,
      ),
      (first, f),
    )
  ]

  pub order_by-Falls : (es : List (ℕ × R)) → Falls (order_by higher es)
  unfolding order_by
  order_by-Falls [] = tt
  order_by-Falls (e ∷ es) = insert_by-Falls e (order_by higher es) (order_by-Falls es)
