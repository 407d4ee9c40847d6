-- ===== src/Engine/Selector/Picking.antt =====
-- What holds of every row holds of those that a query orders, cuts and draws.
use adaptive_hire_exam_platf.Common.{
  ℕ, zero, suc, ◌≡◌, Option, none, some, List, [], ◌∷◌, Bool, true, false, length, get_elem?,
  filter, All, Bool-cases, inl, inr, if◌then◌else◌,
}
use adaptive_hire_exam_platf.Common.Equality.{nat_eq, string_eq}
use adaptive_hire_exam_platf.Engine.Selector.{take, insert_by, order_by, pick_random, or_else}

-- What holds of a value that may be missing.
abbrev pub Ever : {A : Type 0} → (A → Type 0) → Option A → Type 0
Ever P none = Unit {0}
Ever P (some a) = P a

module _ {A : Type 0} (P : A → Type 0) where
  pub take-All : (n : ℕ) (xs : List A) → All P xs → All P (take n xs)
  take-All zero xs h = tt
  take-All (suc n) [] h = tt
  take-All (suc n) (x ∷ xs) (p, h) = (p, take-All n xs h)

  pub insert_by-All :
      (before : A → A → Bool) (x : A) (xs : List A) → P x → All P xs → All P (insert_by before x xs)
  unfolding insert_by
  insert_by-All before x [] p h = (p, tt)
  insert_by-All before x (y ∷ ys) p (q, h) = elim (Bool-cases (before y x)) [
    | inl after ↦ rw after (q, insert_by-All before x ys p h)
    | inr first ↦ rw first (p, (q, h))
  ]

  pub order_by-All : (before : A → A → Bool) (xs : List A) → All P xs → All P (order_by before xs)
  unfolding order_by
  order_by-All before [] h = tt
  order_by-All before (x ∷ xs) (p, h) =
      insert_by-All before x (order_by before xs) p (order_by-All before xs h)

  pub filter-All : (test : A → Bool) (xs : List A) → All P xs → All P (filter test xs)
  filter-All test [] h = tt
  filter-All test (x ∷ xs) (p, h) = elim (Bool-cases (test x)) [
    | inl yes_it ↦ rw yes_it (p, filter-All test xs h)
    | inr no_it ↦ rw no_it (filter-All test xs h)
  ]

  pub get_elem?-Ever : (xs : List A) (i : ℕ) → All P xs → Ever P (get_elem? xs i)
  get_elem?-Ever [] i h = tt
  get_elem?-Ever (x ∷ xs) zero (p, h) = p
  get_elem?-Ever (x ∷ xs) (suc i) (p, h) = get_elem?-Ever xs i h

  pub pick_random-Ever : (draw : ℕ → ℕ) (xs : List A) → All P xs → Ever P (pick_random draw xs)
  pick_random-Ever draw [] h = tt
  pick_random-Ever draw (x ∷ xs) h = get_elem?-Ever (x ∷ xs) (draw (length (x ∷ xs))) h

  pub or_else-Ever : (a b : Option A) → Ever P a → Ever P b → Ever P (or_else a b)
  or_else-Ever none b p q = q
  or_else-Ever (some a) b p q = p

  pub if-Ever :
      (test : Bool) (a b : Option A) → Ever P a → Ever P b → Ever P (if test then a else b)
  if-Ever true a b p q = p
  if-Ever false a b p q = q

pub filter-passed :
    {A : Type 0} (test : A → Bool) (xs : List A) → All (λ x. test x ≡ true) (filter test xs)
filter-passed test [] = tt
filter-passed test (x ∷ xs) = elim (Bool-cases (test x)) [
  | inl yes_it ↦ rw yes_it (yes_it, filter-passed test xs)
  | inr no_it ↦ rw no_it (filter-passed test xs)
]

pub All-both :
    {A : Type 0} (P Q : A → Type 0) (xs : List A) → All P xs → All Q xs → All (λ x. P x × Q x) xs
All-both P Q [] h k = tt
All-both P Q (x ∷ xs) (p, h) (q, k) = ((p, q), All-both P Q xs h k)
