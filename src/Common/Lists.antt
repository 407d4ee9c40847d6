-- ===== src/Common/Lists.antt =====
-- Lists measured and indexed by native numbers, under the library's names.
use Prim.Native.Nat.{ℕ, zero, suc, ◌+◌, ◌-◌, ◌≤◌}
use mathlib.Core.Path.{◌≡◌, refl, sym, ap, subst}
use mathlib.Core.Logic.{inl, inr}
use mathlib.Core.Bool.{Bool, true, false, ◌&&◌, ◌||◌}
use mathlib.Core.List.{Memᴰ, List, [], ◌∷◌, ◌++◌, map}
use mathlib.Core.Option.{Option, none, some}
use native.Mathlib.Omega.{arith}
use adaptive_hire_exam_platf.Common.Tests.{if◌then◌else◌, Bool-cases}

module _ {ℓ} {A : Type ℓ} where
  abbrev pub length : List A → ℕ
  length [] = 0
  length (x ∷ xs) = suc (length xs)

  abbrev pub get_elem? : List A → ℕ → Option A
  get_elem? [] i = none
  get_elem? (x ∷ xs) zero = some x
  get_elem? (x ∷ xs) (suc i) = get_elem? xs i

  -- A write out of bounds changes nothing.
  abbrev pub set : List A → ℕ → A → List A
  set [] i v = []
  set (x ∷ xs) zero v = v ∷ xs
  set (x ∷ xs) (suc i) v = x ∷ set xs i v

  abbrev pub filter : (A → Bool) → List A → List A
  filter p [] = []
  filter p (x ∷ xs) = if p x then x ∷ filter p xs else filter p xs

  abbrev pub any : (A → Bool) → List A → Bool
  any p [] = false
  any p (x ∷ xs) = p x || any p xs

  abbrev pub all : (A → Bool) → List A → Bool
  all p [] = true
  all p (x ∷ xs) = p x && all p xs

  abbrev pub find : (A → Bool) → List A → Option A
  find p [] = none
  find p (x ∷ xs) = if p x then some x else find p xs

  abbrev pub drop : ℕ → List A → List A
  drop zero xs = xs
  drop (suc n) [] = []
  drop (suc n) (x ∷ xs) = drop n xs

  -- `xs.slice(-n)`
  abbrev pub last_items : ℕ → List A → List A
  last_items n xs = drop (length xs - n) xs

  pub length-drop : (n : ℕ) (xs : List A) → length (drop n xs) ≡ length xs - n
  length-drop zero xs = omega arith
  length-drop (suc n) [] = omega arith
  length-drop (suc n) (x ∷ xs) = omega (arith, length-drop n xs)

  pub length-append : (xs ys : List A) → length (xs ++ ys) ≡ length xs + length ys
  length-append [] ys = omega arith
  length-append (x ∷ xs) ys = omega (arith, length-append xs ys)

  pub length-set : (xs : List A) (i : ℕ) (v : A) → length (set xs i v) ≡ length xs
  length-set [] i v = refl
  length-set (x ∷ xs) zero v = refl
  length-set (x ∷ xs) (suc i) v = ap suc (length-set xs i v)

  pub length-filter-le : (p : A → Bool) (xs : List A) → length (filter p xs) ≤ length xs
  length-filter-le p [] = omega arith
  length-filter-le p (x ∷ xs) = ground (arith, length-filter-le p xs)

module _ {ℓ κ} {A : Type ℓ} {B : Type κ} where
  pub length-map : (xs : List A) (f : A → B) → length (map f xs) ≡ length xs
  length-map [] f = refl
  length-map (x ∷ xs) f = ap suc (length-map xs f)

-- What holds of every element, as a tuple.
module _ {ℓ κ} {A : Type ℓ} where
  abbrev pub All : (A → Type κ) → List A → Type κ
  All P [] = Unit
  All P (x ∷ xs) = P x × All P xs

module _ {ℓ κ μ} {A : Type ℓ} (P : A → Type κ) (Q : A → Type μ) where
  pub All-imp : (xs : List A) → ((a : A) → P a → Q a) → All P xs → All Q xs
  All-imp [] f a = tt
  All-imp (x ∷ xs) f (p, a) = (f x p, All-imp xs f a)

module _ {ℓ κ} {A : Type ℓ} (P : A → Type κ) where
  pub All-append : (xs ys : List A) → All P xs → All P ys → All P (xs ++ ys)
  All-append [] ys h k = k
  All-append (x ∷ xs) ys (p, h) k = (p, All-append xs ys h k)

  pub All-lookup : {a : A} (xs : List A) → All P xs → Memᴰ a xs → P a
  All-lookup [] h m = elim m [ ]
  All-lookup (x ∷ xs) (p, h) (Memᴰ.head e) = subst P (sym e) p
  All-lookup (x ∷ xs) (p, h) (Memᴰ.tail m) = All-lookup xs h m

module _ {ℓ κ μ} {A : Type ℓ} {B : Type μ} (P : A → Type κ) where
  pub All-map : (f : B → A) (xs : List B) → All (λ x. P (f x)) xs → All P (map f xs)
  All-map f [] h = tt
  All-map f (x ∷ xs) (p, h) = (p, All-map f xs h)

module _ {ℓ} {A : Type ℓ} where
  -- What a filter keeps is in the list and passes the test.
  pub filter-Memᴰ :
      (test : A → Bool) (xs : List A) → All (λ x. Memᴰ x xs × (test x ≡ true)) (filter test xs)
  filter-Memᴰ test [] = tt
  filter-Memᴰ test (x ∷ xs) =
      let rest =
        All-imp (λ y. Memᴰ y xs × (test y ≡ true)) (λ y. Memᴰ y (x ∷ xs) × (test y ≡ true))
          (filter test xs) (λ y h. (Memᴰ.tail h.0, h.1)) (filter-Memᴰ test xs) in
      elim (Bool-cases (test x)) [
        | inl passed ↦ rw passed ((Memᴰ.head refl, passed), rest)
        | inr dropped ↦ rw dropped rest
      ]
