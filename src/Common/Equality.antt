-- ===== src/Common/Equality.antt =====
-- Equality tests as an interface: `===` on numbers, on identifiers and on texts.
use Prim.Native.Nat.{ℕ}
use Prim.Native.String.{String}
use mathlib.Core.Path.{◌≡◌, refl}
use mathlib.Core.Logic.{◌↔◌}
use mathlib.Core.Bool.{Bool, true, false, not, ◌&&◌, ◌||◌}
use mathlib.Core.List.{List, [], ◌∷◌, ◌++◌}
use native.Mathlib.Omega.{arith}
use text.Mathlib.Text.{◌==◌ as str_eq}
use text.Mathlib.TextEquality.{eq_iff}
use adaptive_hire_exam_platf.Common.Tests.{nat_beq, nat_beq_iff, if◌then◌else◌}

pub record Eq {ℓ} (V : Type ℓ) : Type ℓ where
  pub same : V → V → Bool
  pub same_iff : (v w : V) → (same v w ≡ true) ↔ (v ≡ w)

module _ {ℓ} {V : Type ℓ} ⦃e : Eq V⦄ where
  infix 50 ◌==◌
  abbrev pub ◌==◌ : V → V → Bool
  ◌==◌ = e.same

  pub ==_refl : (v : V) → (v == v) ≡ true
  ==_refl v = (e.same_iff v v).1 refl

instance abbrev pub string_eq : Eq String
string_eq = record { same_iff = eq_iff; same = str_eq }

instance abbrev pub nat_eq : Eq ℕ
nat_eq = record { same_iff = nat_beq_iff; same = nat_beq }

pub ==_flip : (a b : ℕ) → (b == a) ≡ (a == b)
==_flip a b = ground (arith, nat_eq.same_iff a b, nat_eq.same_iff b a)

-- `xs.includes(a)`, `new Set(xs)` in insertion order, and `set.delete(a)`.
module _ {ℓ} {A : Type ℓ} ⦃e : Eq A⦄ where
  unfoldable pub includes : A → List A → Bool
  includes a [] = false
  includes a (x ∷ xs) = a == x || includes a xs

  unfoldable pub delete : A → List A → List A
  delete a [] = []
  delete a (x ∷ xs) = if a == x then delete a xs else x ∷ delete a xs

  unfoldable pub distinct : List A → List A
  unfolding delete
  distinct [] = []
  distinct (x ∷ xs) = x ∷ delete x (distinct xs)

  pub includes-append :
      (a : A) (xs ys : List A) → includes a (xs ++ ys) ≡ (includes a xs || includes a ys)
  unfolding includes
  includes-append a [] ys = refl
  includes-append a (x ∷ xs) ys = ground (arith, includes-append a xs ys)

  pub includes-delete :
      (a b : A) (xs : List A) → includes a (delete b xs) ≡ (not (b == a) && includes a xs)
  unfolding includes delete
  includes-delete a b [] = ground arith
  includes-delete a b (x ∷ xs) =
      ground (arith, includes-delete a b xs, e.same_iff a x, e.same_iff b x, e.same_iff b a)

  pub includes-distinct : (a : A) (xs : List A) → includes a (distinct xs) ≡ includes a xs
  unfolding includes distinct
  includes-distinct a [] = refl
  includes-distinct a (x ∷ xs) = ground (
    arith,
    includes-distinct a xs,
    includes-delete a x (distinct xs),
    e.same_iff a x,
    e.same_iff x a,
  )
