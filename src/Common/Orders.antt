-- ===== src/Common/Orders.antt =====
-- Rearrangements of a list, measured by the native numbers, and membership by a test.
use Prim.Native.Nat.{◌≤◌, suc}
use mathlib.Core.Path.{◌≡◌, refl, sym, ap, ◌∙◌}
use mathlib.Core.Logic.{◌↔◌, inl, inr}
use mathlib.Core.Logic.Or
use mathlib.Core.Bool.{true, Bool-set}
use mathlib.Core.List.{
  List, [], ◌∷◌, Mem, mem-cons, mem-cons_self, mem-cons_of_mem, not-mem-nil, Nodup, Subset, Perm,
}
use mathlib.Core.List
use mathlib.Core.List.Perm
use mathlib.Core.List.Nodup
use mathlib.Core.List.Subperm
use native.Mathlib.Bridge.{from_ℕ, from_le⁻¹}
use native.Mathlib.Omega.{arith}
use adaptive_hire_exam_platf.Common.Tests.{Bool-cases}
use adaptive_hire_exam_platf.Common.Lists.{length}
use adaptive_hire_exam_platf.Common.Equality.{Eq, ◌==◌, includes}

module _ {ℓ} {A : Type ℓ} where
  from_ℕ-length : (xs : List A) → from_ℕ (List.length xs) ≡ length xs
  from_ℕ-length [] = refl
  from_ℕ-length (x ∷ xs) = ap suc (from_ℕ-length xs)

  pub Perm-length : {xs ys : List A} → Perm xs ys → length xs ≡ length ys
  Perm-length {xs} {ys} p = sym (from_ℕ-length xs) ∙ ap from_ℕ (Perm.length-eq p) ∙ from_ℕ-length ys

  -- The pigeonhole principle.
  pub Perm_of_subset :
      {xs ys : List A} → Nodup xs → Subset xs ys → length ys ≤ length xs → Perm xs ys
  Perm_of_subset {xs} {ys} d s h = Subperm.perm_of_length_le (Nodup.subperm d s) (
      from_le⁻¹ (List.length ys) (List.length xs)
        (omega (arith, from_ℕ-length xs, from_ℕ-length ys)))

module _ {ℓ} {A : Type ℓ} ⦃e : Eq A⦄ where
  includes-Mem : (a : A) (xs : List A) → includes a xs ≡ true → Mem a xs
  unfolding includes
  includes-Mem a [] h = cc
  includes-Mem a (x ∷ xs) h = elim (Bool-cases (a == x)) [
    | inl same ↦ mem-cons.1 (Or.inl ((e.same_iff a x).0 same))
    | inr other ↦ mem-cons_of_mem x (includes-Mem a xs (ground arith))
  ]

  Mem-includes : (a : A) (xs : List A) → Mem a xs → includes a xs ≡ true
  unfolding includes
  Mem-includes a [] m = absurd (not-mem-nil m)
  Mem-includes a (x ∷ xs) m =
      Or.elim (Bool-set _ _) (mem-cons.0 m) (λ same. ground (arith, e.same_iff a x))
        (λ later. ground (arith, Mem-includes a xs later))

  pub includes_iff : (a : A) (xs : List A) → (includes a xs ≡ true) ↔ Mem a xs
  includes_iff a xs = (includes-Mem a xs, Mem-includes a xs)
