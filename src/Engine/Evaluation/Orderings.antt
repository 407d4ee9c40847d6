-- ===== src/Engine/Evaluation/Orderings.antt =====
-- The enumeration of a ranking's answers is exact.
use mathlib.Core.Logic.{∥∥₁_elim, ∥∥₁_map}
use mathlib.Core.Logic.Or
use mathlib.Core.List.{
  Mem, Mem-prop, mem-cons, mem-cons_self, mem-cons_of_mem, not-mem-nil, mem-map_of_mem,
  mem-append_left, mem-append_right, Perm, Perm-prop,
}
use mathlib.Core.List.Perm
use adaptive_hire_exam_platf.Common.{
  ℕ, zero, suc, ◌*◌, ◌≤◌, ◌≡◌, refl, List, [], ◌∷◌, ◌++◌, map, length, leb, arith, length-map,
  length-append, leb→le, All, Bool-cases, inl, inr, sym, ap, subst, ◌∙◌, ◌-◌, ◌<◌,
}
use adaptive_hire_exam_platf.Common.Orders.{Perm-length}
use adaptive_hire_exam_platf.Engine.Evaluation.Permutations.{
  put_back, picks, prefix_all, permutations_within, permutations,
}

abbrev pub factorial : ℕ → ℕ
factorial zero = 1
factorial (suc n) = suc n * factorial n

factorial_few : (n : ℕ) → n ≤ 1 → 1 ≡ factorial n
factorial_few zero h = refl
factorial_few (suc n) h = let e : n ≡ 0 = omega arith in rw e

factorial_pred : (n m : ℕ) → n ≡ suc m → n * factorial m ≡ factorial n
factorial_pred n m e = rw e

module _ {A : Type 0} where
  All-map {κ} :
      {B : Type 0} (P : B → Type κ) (Q : A → Type κ) (f : A → B) (xs : List A)
      → ((x : A) → Q x → P (f x))
      → All Q xs
      → All P (map f xs)
  All-map P Q f [] h a = tt
  All-map P Q f (x ∷ xs) h (q, a) = (h x q, All-map P Q f xs h a)

  All-mem {κ} :
      (P : A → Type κ)
      → ((a : A) → IsProp (P a))
      → (xs : List A) → All P xs
      → {a : A} → Mem a xs
      → P a
  All-mem P prop [] h m = absurd (not-mem-nil m)
  All-mem P prop (x ∷ xs) (p, h) {a} m =
      Or.elim (prop a) (mem-cons.0 m) (λ same. subst P (sym same) p) (All-mem P prop xs h)

  All-append {κ} : (P : A → Type κ) (xs ys : List A) → All P xs → All P ys → All P (xs ++ ys)
  All-append P [] ys a b = b
  All-append P (x ∷ xs) ys (p, a) b = (p, All-append P xs ys a b)

module _ {A : Type 0} where
  -- Each pick splits off one item.
  picks-Perm : (xs : List A) → All (λ p. Perm (p.0 ∷ p.1) xs) (picks xs)
  unfolding picks
  picks-Perm [] = tt
  picks-Perm (x ∷ xs) = (
    Perm.refl (x ∷ xs),
    All-map (λ p. Perm (p.0 ∷ p.1) (x ∷ xs)) (λ p. Perm (p.0 ∷ p.1) xs) (put_back x) (picks xs)
        (λ p h. Perm.trans (Perm.swap x p.0 p.1) (Perm.cons x h)) (picks-Perm xs),
  )

  length-picks : (xs : List A) → length (picks xs) ≡ length xs
  unfolding picks
  length-picks [] = refl
  length-picks (x ∷ xs) = omega (arith, length-map {0, 0} (picks xs) (put_back x), length-picks xs)

  mem-picks : {a : A} (xs : List A) → Mem a xs → ∥ ((rest : List A) × Mem (a, rest) (picks xs)) ∥₁
  unfolding picks
  mem-picks [] m = absurd (not-mem-nil m)
  mem-picks {a} (x ∷ xs) m =
      Or.elim squash₁ (mem-cons.0 m)
        (λ same. ∣ (
          xs,
          subst (λ y. Mem (a, xs) ((y, xs) ∷ map (put_back x) (picks xs))) same mem-cons_self,
        ) ∣₁)
        (λ later.
          ∥∥₁_map (mem-picks xs later)
            (λ p. (x ∷ p.0, mem-cons_of_mem (x, xs) (mem-map_of_mem (put_back x) p.1))))

  mem-prefix_all :
      (recur : List A → List (List A)) {x : A} {rest others : List A} (ps : List (A × List A))
      → Mem (x, rest) ps
      → Mem others (recur rest)
      → Mem (x ∷ others) (prefix_all recur ps)
  unfolding prefix_all
  mem-prefix_all recur [] m n = absurd (not-mem-nil m)
  mem-prefix_all recur {x} {rest} {others} ((y, r) ∷ ps) m n =
      Or.elim Mem-prop (mem-cons.0 m)
        (λ same. mem-append_left (prefix_all recur ps) (
          subst (λ z. Mem (z ∷ others) (map (λ o. y ∷ o) (recur r)))
            (sym (ap (λ (p : A × List A). p.0) same))
            (mem-map_of_mem (λ o. y ∷ o)
              (subst (λ z. Mem others (recur z)) (ap (λ (p : A × List A). p.1) same) n))))
        (λ later. mem-append_right (map (λ o. y ∷ o) (recur r)) (mem-prefix_all recur ps later n))

  prefix_all-Perm :
      (recur : List A → List (List A)) (items : List A) (ps : List (A × List A))
      → All (λ p. (Perm (p.0 ∷ p.1) items) × All (λ o. Perm o p.1) (recur p.1)) ps
      → All (λ o. Perm o items) (prefix_all recur ps)
  unfolding prefix_all
  prefix_all-Perm recur items [] a = tt
  prefix_all-Perm recur items ((x, rest) ∷ ps) ((p, q), a) =
      All-append (λ o. Perm o items) (map (λ o. x ∷ o) (recur rest)) (prefix_all recur ps)
        (All-map (λ o. Perm o items) (λ o. Perm o rest) (λ o. x ∷ o) (recur rest)
          (λ o h. Perm.trans (Perm.cons x h) p) q)
        (prefix_all-Perm recur items ps a)

  length-prefix_all :
      (recur : List A → List (List A)) (n : ℕ) (ps : List (A × List A))
      → All (λ p. length (recur p.1) ≡ n) ps
      → length (prefix_all recur ps) ≡ length ps * n
  unfolding prefix_all
  length-prefix_all recur n [] a = omega arith
  length-prefix_all recur n ((x, rest) ∷ ps) (e, a) = omega (
    arith,
    e,
    length-append (map (λ o. x ∷ o) (recur rest)) (prefix_all recur ps),
    length-map {0, 0} (recur rest) (λ o. x ∷ o),
    length-prefix_all recur n ps a,
  )

  -- What holds of every pick's rest, given its length.
  All-picks {κ} :
      (P : A × List A → Type κ) (n : ℕ) (items : List A) (ps : List (A × List A))
      → length items ≤ suc n
      → ((p : A × List A) → Perm (p.0 ∷ p.1) items → length p.1 ≤ n → P p)
      → All (λ p. Perm (p.0 ∷ p.1) items) ps
      → All P ps
  All-picks P n items [] h k a = tt
  All-picks P n items (p ∷ ps) h k (q, a) =
      (k p q (omega (arith, Perm-length q)), All-picks P n items ps h k a)

  permutations_within-Perm :
      (fuel : ℕ) (items : List A)
      → length items ≤ fuel
      → All (λ o. Perm o items) (permutations_within fuel items)
  unfolding permutations_within
  permutations_within-Perm zero items h = (Perm.refl items, tt)
  permutations_within-Perm (suc fuel) items h = elim (Bool-cases (leb (length items) 1)) [
    | inl few ↦ rw few (Perm.refl items, tt)
    | inr many ↦ rw many (
        prefix_all-Perm (permutations_within fuel) items (picks items) (
          All-picks
            (λ p. (Perm (p.0 ∷ p.1) items) × All (λ o. Perm o p.1) (permutations_within fuel p.1))
            fuel items (picks items) h (λ p q k. (q, permutations_within-Perm fuel p.1 k))
            (picks-Perm items)))
  ]

  length-permutations_within :
      (fuel : ℕ) (items : List A)
      → length items ≤ fuel
      → length (permutations_within fuel items) ≡ factorial (length items)
  unfolding permutations_within
  length-permutations_within zero items h = let e : length items ≡ 0 = omega arith in rw e
  length-permutations_within (suc fuel) items h = elim (Bool-cases (leb (length items) 1)) [
    | inl few ↦ rw few (factorial_few (length items) (leb→le (length items) 1 few))
    | inr many ↦
        let m : ℕ = length items - 1 in
        rw many (
          length-prefix_all (permutations_within fuel) (factorial m) (picks items) (
            All-picks (λ p. length (permutations_within fuel p.1) ≡ factorial m) fuel items
              (picks items) h
              (λ p q k.
                length-permutations_within fuel p.1 k ∙ ap factorial (omega (arith, Perm-length q)))
              (picks-Perm items))
          ∙ ap (λ t. t * factorial m) (length-picks items)
          ∙ factorial_pred (length items) m (ground arith))
  ]

  mem_short : (o items : List A) → length items ≤ 1 → Perm o items → Mem o (items ∷ [])
  mem_short o [] h p = subst (λ z. Mem o (z ∷ [])) (Perm.eq-nil p) mem-cons_self
  mem_short [] (x ∷ items) h p = absurd (omega (arith, Perm-length p))
  mem_short (y ∷ []) (x ∷ []) h p =
      Or.elim Mem-prop (mem-cons.0 (Perm.subset p y mem-cons_self))
        (λ same. subst (λ z. Mem (y ∷ []) ((z ∷ []) ∷ [])) same mem-cons_self)
        (λ later. absurd (not-mem-nil later))
  mem_short (y ∷ z ∷ o) (x ∷ items) h p = absurd (omega (arith, Perm-length p))
  mem_short (y ∷ o) (x ∷ z ∷ items) h p = absurd (omega (arith, h))

  mem_split :
      (fuel : ℕ) (items o : List A)
      → length items ≤ suc fuel
      → Perm o items
      → 1 < length items
      → ((rest others : List A)
          → length rest ≤ fuel
          → Perm others rest
          → Mem others (permutations_within fuel rest))
      → Mem o (prefix_all (permutations_within fuel) (picks items))
  mem_split fuel items [] h p many recur = absurd (omega (arith, Perm-length p))
  mem_split fuel items (x ∷ o) h p many recur =
      ∥∥₁_elim (mem-picks items (Perm.subset p x mem-cons_self)) Mem-prop (λ picked.
        let q : Perm (x ∷ picked.0) items =
          All-mem (λ r. Perm (r.0 ∷ r.1) items) (λ r. Perm-prop) (picks items) (picks-Perm items)
            picked.1 in
        mem-prefix_all (permutations_within fuel) (picks items) picked.1 (
          recur picked.0 o (omega (arith, Perm-length q))
            (Perm.cons_inv (Perm.trans p (Perm.symm q)))))

  mem-permutations_within :
      (fuel : ℕ) (items o : List A)
      → length items ≤ fuel
      → Perm o items
      → Mem o (permutations_within fuel items)
  unfolding permutations_within
  mem-permutations_within zero items o h p = mem_short o items (omega arith) p
  mem-permutations_within (suc fuel) items o h p = elim (Bool-cases (leb (length items) 1)) [
    | inl few ↦ rw few (mem_short o items (leb→le (length items) 1 few) p)
    | inr many ↦ rw many (mem_split fuel items o h p (ground arith) (mem-permutations_within fuel))
  ]

  -- `permutations` lists exactly the rearrangements of its argument: each entry is one, each
  -- rearrangement is an entry, and there are n! entries for n items.
  pub permutations-Perm :
      (items : List A)
      → All (λ o. Perm o items) (permutations items)
        × ((o : List A) → Perm o items → Mem o (permutations items))
        × (length (permutations items) ≡ factorial (length items))
  unfolding permutations
  permutations-Perm items = (
    permutations_within-Perm (length items) items (omega arith),
    λ o p. mem-permutations_within (length items) items o (omega arith) p,
    length-permutations_within (length items) items (omega arith),
  )
