-- ===== src/Practice/Breadth.antt =====
-- Which practice questions the round-robin picks first.
use adaptive_hire_exam_platf.Common.{
  ℕ, zero, suc, ◌+◌, ◌≡◌, refl, sym, ap, ◌∙◌, List, [], ◌∷◌, ◌++◌, map, any, all, length, Bool,
  true, false, ◌&&◌, arith, leb, ltb, length-append, Bool-cases, inl, inr, if◌then◌else◌,
}
use adaptive_hire_exam_platf.Common.Equality.{◌==◌, nat_eq, includes, ==_flip}
use adaptive_hire_exam_platf.Engine.Selector.{take}
use adaptive_hire_exam_platf.Practice.{
  practice_target, SampleRow, is_waiting, one_round, rotate, by_module, pick_samples, enqueue,
}

module _ {A : Type 0} where
  -- The first of every queue.
  unfoldable pub heads : List (List A) → List A
  heads [] = []
  heads ([] ∷ queues) = heads queues
  heads ((x ∷ xs) ∷ queues) = x ∷ heads queues

  append_nil : (xs : List A) → xs ++ [] ≡ xs
  append_nil [] = refl
  append_nil (x ∷ xs) = ap (λ ys. x ∷ ys) (append_nil xs)

  append_assoc : (xs ys zs : List A) → (xs ++ ys) ++ zs ≡ xs ++ (ys ++ zs)
  append_assoc [] ys zs = refl
  append_assoc (x ∷ xs) ys zs = ap (λ ws. x ∷ ws) (append_assoc xs ys zs)

  one_round-heads :
      (room : ℕ) (picked : List A) (queues : List (List A))
      → length picked + room ≡ 3
      → (one_round picked queues).0 ≡ picked ++ take room (heads queues)
  unfolding one_round heads
  one_round-heads zero picked [] h = sym (append_nil picked)
  one_round-heads (suc room) picked [] h = sym (append_nil picked)
  one_round-heads zero picked ([] ∷ queues) h =
      let full : leb practice_target (length picked) ≡ true = ground (arith, h) in
      rw full (sym (append_nil picked))
  one_round-heads (suc room) picked ([] ∷ queues) h =
      let free : leb practice_target (length picked) ≡ false = ground (arith, h) in
      rw free (one_round-heads (suc room) picked queues h)
  one_round-heads zero picked ((x ∷ xs) ∷ queues) h =
      let full : leb practice_target (length picked) ≡ true = ground (arith, h) in
      rw full (sym (append_nil picked))
  one_round-heads (suc room) picked ((x ∷ xs) ∷ queues) h =
      let free : leb practice_target (length picked) ≡ false = ground (arith, h) in
      rw free (
        one_round-heads room (picked ++ x ∷ []) queues
          (omega (arith, h, length-append picked (x ∷ [])))
        ∙ append_assoc picked (x ∷ []) (take room (heads queues)))

  one_round-extends :
      (picked : List A) (queues : List (List A))
      → (rest : List A) × ((one_round picked queues).0 ≡ picked ++ rest)
  unfolding one_round
  one_round-extends picked [] = ([], sym (append_nil picked))
  one_round-extends picked ([] ∷ queues) = elim (Bool-cases (leb practice_target (length picked))) [
    | inl full ↦ rw full ([], sym (append_nil picked))
    | inr free ↦ rw free (one_round-extends picked queues)
  ]
  one_round-extends picked ((x ∷ xs) ∷ queues) =
      elim (Bool-cases (leb practice_target (length picked))) [
        | inl full ↦ rw full ([], sym (append_nil picked))
        | inr free ↦
            let (rest, e) = one_round-extends (picked ++ x ∷ []) queues in
            rw free (x ∷ rest, e ∙ append_assoc picked (x ∷ []) rest)
      ]

  rotate-extends :
      (fuel : ℕ) (picked : List A) (queues : List (List A))
      → (rest : List A) × (rotate fuel picked queues ≡ picked ++ rest)
  unfolding rotate
  rotate-extends zero picked queues = ([], sym (append_nil picked))
  rotate-extends (suc fuel) picked queues =
      elim (Bool-cases (ltb (length picked) practice_target && any is_waiting queues)) [
        | inl goes ↦
            let turn = one_round picked queues in
            let (first, e) = one_round-extends picked queues in
            let (rest, e') = rotate-extends fuel turn.0 turn.1 in
            rw goes (first ++ rest, e' ∙ ap (λ ys. ys ++ rest) e ∙ append_assoc picked first rest)
        | inr ends ↦ rw ends ([], sym (append_nil picked))
      ]

  none-heads : (queues : List (List A)) → any is_waiting queues ≡ false → heads queues ≡ []
  unfolding heads
  none-heads [] h = refl
  none-heads ([] ∷ queues) h = none-heads queues h
  none-heads ((x ∷ xs) ∷ queues) h = cc

  rotate-heads :
      (queues : List (List A))
      → (rest : List A) × (rotate practice_target [] queues ≡ take 3 (heads queues) ++ rest)
  unfolding rotate
  rotate-heads queues = elim (Bool-cases (any is_waiting queues)) [
    | inl waits ↦
        let turn = one_round [] queues in
        let (rest, e) = rotate-extends 2 turn.0 turn.1 in
        rw waits (rest, e ∙ ap (λ ys. ys ++ rest) (one_round-heads 3 [] queues (omega arith)))
    | inr ends ↦ rw (ends, none-heads queues ends) ([], refl)
  ]

branch :
    {A B : Type 0} (f : A → B) (b : Bool) (x y : A)
    → f (if b then x else y) ≡ (if b then f x else f y)
branch f true x y = refl
branch f false x y = refl

module _ {R : Type 0} where
  abbrev pub queues_of : List (ℕ × List (SampleRow R)) → List (List (SampleRow R))
  queues_of = map (λ (q : ℕ × List (SampleRow R)). q.1)

  abbrev keys_of : List (ℕ × List (SampleRow R)) → List ℕ
  keys_of = map (λ (q : ℕ × List (SampleRow R)). q.0)

  abbrev AllWaiting : List (ℕ × List (SampleRow R)) → Type 0
  AllWaiting queues = all is_waiting (queues_of queues) ≡ true

  -- The first row of each module, in the order of the rows; `seen` are modules already met.
  unfoldable pub firsts : List ℕ → List (SampleRow R) → List (SampleRow R)
  unfolding includes
  firsts seen [] = []
  firsts seen (row ∷ rows) =
      let again : List (SampleRow R) = firsts seen rows in
      let rest : List (SampleRow R) = firsts (seen ++ row.module_id ∷ []) rows in
      if includes row.module_id seen then again else row ∷ rest

  -- A row joins the queue of its module, or opens one at the end.
  pub record IsEnqueued (row : SampleRow R) (queues after : List (ℕ × List (SampleRow R)))
      : Type 0 where
    pub waiting : all is_waiting (queues_of after) ≡ true
    pub keys : map (λ (q : ℕ × List (SampleRow R)). q.0) after ≡ (
        if includes row.module_id (map (λ (q : ℕ × List (SampleRow R)). q.0) queues)
        then map (λ (q : ℕ × List (SampleRow R)). q.0) queues
        else map (λ (q : ℕ × List (SampleRow R)). q.0) queues ++ row.module_id ∷ [])
    pub fronts : heads (queues_of after) ≡ (
        if includes row.module_id (map (λ (q : ℕ × List (SampleRow R)). q.0) queues)
        then heads (queues_of queues)
        else heads (queues_of queues) ++ row ∷ [])

  enqueue-IsEnqueued :
      (row : SampleRow R) (queues : List (ℕ × List (SampleRow R)))
      → AllWaiting queues
      → IsEnqueued row queues (enqueue row queues)
  unfolding enqueue heads includes
  enqueue-IsEnqueued row [] h = record { waiting = refl; keys = refl; fronts = refl }
  enqueue-IsEnqueued row ((id, []) ∷ queues) h = cc
  enqueue-IsEnqueued row ((id, x ∷ xs) ∷ queues) h = elim (Bool-cases (id == row.module_id)) [
    | inl same ↦
        let met : (row.module_id == id) ≡ true = ==_flip id row.module_id ∙ same in
        rw same (record { waiting = h; keys = rw met refl; fronts = rw met refl })
    | inr other ↦
        let unmet : (row.module_id == id) ≡ false = ==_flip id row.module_id ∙ other in
        let rest = enqueue-IsEnqueued row queues h in
        rw other (record {
          waiting = rest.waiting;
          keys = rw unmet (
              ap (λ ids. id ∷ ids) rest.keys
              ∙ branch (λ ids. id ∷ ids) (includes row.module_id (keys_of queues)) (keys_of queues)
                  (keys_of queues ++ row.module_id ∷ []));
          fronts = rw unmet (
              ap (λ ys. x ∷ ys) rest.fronts
              ∙ branch (λ ys. x ∷ ys) (includes row.module_id (keys_of queues))
                  (heads (queues_of queues)) (heads (queues_of queues) ++ row ∷ []));
        })
  ]

  by_module-firsts :
      (rows : List (SampleRow R)) (queues : List (ℕ × List (SampleRow R)))
      → AllWaiting queues
      → heads (queues_of (by_module queues rows))
        ≡ heads (queues_of queues) ++ firsts (keys_of queues) rows
  unfolding by_module firsts
  by_module-firsts [] queues h = sym (append_nil (heads (queues_of queues)))
  by_module-firsts (row ∷ rows) queues h =
      let step = enqueue-IsEnqueued row queues h in
      let rest = by_module-firsts rows (enqueue row queues) step.waiting in
      elim (Bool-cases (includes row.module_id (keys_of queues))) [
        | inl met ↦ rw met (rest ∙ rw (step.fronts, step.keys, met) refl)
        | inr new ↦ rw new (
            rest
            ∙ rw (step.fronts, step.keys, new)
                (append_assoc (heads (queues_of queues)) (row ∷ [])
                  (firsts (keys_of queues ++ row.module_id ∷ []) rows)))
      ]

  -- One from each subject before a second from any of them. The practice questions begin with the
  -- rows that are the first of their module among the rows of the query, at most three of them, in
  -- the order of the query.
  pub pick_samples-firsts :
      (rows : List (SampleRow R))
      → (rest : List (SampleRow R)) × (pick_samples rows ≡ take 3 (firsts [] rows) ++ rest)
  unfolding pick_samples firsts heads
  pick_samples-firsts rows =
      let (rest, e) = rotate-heads (queues_of (by_module [] rows)) in
      (rest, e ∙ ap (λ xs. take 3 xs ++ rest) (by_module-firsts rows [] refl))
