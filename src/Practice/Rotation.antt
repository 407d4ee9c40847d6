-- ===== src/Practice/Rotation.antt =====
-- How many practice questions the round-robin picks.
use adaptive_hire_exam_platf.Common.{
  ℕ, zero, suc, ◌+◌, ◌≤◌, ◌<◌, ◌≡◌, refl, ap, ◌∙◌, min, List, [], ◌∷◌, ◌++◌, map, any, length, true,
  false, arith, ltb, length-append, length-map, Bool-cases, inl, inr,
}
use adaptive_hire_exam_platf.Common.Equality.{◌==◌, nat_eq}
use adaptive_hire_exam_platf.Practice.{
  Collation, practice_target, SampleRow, is_waiting, one_round, rotate, enqueue, by_module,
  practice_question, pick_samples, sample_query, for_modules,
}

module _ {A : Type 0} where
  -- How many wait in the queues.
  unfoldable pub waiting : List (List A) → ℕ
  waiting [] = 0
  waiting (queue ∷ queues) = length queue + waiting queues

  -- A round loses nothing.
  one_round-total :
      (picked : List A) (queues : List (List A))
      → let turn = one_round picked queues in
        length turn.0 + waiting turn.1 ≡ length picked + waiting queues
  unfolding one_round waiting
  one_round-total picked [] = refl
  one_round-total picked ([] ∷ queues) = ground (arith, one_round-total picked queues)
  one_round-total picked ((x ∷ xs) ∷ queues) =
      ground (arith, one_round-total (picked ++ x ∷ []) queues, length-append picked (x ∷ []))

  -- A round stays within the target.
  one_round-within :
      (picked : List A) (queues : List (List A))
      → length picked ≤ 3
      → length (one_round picked queues).0 ≤ 3
  unfolding one_round
  one_round-within picked [] h = h
  one_round-within picked ([] ∷ queues) h = ground (arith, one_round-within picked queues h)
  one_round-within picked ((x ∷ xs) ∷ queues) h =
      ground (arith, one_round-within (picked ++ x ∷ []) queues, length-append picked (x ∷ []))

  one_round-grows :
      (picked : List A) (queues : List (List A))
      → length picked ≤ length (one_round picked queues).0
  unfolding one_round
  one_round-grows picked [] = omega arith
  one_round-grows picked ([] ∷ queues) = ground (arith, one_round-grows picked queues)
  one_round-grows picked ((x ∷ xs) ∷ queues) =
      ground (arith, one_round-grows (picked ++ x ∷ []) queues, length-append picked (x ∷ []))

  -- A round with room picks one, if any waits.
  one_round-picks :
      (picked : List A) (queues : List (List A))
      → length picked < 3
      → any is_waiting queues ≡ true
      → length picked < length (one_round picked queues).0
  unfolding one_round
  one_round-picks picked [] h w = cc
  one_round-picks picked ([] ∷ queues) h w = ground (arith, one_round-picks picked queues h)
  one_round-picks picked ((x ∷ xs) ∷ queues) h w =
      ground (arith, one_round-grows (picked ++ x ∷ []) queues, length-append picked (x ∷ []))

  none-waiting : (queues : List (List A)) → any is_waiting queues ≡ false → waiting queues ≡ 0
  unfolding waiting
  none-waiting [] h = refl
  none-waiting ([] ∷ queues) h = ground (arith, none-waiting queues)
  none-waiting ((x ∷ xs) ∷ queues) h = cc

  some-waiting : (queues : List (List A)) → any is_waiting queues ≡ true → 0 < waiting queues
  unfolding waiting
  some-waiting [] h = cc
  some-waiting ([] ∷ queues) h = ground (arith, some-waiting queues)
  some-waiting ((x ∷ xs) ∷ queues) h = omega arith

  rotate-length :
      (fuel : ℕ) (picked : List A) (queues : List (List A))
      → length picked ≤ 3
      → 3 ≤ length picked + fuel
      → length (rotate fuel picked queues) ≡ min 3 (length picked + waiting queues)
  unfolding rotate
  rotate-length zero picked queues h k = omega (arith, h, k)
  rotate-length (suc fuel) picked queues h k =
      elim (Bool-cases (ltb (length picked) practice_target)) [
        | inl room ↦ elim (Bool-cases (any is_waiting queues)) [
          | inl waits ↦
              let turn = one_round picked queues in
              let more = one_round-picks picked queues (ground arith) waits in
              let within = one_round-within picked queues h in
              let rest = rotate-length fuel turn.0 turn.1 within (omega (arith, k, more)) in
              rw (room, waits) (rest ∙ ap (min 3) (one_round-total picked queues))
          | inr done ↦ rw (room, done) (omega (arith, h, none-waiting queues done))
        ]
        | inr full ↦ let most : 3 ≤ length picked = ground arith in rw full (omega (arith, h, most))
      ]

module _ {R : Type 0} where
  abbrev all_of : List (ℕ × List (SampleRow R)) → ℕ
  all_of queues = waiting (map (λ (q : ℕ × List (SampleRow R)). q.1) queues)

  enqueue-waiting :
      (row : SampleRow R) (queues : List (ℕ × List (SampleRow R)))
      → all_of (enqueue row queues) ≡ suc (all_of queues)
  unfolding enqueue waiting
  enqueue-waiting row [] = omega arith
  enqueue-waiting row ((id, queue) ∷ queues) =
      ground (arith, enqueue-waiting row queues, length-append queue (row ∷ []))

  by_module-waiting :
      (queues : List (ℕ × List (SampleRow R))) (rows : List (SampleRow R))
      → all_of (by_module queues rows) ≡ all_of queues + length rows
  unfolding by_module
  by_module-waiting queues [] = omega arith
  by_module-waiting queues (row ∷ rows) =
      omega (arith, by_module-waiting (enqueue row queues) rows, enqueue-waiting row queues)

  pick_samples-length :
      (rows : List (SampleRow R)) → length (pick_samples rows) ≡ min 3 (length rows)
  unfolding pick_samples waiting
  pick_samples-length rows =
      rotate-length 3 [] (map (λ (q : ℕ × List (SampleRow R)). q.1) (by_module [] rows))
        (omega arith) (omega arith)
      ∙ ap (min 3) (omega (arith, by_module-waiting [] rows))

  -- For an assessment with modules, a candidate gets exactly three practice questions, or all that
  -- the query finds where there are fewer, however they are spread over the modules: the rounds end,
  -- and none is lost or added on the way.
  pub for_modules-length :
      (collates : Collation) (module_ids : List ℕ) (organisation_id : ℕ) (bank : List (SampleRow R))
      → (length module_ids == 0) ≡ false
      → length (for_modules collates module_ids organisation_id bank)
        ≡ min 3 (length (sample_query collates module_ids organisation_id bank))
  unfolding for_modules
  for_modules-length collates module_ids organisation_id bank h =
      let rows = sample_query collates module_ids organisation_id bank in
      rw h (length-map (pick_samples rows) practice_question ∙ pick_samples-length rows)
