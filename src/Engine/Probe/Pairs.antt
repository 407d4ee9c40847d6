-- ===== src/Engine/Probe/Pairs.antt =====
-- What holds of the repeat probes of a module throughout its run.
use adaptive_hire_exam_platf.Common.{
  ℕ, suc, ◌+◌, ◌≤◌, ◌<◌, ◌≡◌, refl, List, [], ◌∷◌, ◌++◌, Option, none, some, Bool, true, false,
  String, arith, any, length, All, Bool-cases, inl, inr, length-append,
}
use adaptive_hire_exam_platf.Common.Equality.{string_eq}
use adaptive_hire_exam_platf.Engine.Numbers.{Num}
use adaptive_hire_exam_platf.Engine.Constants.{probe_gap_questions}
use adaptive_hire_exam_platf.Engine.Types.{ModuleRunState, ProbePair, ProbeSignature}
use adaptive_hire_exam_platf.Engine.Probe.{
  due_twin, is_open, is_open_for, update_first, close, can_open_pair, record_probe, opening,
  is_unanswered,
}
use adaptive_hire_exam_platf.Engine.Probe.Blocking.{IsDue, here, later, due_twin_iff}

-- The two halves of a pair are set together, and at least eight answers lie between them.
abbrev pub IsSpaced : ℕ → Option ℕ → Option ℕ → Type 0
IsSpaced first none none = Unit {0}
IsSpaced first (some q) (some s) = first + 9 ≤ s
IsSpaced first _ _ = ⊥

module _ {R : Type 0} where
  -- `offset` is the number of answers of the session before this module began.
  pub record IsPair (offset answered question_count : ℕ) (pair : ProbePair R) : Type 0 where
    pub numbered : pair.first_sequence ≡ offset + pair.asked_at_answered
    pub asked : pair.asked_at_answered ≤ answered
    pub room : pair.asked_at_answered + probe_gap_questions < question_count
    pub spaced : IsSpaced pair.first_sequence pair.second_question_id pair.second_sequence

  -- At most one pair of a group is open.
  abbrev pub SingleOpen : List (ProbePair R) → Type 0
  SingleOpen [] = Unit {0}
  SingleOpen (pair ∷ pairs) =
      (is_open pair ≡ true → any (is_open_for pair.group) pairs ≡ false) × SingleOpen pairs

  pub record ProbesInv (offset : ℕ) (state : ModuleRunState R) : Type 0 where
    pub few : length state.probes ≤ 2
    pub each : All (IsPair offset state.answered state.question_count) state.probes
    pub single : SingleOpen state.probes

  IsPair-mono :
      (offset answered grown question_count : ℕ) (pairs : List (ProbePair R))
      → answered ≤ grown
      → All (IsPair offset answered question_count) pairs
      → All (IsPair offset grown question_count) pairs
  IsPair-mono offset answered grown question_count [] h a = tt
  IsPair-mono offset answered grown question_count (pair ∷ pairs) h (p, a) = (
    record {
      numbered = p.numbered;
      asked = omega (arith, p.asked);
      room = p.room;
      spaced = p.spaced;
    },
    IsPair-mono offset answered grown question_count pairs h a,
  )

  any_open_IsDue :
      {answered : ℕ} {group : String} {pairs : List (ProbePair R)}
      → IsDue answered group pairs
      → any (is_open_for group) pairs ≡ true
  any_open_IsDue {group} (here {pair} e o g) = ground (arith, string_eq.same_iff pair.group group)
  any_open_IsDue {group} (later {pair} w d) = ground (arith, any_open_IsDue d)

  length-update_first :
      (test : ProbePair R → Bool) (f : ProbePair R → ProbePair R) (pairs : List (ProbePair R))
      → length (update_first test f pairs) ≡ length pairs
  unfolding update_first
  length-update_first test f [] = refl
  length-update_first test f (pair ∷ pairs) = ground (arith, length-update_first test f pairs)

  All-append :
      (offset answered question_count : ℕ) (pairs : List (ProbePair R)) (pair : ProbePair R)
      → All (IsPair offset answered question_count) pairs
      → IsPair offset answered question_count pair
      → All (IsPair offset answered question_count) (pairs ++ pair ∷ [])
  All-append offset answered question_count [] pair a p = (p, tt)
  All-append offset answered question_count (x ∷ pairs) pair (q, a) p =
      (q, All-append offset answered question_count pairs pair a p)

  any-append_open :
      (group : String) (pairs : List (ProbePair R)) (pair : ProbePair R)
      → any (is_open_for group) pairs ≡ false
      → is_open_for group pair ≡ false
      → any (is_open_for group) (pairs ++ pair ∷ []) ≡ false
  any-append_open group [] pair h k = ground arith
  any-append_open group (x ∷ pairs) pair h k = ground (arith, any-append_open group pairs pair)

  SingleOpen-append :
      (pairs : List (ProbePair R)) (pair : ProbePair R)
      → SingleOpen pairs
      → any (is_open_for pair.group) pairs ≡ false
      → SingleOpen (pairs ++ pair ∷ [])
  SingleOpen-append [] pair s h = (λ o. refl, tt)
  SingleOpen-append (x ∷ pairs) pair (s, ss) h = (
    λ o. any-append_open x.group pairs pair (s o) (
        ground
          (arith, string_eq.same_iff x.group pair.group, string_eq.same_iff pair.group x.group)),
    SingleOpen-append pairs pair ss (ground arith),
  )

  pub answered-ProbesInv :
      (offset : ℕ) (state : ModuleRunState R)
      → ProbesInv offset state
      → ProbesInv offset (record state { answered = suc state.answered })
  answered-ProbesInv offset state v = record {
    few = v.few;
    each =
        IsPair-mono offset state.answered (suc state.answered) state.question_count state.probes
          (omega arith) v.each;
    single = v.single;
  }

module _ {R : Type 0} ⦃num : Num R⦄ (group : String) (question_id sequence_number : ℕ)
    (signature : ProbeSignature R) where
  abbrev closing : List (ProbePair R) → List (ProbePair R)
  closing = update_first (is_open_for group) (close question_id sequence_number signature)

  any-closing :
      (g : String) (pairs : List (ProbePair R))
      → any (is_open_for g) pairs ≡ false
      → any (is_open_for g) (closing pairs) ≡ false
  unfolding update_first close
  any-closing g [] h = refl
  any-closing g (pair ∷ pairs) h = ground (arith, any-closing g pairs)

  SingleOpen-closing : (pairs : List (ProbePair R)) → SingleOpen pairs → SingleOpen (closing pairs)
  unfolding update_first close
  SingleOpen-closing [] s = tt
  SingleOpen-closing (pair ∷ pairs) (s, ss) = elim (Bool-cases (is_open_for group pair)) [
    | inl hit ↦ rw hit (λ o. cc, ss)
    | inr miss ↦ rw miss (λ o. any-closing pair.group pairs (s o), SingleOpen-closing pairs ss)
  ]

  closing-IsPair :
      (offset answered question_count : ℕ) {pairs : List (ProbePair R)}
      → IsDue answered group pairs
      → SingleOpen pairs
      → sequence_number ≡ offset + suc answered
      → All (IsPair offset answered question_count) pairs
      → All (IsPair offset (suc answered) question_count) (closing pairs)
  unfolding update_first close
  closing-IsPair offset answered question_count (here {pair} {pairs} e o g) (s, ss) n (p, a) =
      let hit : is_open_for group pair ≡ true =
        ground (arith, string_eq.same_iff pair.group group) in
      rw hit (
        record {
          numbered = p.numbered;
          asked = omega arith;
          room = p.room;
          spaced = omega (arith, p.numbered);
        },
        IsPair-mono offset answered (suc answered) question_count pairs (omega arith) a,
      )
  closing-IsPair offset answered question_count (later {pair} {pairs} w d) (s, ss) n (p, a) =
      let miss : is_open_for group pair ≡ false =
        ground (arith, string_eq.same_iff pair.group group, any_open_IsDue d) in
      rw miss (
        record {
          numbered = p.numbered;
          asked = omega (arith, p.asked);
          room = p.room;
          spaced = p.spaced;
        },
        closing-IsPair offset answered question_count d ss n a,
      )

  opening-ProbesInv :
      (offset : ℕ) (state : ModuleRunState R)
      → ProbesInv offset state
      → any (is_open_for group) state.probes ≡ false
      → sequence_number ≡ offset + suc state.answered
      → can_open_pair (record state { answered = suc state.answered }) ≡ true
      → let next = record state { answered = suc state.answered } in
        ProbesInv offset (record next {
          probes = next.probes ++ opening next group question_id sequence_number signature ∷ [];
        })
  unfolding can_open_pair
  opening-ProbesInv offset state v fresh n room =
      let next : ModuleRunState R = record state { answered = suc state.answered } in
      let pair : ProbePair R = opening next group question_id sequence_number signature in
      record {
        few = ground (arith, length-append state.probes (pair ∷ []));
        each =
            All-append offset (suc state.answered) state.question_count state.probes pair
              (IsPair-mono offset state.answered (suc state.answered) state.question_count
                state.probes (omega arith) v.each)
              (record { numbered = n; asked = omega arith; room = ground arith; spaced = tt });
        single = SingleOpen-append state.probes pair v.single fresh;
      }

  -- Answering one more question keeps the probes of a module in order, if the question's group has
  -- an open pair only when its twin is due, and if the answer has the next number of the session:
  -- at most two pairs are opened, each while the module still has room for the gap and the twin,
  -- no group has two open pairs, and the two halves of a closed pair are at least nine answers
  -- apart in the session.
  pub record_probe-ProbesInv :
      (offset : ℕ) (state : ModuleRunState R)
      → ProbesInv offset state
      → (any (is_open_for group) state.probes ≡ true → due_twin state ≡ some group)
      → sequence_number ≡ offset + suc state.answered
      → ProbesInv offset (
          record_probe
            (record state { answered = suc state.answered })
            group
            question_id
            sequence_number
            signature)
  unfolding record_probe
  record_probe-ProbesInv offset state v due n =
      elim (Bool-cases (any (is_open_for group) state.probes)) [
        | inl opened ↦ rw opened (record {
          few = omega (
            arith,
            v.few,
            length-update_first (is_open_for group) (close question_id sequence_number signature)
                state.probes,
          );
          each =
              closing-IsPair offset state.answered state.question_count
                ((due_twin_iff state group).0 (due opened)) v.single n v.each;
          single = SingleOpen-closing state.probes v.single;
        })
        | inr fresh ↦ rw fresh (elim (Bool-cases (is_unanswered signature)) [
          | inl timed_out ↦ rw timed_out (answered-ProbesInv offset state v)
          | inr given ↦
              rw given
                (elim (Bool-cases
                  (can_open_pair (record state { answered = suc state.answered }))) [
                    | inl room ↦ rw room (opening-ProbesInv offset state v fresh n room)
                    | inr full ↦ rw full (answered-ProbesInv offset state v)
                  ])
        ])
      ]
