-- ===== src/Engine/Run/Answers.antt =====
-- What one recorded answer does to a module's state.
use adaptive_hire_exam_platf.Common.{
  false, ℕ, suc, ◌+◌, ◌-◌, ◌≤◌, ◌<◌, ◌≡◌, String, List, [], ◌∷◌, ◌++◌, Option, none, some, Bool,
  true, any, length, arith, length-drop, Bool-cases, inl, inr, ap, subst, if◌then◌else◌,
}
use adaptive_hire_exam_platf.Common.Equality.{◌==◌, string_eq}
use adaptive_hire_exam_platf.Failures.{ok, >>=-eq-ok, ok-injective}
use adaptive_hire_exam_platf.Engine.Numbers.{Num}
use adaptive_hire_exam_platf.Engine.Dict.{Dict}
use adaptive_hire_exam_platf.Engine.Types.{
  TraitTally, BehavioralPattern, ModuleRunState, ModuleRunConfig, ProbeSignature, ScoringType,
  objective, trait,
}
use adaptive_hire_exam_platf.Engine.Questions.{
  Question, McqQuestionDetails, PersonalityQuestionDetails,
}
use adaptive_hire_exam_platf.Engine.Probe.{is_true, is_open_for, due_twin}
use adaptive_hire_exam_platf.Engine.Probe.Pairs.{
  ProbesInv, record_probe-ProbesInv, answered-ProbesInv,
}
use adaptive_hire_exam_platf.Engine.Estimator.{track_ability}
use adaptive_hire_exam_platf.Engine.Run.{
  with_mcq, with_personality, record_by, evaluate_objective, evaluate_trait, range_for,
  assert_answer_shape, SubmittedAnswer, Recorded, register_probe, score_objective, record_objective,
  score_trait, record_trait, record_answer,
}

correct_bound : (right : Bool) (n : ℕ) → (if right then suc n else n) ≤ suc n
correct_bound right n = ground arith

module _ {R : Type 0} where
  -- Nothing but the probes, the estimates and the counts differs.
  pub record SameRun (before after : ModuleRunState R) : Type 0 where
    pub config : after.config ≡ before.config
    pub status : after.status ≡ before.status
    pub started_at : after.started_at ≡ before.started_at
    pub deadline_at : after.deadline_at ≡ before.deadline_at
    pub completed_at : after.completed_at ≡ before.completed_at
    pub stop_reason : after.stop_reason ≡ before.stop_reason
    pub seen : after.seen_question_ids ≡ before.seen_question_ids
    pub groups : after.served_probe_groups ≡ before.served_probe_groups

  -- What holds of a module throughout its run; `offset` is the number of answers before it.
  pub record ModuleInv (offset : ℕ) (state : ModuleRunState R) : Type 0 where
    pub within : state.answered ≤ state.question_count
    pub right : state.correct ≤ state.answered
    pub window : length state.recent_abilities ≤ 4
    pub paired : ProbesInv offset state

  -- The question's group has an open pair only if its twin is due.
  abbrev pub Serveable : ModuleRunState R → Option String → Type 0
  Serveable state none = Unit {0}
  Serveable state (some group) =
      (group == "") ≡ false
      → any (is_open_for group) state.probes ≡ true
      → due_twin state ≡ some group

  length-track_ability :
      (state : ModuleRunState R) (ability : R)
      → length (track_ability state ability).recent_abilities ≤ 4
  unfolding track_ability
  length-track_ability state ability =
      let xs : List R = state.recent_abilities ++ ability ∷ [] in
      omega (arith, length-drop (length xs - 4) xs)

module _ {R : Type 0} ⦃num : Num R⦄ where
  register_probe-frame :
      (state : ModuleRunState R) (question_id : ℕ) (probe_group : Option String)
      (sequence_number : ℕ) (sig : ProbeSignature R)
      → let next = register_probe state question_id probe_group sequence_number sig in
        SameRun state next
        × (next.answered ≡ state.answered)
        × (next.correct ≡ state.correct)
        × (next.recent_abilities ≡ state.recent_abilities)
  unfolding register_probe
  register_probe-frame state question_id probe_group sequence_number sig = ground arith

  -- Registering the probe of an answer that has just been counted.
  register_probe-ProbesInv :
      (offset : ℕ) (state : ModuleRunState R) (question_id : ℕ) (probe_group : Option String)
      (sequence_number : ℕ) (sig : ProbeSignature R)
      → ProbesInv offset state
      → Serveable state probe_group
      → sequence_number ≡ offset + suc state.answered
      → ProbesInv offset (
          register_probe
            (record state { answered = suc state.answered })
            question_id
            probe_group
            sequence_number
            sig)
  unfolding register_probe
  register_probe-ProbesInv offset state question_id none sequence_number sig v free n =
      answered-ProbesInv offset state v
  register_probe-ProbesInv offset state question_id (some group) sequence_number sig v free n =
      elim (Bool-cases (group == "")) [
        | inl unnamed ↦ rw unnamed (answered-ProbesInv offset state v)
        | inr named ↦ rw named (
            record_probe-ProbesInv group question_id sequence_number sig offset state v (free named)
              n)
      ]

  -- What an accepted answer guarantees.
  pub record Counted (offset : ℕ) (before : ModuleRunState R) (after : ModuleRunState R)
      : Type 0 where
    pub same : SameRun before after
    pub answered : after.answered ≡ suc before.answered
    pub inv : ModuleInv offset after

  -- An answer counts once, moves the estimates, and registers its probe.
  registered-Counted :
      (offset : ℕ) (before : ModuleRunState R) (ability info : R) (recent : List R) (right : ℕ)
      (tallies : Dict (TraitTally R)) (patterns : List (BehavioralPattern × ℕ)) (question_id : ℕ)
      (probe_group : Option String) (sequence_number : ℕ) (sig : ProbeSignature R)
      → ModuleInv offset before
      → before.answered < before.question_count
      → Serveable before probe_group
      → sequence_number ≡ offset + suc before.answered
      → right ≤ suc before.correct
      → length recent ≤ 4
      → let scored = record before {
        ability = ability;
        information = info;
        recent_abilities = recent;
        correct = right;
        trait_tallies = tallies;
        pattern_counts = patterns;
      } in
        Counted offset before (
          register_probe
            (record scored { answered = suc before.answered })
            question_id
            probe_group
            sequence_number
            sig)
  unfolding due_twin
  registered-Counted offset before ability info recent right tallies patterns question_id
        probe_group sequence_number sig v slot free n few short =
      let scored : ModuleRunState R = record before {
        ability = ability;
        information = info;
        recent_abilities = recent;
        correct = right;
        trait_tallies = tallies;
        pattern_counts = patterns;
      } in
      let frame =
        register_probe-frame (record scored { answered = suc before.answered }) question_id
          probe_group sequence_number sig in
      let paired =
        register_probe-ProbesInv offset scored question_id probe_group sequence_number sig
          (record { few = v.paired.few; each = v.paired.each; single = v.paired.single })
          (serve_again probe_group free) n in
      record {
        same = record {
          config = frame.0.config;
          status = frame.0.status;
          started_at = frame.0.started_at;
          deadline_at = frame.0.deadline_at;
          completed_at = frame.0.completed_at;
          stop_reason = frame.0.stop_reason;
          seen = frame.0.seen;
          groups = frame.0.groups;
        };
        answered = frame.1;
        inv = record {
          within =
              omega (arith, frame.1, ap (λ (c : ModuleRunConfig). c.question_count) frame.0.config);
          right = omega (arith, frame.1, frame.2, v.right);
          window = rw (frame.3) short;
          paired = paired;
        };
      }
    where
      serve_again :
          (group : Option String)
          → Serveable before group
          → Serveable
              (record before {
                ability = ability;
                information = info;
                recent_abilities = recent;
                correct = right;
                trait_tallies = tallies;
                pattern_counts = patterns;
              })
              group
      serve_again none f = tt
      serve_again (some group) f = f

  module _ (offset : ℕ) (before : ModuleRunState R) (q : Question R) (answer : SubmittedAnswer)
      (sequence_number : ℕ) (v : ModuleInv offset before)
      (slot : before.answered < before.question_count) (free : Serveable before q.probe_group)
      (n : sequence_number ≡ offset + suc before.answered) where
    record_objective-Counted :
        (details : McqQuestionDetails R) (r : Recorded R)
        → record_objective before q details answer sequence_number ≡ ok r
        → Counted offset before r.state
    unfolding record_objective score_objective track_ability
    record_objective-Counted details r h =
        let (result, _, given) = >>=-eq-ok (evaluate_objective details answer) _ h in
        subst (λ (z : Recorded R). Counted offset before z.state) (ok-injective given)
          (registered-Counted offset before _ _ _ _ before.trait_tallies before.pattern_counts q.id
            q.probe_group sequence_number _ v slot free n
            (correct_bound (is_true result.is_correct) before.correct)
            (length-track_ability before _))

    record_trait-Counted :
        (details : PersonalityQuestionDetails R) (r : Recorded R)
        → record_trait before q details answer sequence_number ≡ ok r
        → Counted offset before r.state
    unfolding record_trait score_trait
    record_trait-Counted details r h =
        let (_, _, h1) = >>=-eq-ok (assert_answer_shape details answer) _ h in
        let (result, _, h2) = >>=-eq-ok (evaluate_trait details answer) _ h1 in
        let (ranges, _, h3) = >>=-eq-ok (range_for details answer) _ h2 in
        subst (λ (z : Recorded R). Counted offset before z.state) (ok-injective h3)
          (registered-Counted offset before before.ability before.information
            before.recent_abilities before.correct _ _ q.id q.probe_group sequence_number _ v slot
            free n (omega arith) v.window)

    with_mcq-Counted :
        (details : Option (McqQuestionDetails R)) (r : Recorded R)
        → with_mcq q details (λ d. record_objective before q d answer sequence_number) ≡ ok r
        → Counted offset before r.state
    with_mcq-Counted none r h = cc
    with_mcq-Counted (some details) r h = record_objective-Counted details r h

    with_personality-Counted :
        (details : Option (PersonalityQuestionDetails R)) (r : Recorded R)
        → with_personality q details (λ d. record_trait before q d answer sequence_number) ≡ ok r
        → Counted offset before r.state
    with_personality-Counted none r h = cc
    with_personality-Counted (some details) r h = record_trait-Counted details r h

    record_by-Counted :
        (scoring_type : ScoringType) (r : Recorded R)
        → record_by scoring_type before q answer sequence_number ≡ ok r
        → Counted offset before r.state
    record_by-Counted objective r h = with_mcq-Counted q.mcq_details r h
    record_by-Counted trait r h = with_personality-Counted q.personality_details r h

    -- Let a module's run be in order: its counts, its window of estimates and its repeat probes. An
    -- answer that the engine accepts, with the next number of the session, to a question whose
    -- group has an open pair only if its twin is due, while the module has questions left, is
    -- counted exactly once: the module's configuration, status, clocks and served questions stay
    -- as they were, the count goes up by one and does not pass the module's number of questions,
    -- the correct answers stay within the answers, the window keeps at most four estimates, and
    -- the repeat probes stay in order.
    pub record_answer-Counted :
        (r : Recorded R)
        → record_answer before q answer sequence_number ≡ ok r
        → Counted offset before r.state
    unfolding record_answer
    record_answer-Counted r h = record_by-Counted before.scoring_type r h
