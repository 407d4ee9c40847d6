-- ===== src/Session/Rebuild/Progress.antt =====
-- The replay of `rehydrate` in backend/src/sessions/sessions.service.ts: how far it brings each module.
use adaptive_hire_exam_platf.Common.{
  ℕ, ◌+◌, ◌++◌, ◌≡◌, refl, sym, ap, ap₂, ◌∙◌, Option, none, some, List, [], ◌∷◌, true, false, arith,
  Bool-cases, inl, inr, map, filter, length, String,
}
use adaptive_hire_exam_platf.Common.Equality.{includes, ◌==◌, nat_eq, ==_flip}
use adaptive_hire_exam_platf.Engine.Numbers.{Num}
use adaptive_hire_exam_platf.Engine.Dict.{Dict}
use adaptive_hire_exam_platf.Engine.Types.{
  ModuleRunConfig, ModuleRunState, ScoringType, objective, trait, ProbeSignature, TraitRange,
}
use adaptive_hire_exam_platf.Engine.Questions.{Question, PersonalityQuestionDetails}
use adaptive_hire_exam_platf.Engine.Probe.{update_first, record_probe}
use adaptive_hire_exam_platf.Engine.Run.{mark_probe_served, register_probe, replay_probe}
use adaptive_hire_exam_platf.Engine.Estimator.{track_ability}
use adaptive_hire_exam_platf.Session.State.{ResponseRow}
use adaptive_hire_exam_platf.Session.Rebuild.{
  with_pattern, with_weights, replay_trait, replay_by, replay_answer, replay_objective, for_module,
}
use adaptive_hire_exam_platf.Session.Rebuild.Replaying.{mark_probe_served_lem}

-- No id stands twice.
abbrev pub DistinctIds : List ℕ → Type 0
DistinctIds [] = Unit {0}
DistinctIds (id ∷ ids) = (includes id ids ≡ false) × DistinctIds ids

module _ {A : Type 0} where
  append_nil : (xs : List A) → xs ++ [] ≡ xs
  append_nil [] = refl
  append_nil (x ∷ xs) = ap (λ ys. x ∷ ys) (append_nil xs)

  append_one : (xs : List A) (y : A) (ys : List A) → (xs ++ y ∷ []) ++ ys ≡ xs ++ (y ∷ ys)
  append_one [] y ys = refl
  append_one (x ∷ xs) y ys = ap (λ zs. x ∷ zs) (append_one xs y ys)

module _ {R : Type 0} where
  -- How far a module is: what it was set up with, how many answers it counts, what it has shown.
  abbrev pub told : ModuleRunState R → ModuleRunConfig × ℕ × List ℕ
  told m = (m.config, m.answered, m.seen_question_ids)

  abbrev pub responses_of : ℕ → List (ResponseRow R) → List (ResponseRow R)
  responses_of module_id = filter (λ (r : ResponseRow R). r.module_id == module_id)

  abbrev added : List (ResponseRow R) → ModuleRunConfig × ℕ × List ℕ → ModuleRunConfig × ℕ × List ℕ
  added rows (config, answered, seen) = (
    config,
    answered + length (responses_of config.module_id rows),
    seen ++ map (λ (r : ResponseRow R). r.question_id) (responses_of config.module_id rows),
  )

  -- A module with these responses more.
  abbrev pub told_after : List (ResponseRow R) → ModuleRunState R → ModuleRunConfig × ℕ × List ℕ
  told_after rows m = added rows (told m)

  abbrev pub ids_of : List (ModuleRunState R) → List ℕ
  ids_of = map (λ (m : ModuleRunState R). m.module_id)

module _ {R : Type 0} ⦃num : Num R⦄ where
  with_pattern-told :
      (details : Option (PersonalityQuestionDetails R)) (m : ModuleRunState R)
      → told (with_pattern details m) ≡ told m
  with_pattern-told none m = refl
  with_pattern-told (some details) m = refl

  with_weights-told :
      (found : Option (Dict R × Dict (TraitRange R))) (m : ModuleRunState R)
      → told (with_weights found m) ≡ told m
  with_weights-told none m = refl
  with_weights-told (some (ws, ranges)) m = refl

  register_probe-told :
      (m : ModuleRunState R) (id : ℕ) (group : Option String) (n : ℕ) (sig : ProbeSignature R)
      → told (register_probe m id group n sig) ≡ told m
  unfolding register_probe record_probe
  register_probe-told m id none n sig = refl
  register_probe-told m id (some group) n sig = ground arith

  replay_probe-told :
      (m : ModuleRunState R) (id : ℕ) (group : Option String) (n : ℕ) (sig : ProbeSignature R)
      → told (replay_probe m id group n sig) ≡ told m
  unfolding replay_probe
  replay_probe-told m id group n sig =
      register_probe-told (mark_probe_served m group) id group n sig
      ∙ ap told (mark_probe_served_lem m group)

  replay_by-told :
      (kind : ScoringType) (q : Question R) (answer : ResponseRow R) (m : ModuleRunState R)
      → told (replay_by kind q answer m) ≡ told m
  unfolding replay_objective replay_trait track_ability
  replay_by-told objective q answer m =
      replay_probe-told _ q.id q.probe_group answer.sequence_number _
  replay_by-told trait q answer m =
      replay_probe-told _ q.id q.probe_group answer.sequence_number _
      ∙ with_pattern-told q.personality_details _
      ∙ with_weights-told _ m

  pub replay_answer-told :
      (q : Question R) (answer : ResponseRow R) (m : ModuleRunState R)
      → told (replay_answer q answer m)
        ≡ (m.config, m.answered + 1, m.seen_question_ids ++ answer.question_id ∷ [])
  unfolding replay_answer
  replay_answer-told q answer m = replay_by-told m.scoring_type q answer _

  pub told_after-none : (ms : List (ModuleRunState R)) → map told ms ≡ map (told_after []) ms
  told_after-none [] = refl
  told_after-none (m ∷ ms) =
      ap₂ (λ (x : ModuleRunConfig × ℕ × List ℕ) xs. x ∷ xs)
        (ap₂ (λ (n : ℕ) seen. (m.config, n, seen)) (omega arith)
          (sym (append_nil m.seen_question_ids)))
        (told_after-none ms)

  told_after-other :
      (row : ResponseRow R) (rows : List (ResponseRow R)) (m : ModuleRunState R)
      → (m.module_id == row.module_id) ≡ false
      → told_after rows m ≡ told_after (row ∷ rows) m
  told_after-other row rows m h =
      let other : (row.module_id == m.module_id) ≡ false = ==_flip m.module_id row.module_id ∙ h in
      rw other refl

  told_after-own :
      (q : Question R) (row : ResponseRow R) (rows : List (ResponseRow R)) (m : ModuleRunState R)
      → (m.module_id == row.module_id) ≡ true
      → told_after rows (replay_answer q row m) ≡ told_after (row ∷ rows) m
  told_after-own q row rows m h =
      let own : (row.module_id == m.module_id) ≡ true = ==_flip m.module_id row.module_id ∙ h in
      let theirs = responses_of m.module_id rows in
      ap (added rows) (replay_answer-told q row m)
      ∙ rw own (
          ap₂ (λ (n : ℕ) seen. (m.config, n, seen)) (omega arith)
            (append_one m.seen_question_ids row.question_id
              (map (λ (r : ResponseRow R). r.question_id) theirs)))

  others-told :
      (row : ResponseRow R) (rows : List (ResponseRow R)) (ms : List (ModuleRunState R))
      → includes row.module_id (ids_of ms) ≡ false
      → map (told_after rows) ms ≡ map (told_after (row ∷ rows)) ms
  unfolding includes
  others-told row rows [] h = refl
  others-told row rows (m ∷ ms) h =
      let apart : (m.module_id == row.module_id) ≡ false =
        ==_flip row.module_id m.module_id ∙ ground (arith, h) in
      ap₂ (λ (x : ModuleRunConfig × ℕ × List ℕ) xs. x ∷ xs) (told_after-other row rows m apart)
        (others-told row rows ms (ground (arith, h)))

  pub replayed-told :
      (q : Question R) (row : ResponseRow R) (rows : List (ResponseRow R))
      (ms : List (ModuleRunState R))
      → DistinctIds (ids_of ms)
      → map (told_after rows) (for_module row.module_id (replay_answer q row) ms)
        ≡ map (told_after (row ∷ rows)) ms
  unfolding update_first
  replayed-told q row rows [] d = refl
  replayed-told q row rows (m ∷ ms) (single, d) = elim (Bool-cases (m.module_id == row.module_id)) [
    | inl own ↦
        let same : m.module_id ≡ row.module_id =
          (nat_eq.same_iff m.module_id row.module_id).0 own in
        let alone = rw same at single in
        rw own (
          ap₂ (λ (x : ModuleRunConfig × ℕ × List ℕ) xs. x ∷ xs) (told_after-own q row rows m own)
            (others-told row rows ms alone))
    | inr other ↦ rw other (
        ap₂ (λ (x : ModuleRunConfig × ℕ × List ℕ) xs. x ∷ xs) (told_after-other row rows m other)
          (replayed-told q row rows ms d))
  ]
