-- ===== src/Session/Rebuild/Replayed.antt =====
-- The whole of `rehydrate`'s replay in backend/src/sessions/sessions.service.ts: how far it brings the
-- modules, and where it fails.
use mathlib.Core.List.{Memᴰ}
use adaptive_hire_exam_platf.Common.{
  ℕ, ◌≡◌, refl, sym, ap, ap₂, ◌∙◌, Option, none, some, List, [], ◌∷◌, Bool-cases, Option-cases, inl,
  inr, map, find,
}
use adaptive_hire_exam_platf.Common.Equality.{◌==◌, nat_eq}
use adaptive_hire_exam_platf.Engine.Numbers.{Num}
use adaptive_hire_exam_platf.Engine.Types.{ModuleRunConfig, ModuleRunState, ModuleRunStatus}
use adaptive_hire_exam_platf.Engine.Questions.{Question}
use adaptive_hire_exam_platf.Engine.Probe.{update_first}
use adaptive_hire_exam_platf.Session.State.{ResponseRow, ModuleResultRow}
use adaptive_hire_exam_platf.Session.Rebuild.{
  replay_answer, replay_all, for_module, complete_finished, completed_by, restarted,
}
use adaptive_hire_exam_platf.Session.Rebuild.Progress.{
  told, told_after, ids_of, DistinctIds, replayed-told, replay_answer-told, told_after-none,
}

module _ {R : Type 0} ⦃num : Num R⦄ where
  for_module-told :
      (id : ℕ) (f : ModuleRunState R → ModuleRunState R) (ms : List (ModuleRunState R))
      → ((m : ModuleRunState R) → told (f m) ≡ told m)
      → map told (for_module id f ms) ≡ map told ms
  unfolding update_first
  for_module-told id f [] quiet = refl
  for_module-told id f (m ∷ ms) quiet = elim (Bool-cases (m.module_id == id)) [
    | inl hit ↦ rw hit (ap (λ (x : ModuleRunConfig × ℕ × List ℕ). x ∷ map told ms) (quiet m))
    | inr miss ↦ rw miss (ap (λ xs. told m ∷ xs) (for_module-told id f ms quiet))
  ]

  for_module-ids :
      (id : ℕ) (f : ModuleRunState R → ModuleRunState R) (ms : List (ModuleRunState R))
      → ((m : ModuleRunState R) → (f m).config ≡ m.config)
      → ids_of (for_module id f ms) ≡ ids_of ms
  unfolding update_first
  for_module-ids id f [] quiet = refl
  for_module-ids id f (m ∷ ms) quiet = elim (Bool-cases (m.module_id == id)) [
    | inl hit ↦ rw hit (ap (λ (c : ModuleRunConfig). c.module_id ∷ ids_of ms) (quiet m))
    | inr miss ↦ rw miss (ap (λ xs. m.module_id ∷ xs) (for_module-ids id f ms quiet))
  ]

  completed_by-told :
      (result : ModuleResultRow R) (at : Option ℕ) (m : ModuleRunState R)
      → told (completed_by result at m) ≡ told m
  completed_by-told result none m = refl
  completed_by-told result (some at) m = refl

  pub complete_finished-told :
      (results : List (ModuleResultRow R)) (ms : List (ModuleRunState R))
      → map told (complete_finished results ms) ≡ map told ms
  unfolding complete_finished
  complete_finished-told [] ms = refl
  complete_finished-told (result ∷ results) ms =
      complete_finished-told results
        (for_module result.module_id (completed_by result result.completed_at) ms)
      ∙ for_module-told result.module_id (completed_by result result.completed_at) ms
          (completed_by-told result result.completed_at)

  restarted-told :
      (now : ℕ) (status : ModuleRunStatus) (m : ModuleRunState R)
      → told (restarted now status m) ≡ told m
  restarted-told now ModuleRunStatus.pending m = refl
  restarted-told now ModuleRunStatus.in_progress m = refl
  restarted-told now ModuleRunStatus.completed m = refl

  pub restarts-told :
      (now : ℕ) (ms : List (ModuleRunState R))
      → map told (map (λ (m : ModuleRunState R). restarted now m.status m) ms) ≡ map told ms
  restarts-told now [] = refl
  restarts-told now (m ∷ ms) =
      ap₂ (λ (x : ModuleRunConfig × ℕ × List ℕ) xs. x ∷ xs) (restarted-told now m.status m)
        (restarts-told now ms)

  -- Replaying responses counts each of them once, for its own module.
  pub replay_all-told :
      (bank : List (Question R)) (rows : List (ResponseRow R)) (ms out : List (ModuleRunState R))
      → DistinctIds (ids_of ms)
      → replay_all bank rows ms ≡ some out
      → map told out ≡ map (told_after rows) ms
  unfolding replay_all
  replay_all-told bank [] ms out d h =
      let same : ms ≡ out = cc h in ap (map told) (sym same) ∙ told_after-none ms
  replay_all-told bank (row ∷ rows) ms out d h =
      elim (Option-cases (find (λ (q : Question R). q.id == row.question_id) bank)) [
        | inl lost ↦ let h' = rw (replay_all, lost) at h in cc
        | inr (q, e) ↦
            let h' = rw (replay_all, e) at h in
            let after = for_module row.module_id (replay_answer q row) ms in
            let ids : ids_of after ≡ ids_of ms =
              for_module-ids row.module_id (replay_answer q row) ms (λ m.
                ap (λ (t : ModuleRunConfig × ℕ × List ℕ). t.0) (replay_answer-told q row m)) in
            replay_all-told bank rows after out (rw ids d) h' ∙ replayed-told q row rows ms d
      ]

  -- Replaying fails only at a response whose question is not in the bank.
  pub replay_all-none :
      (bank : List (Question R)) (rows : List (ResponseRow R)) (ms : List (ModuleRunState R))
      → replay_all bank rows ms ≡ none
      → (row : ResponseRow R) × Memᴰ row rows
        × (find (λ (q : Question R). q.id == row.question_id) bank ≡ none)
  unfolding replay_all
  replay_all-none bank [] ms h = cc
  replay_all-none bank (row ∷ rows) ms h =
      elim (Option-cases (find (λ (q : Question R). q.id == row.question_id) bank)) [
        | inl lost ↦ (row, Memᴰ.head refl, lost)
        | inr (q, e) ↦
            let h' = rw (replay_all, e) at h in
            let (r, m, lost) =
              replay_all-none bank rows (for_module row.module_id (replay_answer q row) ms) h' in
            (r, Memᴰ.tail m, lost)
      ]
