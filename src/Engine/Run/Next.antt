-- ===== src/Engine/Run/Next.antt =====
-- When a module goes on, and why it ends.
use adaptive_hire_exam_platf.Common.{
  ℕ, ◌<◌, ◌≡◌, ◌↔◌, Option, none, some, Option-cases, inl, inr, arith,
}
use adaptive_hire_exam_platf.Engine.Numbers.{Num}
use adaptive_hire_exam_platf.Engine.Types.{ModuleRunState}
use adaptive_hire_exam_platf.Engine.Questions.{Question}
use adaptive_hire_exam_platf.Engine.Stopping.{should_stop}
use adaptive_hire_exam_platf.Engine.Run.{question, next_step}

-- The deadline, if there is one, lies ahead.
abbrev pub IsAhead : Option ℕ → ℕ → Type 0
IsAhead none now = Unit {0}
IsAhead (some deadline) now = now < deadline

module _ {R : Type 0} where
  pub should_stop-none_iff :
      (state : ModuleRunState R) (now : ℕ)
      → (should_stop state now ≡ none)
        ↔ (IsAhead state.deadline_at now × (state.answered < state.question_count))
  unfolding should_stop
  should_stop-none_iff state now = ground arith

module _ {R : Type 0} ⦃num : Num R⦄ where
  pub next_step-question_iff :
      (select : ModuleRunState R → Option (Question R)) (state : ModuleRunState R) (now : ℕ)
      (q : Question R)
      → (next_step select state now ≡ question q) ↔ (
          (select state ≡ some q)
          × IsAhead state.deadline_at now
          × (state.answered < state.question_count))
  unfolding next_step
  next_step-question_iff select state now q = elim (Option-cases (should_stop state now)) [
    | inl on ↦ elim (Option-cases (select state)) [
      | inl dry ↦ rw (on, dry, next_step) (λ h. cc, λ h. cc (h.0))
      | inr (p, found) ↦
          rw (on, found, next_step)
            (
              λ h. let room = (should_stop-none_iff state now).0 on in (cc, room.0, room.1),
              λ h. cc (h.0),
            )
    ]
    | inr (reason, over) ↦
        rw (over, next_step)
          (λ h. cc, λ h. cc (over, (should_stop-none_iff state now).1 (h.1, h.2)))
  ]
