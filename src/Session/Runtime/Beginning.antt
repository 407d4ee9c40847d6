-- ===== src/Session/Runtime/Beginning.antt =====
-- Beginning a module a second time: `startCurrentModule` of backend/src/sessions/sessions.service.ts.
use adaptive_hire_exam_platf.Common.{
  ℕ, ◌≡◌, refl, sym, Option, none, some, true, false, all, Bool-cases, Option-cases, inl, inr,
  get_elem?, ap, set, zero, suc, ◌+◌, ◌*◌, List, [], ◌∷◌,
}
use adaptive_hire_exam_platf.Common.Equality.{nat_eq}
use adaptive_hire_exam_platf.Engine.Types.{ModuleRunState}
use adaptive_hire_exam_platf.Session.State.{SessionState, current_module}
use adaptive_hire_exam_platf.Session.World.{World}
use adaptive_hire_exam_platf.Session.Advance.Shown.{get_elem?-set}
use adaptive_hire_exam_platf.Session.Runtime.{
  budget_ms, intermission_seconds_per_module, begin_current_module, begin_session_clock,
  begin_pending, begun, is_pending,
}

module _ {R : Type 0} where
  begin_pending_idle :
      (state : SessionState R) (now : ℕ) (m : Option (ModuleRunState R)) (w : World R)
      → ((x : ModuleRunState R) → m ≡ some x → is_pending x.status ≡ false)
      → begin_pending state now m w ≡ (state, w)
  begin_pending_idle state now none w h = refl
  begin_pending_idle state now (some m) w h = rw (h m refl) refl

  begun_current :
      (state : SessionState R) (now : ℕ) (m : ModuleRunState R) (w : World R)
      → current_module state ≡ some m
      → is_pending m.status ≡ true
      → current_module (begin_current_module state now w).0 ≡ some (begun m now)
  unfolding begin_current_module begin_session_clock
  begun_current state now m w h pending =
      elim (Bool-cases (all (λ (x : ModuleRunState R). is_pending x.status) state.modules)) [
        | inl first ↦
            rw (h, pending, first)
              (get_elem?-set state.modules state.current_module_index (begun m now) h)
        | inr later ↦
            rw (h, pending, later)
              (get_elem?-set state.modules state.current_module_index (begun m now) h)
      ]

  begun_idle :
      (state : SessionState R) (later : ℕ) (w : World R) (m : ModuleRunState R)
      → current_module state ≡ some m
      → is_pending m.status ≡ false
      → begin_current_module state later w ≡ (state, w)
  unfolding begin_current_module
  begun_idle state later w m h idle =
      begin_pending_idle state later (current_module state) w
        (λ x same. let one : x ≡ m = cc (h, same) in rw one idle)

  -- Beginning a module twice is beginning it once: a second call, at any later or earlier time,
  -- changes neither the session, so no deadline is moved, nor anything outside it.
  pub begin_twice :
      (state : SessionState R) (now later : ℕ) (w : World R)
      → let (state', w') = begin_current_module state now w in
        begin_current_module state' later w' ≡ (state', w')
  unfolding begin_current_module
  begin_twice state now later w = elim (Option-cases (current_module state)) [
    | inl past ↦ rw past (rw past refl)
    | inr (m, h) ↦ elim (Bool-cases (is_pending m.status)) [
      | inl pending ↦
          begun_idle (begin_current_module state now w).0 later (begin_current_module state now w).1
            (begun m now) (begun_current state now m w h pending) refl
      | inr idle ↦ rw (h, idle) (begun_idle state later w m h idle)
    ]
  ]

  pub budget_ms-set :
      (ms : List (ModuleRunState R)) (i now : ℕ) (m : ModuleRunState R)
      → get_elem? ms i ≡ some m
      → budget_ms (set ms i (begun m now)) ≡ budget_ms ms
  unfolding budget_ms
  budget_ms-set [] i now m h = cc
  budget_ms-set (x ∷ ms) zero now m h =
      let one : x ≡ m = cc h in
      ap
        (λ (z : ModuleRunState R).
          (z.time_limit_seconds + intermission_seconds_per_module) * 1000 + budget_ms ms)
        (sym one)
  budget_ms-set (x ∷ ms) (suc i) now m h =
      ap (λ n. (x.time_limit_seconds + intermission_seconds_per_module) * 1000 + n)
        (budget_ms-set ms i now m h)
