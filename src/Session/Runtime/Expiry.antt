-- ===== src/Session/Runtime/Expiry.antt =====
-- What beginning a module does to the clocks: `startCurrentModule` and `beginSessionClock` of
-- backend/src/sessions/sessions.service.ts.
use mathlib.Core.Option
use adaptive_hire_exam_platf.Common.{
  ℕ, ◌≡◌, ◌≤◌, ◌⊎◌, max, length, find, arith, subst, refl, ◌∙◌, Option, none, some, true, false,
  all, Bool-cases, inl, inr, get_elem?, ap, set, zero, suc, ◌+◌, ◌*◌, Bool, List, [], ◌∷◌,
  if◌then◌else◌,
}
use adaptive_hire_exam_platf.Common.Equality.{◌==◌, nat_eq, ==_refl}
use adaptive_hire_exam_platf.Engine.Types.{ModuleRunState, ModuleRunStatus}
use adaptive_hire_exam_platf.Session.State.{SessionState, SessionRow, current_module, put_module}
use adaptive_hire_exam_platf.Session.World.{
  World, schedule_auto_submit, remove_auto_submit, start_module_clock, save, remove_clock,
}
use adaptive_hire_exam_platf.Session.Advance.Shown.{get_elem?-set}
use adaptive_hire_exam_platf.Session.Runtime.{
  budget_ms, begin_current_module, begin_session_clock, begun, is_pending, rebase_row, rebased,
}
use adaptive_hire_exam_platf.Session.Runtime.Beginning.{budget_ms-set}

ticks :
    (id seconds : ℕ) (clocks : List (ℕ × ℕ))
    → find (λ (c : ℕ × ℕ). c.0 == id) ((id, seconds) ∷ clocks) ≡ some (id, seconds)
ticks id seconds clocks = rw (==_refl id) refl

rebase_row-map :
    (now expires_at : ℕ) (row : Option SessionRow)
    → rebase_row now expires_at row
      ≡ Option.map (λ (r : SessionRow). record r { started_at = now; expires_at = expires_at }) row
rebase_row-map now expires_at none = refl
rebase_row-map now expires_at (some row) = refl

module _ {R : Type 0} where
  -- The time limits of the modules, added up.
  unfoldable pub total_seconds : List (ModuleRunState R) → ℕ
  total_seconds [] = 0
  total_seconds (m ∷ ms) = m.time_limit_seconds + total_seconds ms

  budget_ms-total_seconds :
      (ms : List (ModuleRunState R)) → budget_ms ms ≡ (total_seconds ms + 120 * length ms) * 1000
  unfolding budget_ms total_seconds
  budget_ms-total_seconds [] = refl
  budget_ms-total_seconds (m ∷ ms) = omega (arith, budget_ms-total_seconds ms)

  get_elem?-total_seconds :
      (ms : List (ModuleRunState R)) (i : ℕ) (m : ModuleRunState R)
      → get_elem? ms i ≡ some m
      → m.time_limit_seconds ≤ total_seconds ms
  unfolding total_seconds
  get_elem?-total_seconds [] i m h = cc
  get_elem?-total_seconds (x ∷ ms) zero m h =
      let one : x ≡ m = cc h in
      subst (λ (y : ModuleRunState R). y.time_limit_seconds ≤ total_seconds (x ∷ ms)) one
        (omega arith)
  get_elem?-total_seconds (x ∷ ms) (suc i) m h = omega (arith, get_elem?-total_seconds ms i m h)

  -- What beginning a module does to that module, in the session, in Redis and in the stored state.
  pub record ModuleBegins (state : SessionState R) (now : ℕ) (m : ModuleRunState R)
      (after : SessionState R) (v : World R) : Type 0 where
    pub running :
        after.modules
        ≡ set state.modules state.current_module_index (record m {
          status = ModuleRunStatus.in_progress;
          started_at = some now;
          deadline_at = some (now + m.time_limit_seconds * 1000);
        })
    pub current :
        current_module after
        ≡ some (record m {
          status = ModuleRunStatus.in_progress;
          started_at = some now;
          deadline_at = some (now + m.time_limit_seconds * 1000);
        })
    pub ticking :
        find (λ (c : ℕ × ℕ). c.0 == m.module_id) v.clocks
        ≡ some (m.module_id, max 1 m.time_limit_seconds)
    pub stored : v.store ≡ some after
    pub open_still : after.status ≡ state.status

  -- The session's clock starts with its first module.
  pub record SessionBegins (state : SessionState R) (now : ℕ) (m : ModuleRunState R) (w : World R)
      (after : SessionState R) (v : World R) : Type 0 where
    pub started : after.started_at ≡ now
    pub expiry :
        after.expires_at ≡ now + (total_seconds state.modules + 120 * length state.modules) * 1000
    pub room : now + m.time_limit_seconds * 1000 ≤ after.expires_at
    pub row :
        v.session_row
        ≡ Option.map
            (λ (r : SessionRow). record r { started_at = now; expires_at = after.expires_at })
            w.session_row
    pub job : v.auto_submit ≡ (
        if w.queue_up
        then some ((total_seconds state.modules + 120 * length state.modules) * 1000)
        else w.auto_submit)

  -- The session's clock runs on.
  pub record SessionRuns (state : SessionState R) (w : World R) (after : SessionState R)
      (v : World R) : Type 0 where
    pub started : after.started_at ≡ state.started_at
    pub expiry : after.expires_at ≡ state.expires_at
    pub row : v.session_row ≡ w.session_row
    pub job : v.auto_submit ≡ w.auto_submit

  abbrev pub none_begun : SessionState R → Bool
  none_begun state = all (λ (x : ModuleRunState R). is_pending x.status) state.modules

  abbrev pub Begins :
      SessionState R → ℕ → ModuleRunState R → World R → SessionState R → World R → Type 0
  Begins state now m w after v =
      ModuleBegins state now m after v
      × (((none_begun state ≡ true) × SessionBegins state now m w after v)
          ⊎ ((none_begun state ≡ false) × SessionRuns state w after v))

  schedule_auto_submit-remove_auto_submit :
      (delay : ℕ) (w : World R)
      → schedule_auto_submit delay (remove_auto_submit w)
        ≡ record w { auto_submit = if w.queue_up then some delay else w.auto_submit }
  schedule_auto_submit-remove_auto_submit delay w = elim (Bool-cases w.queue_up) [
    | inl up ↦ rw up refl
    | inr down ↦ rw down refl
  ]

  abbrev ticked : ModuleRunState R → World R → World R
  ticked m w = start_module_clock m.module_id m.time_limit_seconds w

  -- What the first module's beginning leaves.
  first_begins :
      (state : SessionState R) (now : ℕ) (m : ModuleRunState R) (w : World R)
      → current_module state ≡ some m
      → is_pending m.status ≡ true
      → none_begun state ≡ true
      → let after = rebased (put_module state (begun m now)) now in
        begin_current_module state now w ≡ (
          after,
          record (ticked m w) {
            store = some after;
            session_row = rebase_row now after.expires_at w.session_row;
            auto_submit =
                if w.queue_up
                then some (budget_ms (put_module state (begun m now)).modules)
                else w.auto_submit;
          },
        )
  unfolding begin_current_module begin_session_clock
  first_begins state now m w h pending first =
      let after = rebased (put_module state (begun m now)) now in
      rw (h, pending, first)
        (ap (λ v. (after, save after v))
          (schedule_auto_submit-remove_auto_submit
            (budget_ms (put_module state (begun m now)).modules)
            (record (ticked m w) { session_row = rebase_row now after.expires_at w.session_row })))

  -- Beginning a pending current module starts that module's clock, in the session and in Redis, for
  -- its time limit, and stores the session. If no module had begun, the session is given, from this
  -- moment, the time limits of all its modules and two minutes for each, which no deadline of this
  -- module exceeds; its row and the auto-submit job, where the queue is up, have the same deadline.
  -- If a module had begun, the session's deadline, its row and the job stay what they were.
  pub begin_expiry :
      (state : SessionState R) (now : ℕ) (m : ModuleRunState R) (w : World R)
      → current_module state ≡ some m
      → is_pending m.status ≡ true
      → let (after, v) = begin_current_module state now w in Begins state now m w after v
  unfolding begin_current_module begin_session_clock
  begin_expiry state now m w h pending =
      let i = state.current_module_index in
      let placed = get_elem?-set state.modules i (begun m now) h in
      let tick =
        ticks m.module_id (max 1 m.time_limit_seconds) (remove_clock m.module_id w.clocks) in
      elim (Bool-cases (none_begun state)) [
        | inl first ↦
            let budget =
              budget_ms-set state.modules i now m h ∙ budget_ms-total_seconds state.modules in
            rw (first_begins state now m w h pending first) (
              record {
                running = refl;
                current = placed;
                ticking = tick;
                stored = refl;
                open_still = refl;
              },
              inl (
                first,
                record {
                  started = refl;
                  expiry = ap (λ n. now + n) budget;
                  room = omega (arith, budget, get_elem?-total_seconds state.modules i m h);
                  row =
                      rebase_row-map now (now + budget_ms (set state.modules i (begun m now)))
                        w.session_row;
                  job = ap (λ n. if w.queue_up then some n else w.auto_submit) budget;
                },
              ),
            )
        | inr later ↦
            rw (h, pending, later)
              (
                record {
                  running = refl;
                  current = placed;
                  ticking = tick;
                  stored = refl;
                  open_still = refl;
                },
                inr (refl, record { started = refl; expiry = refl; row = refl; job = refl }),
              )
      ]
