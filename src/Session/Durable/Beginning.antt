-- ===== src/Session/Durable/Beginning.antt =====
-- Beginning a module keeps the rows and the live state together.
use adaptive_hire_exam_platf.Common.{
  ℕ, ◌≡◌, refl, Option, none, some, true, false, all, Bool, Bool-cases, inl, inr, arith,
}
use adaptive_hire_exam_platf.Engine.Types.{ModuleRunState}
use adaptive_hire_exam_platf.Session.State.{SessionState, SessionRow, current_module, put_module}
use adaptive_hire_exam_platf.Session.World.{
  World, start_module_clock, schedule_auto_submit, remove_auto_submit,
}
use adaptive_hire_exam_platf.Session.Advance.Shown.{Held}
use adaptive_hire_exam_platf.Session.Runtime.{
  begin_current_module, begin_session_clock, begin_pending, begin_clock_if, begun, is_pending,
  rebased, rebase_row, budget_ms,
}
use adaptive_hire_exam_platf.Session.Durable.{IsLiveIn, Agrees, Durable, save-Durable}
use adaptive_hire_exam_platf.Session.Durable.Passes.{IsLive-place}

module _ {R : Type 0} where
  Held-rebased :
      (state : SessionState R) (now : ℕ) (row : Option SessionRow)
      → Held (Agrees state) row
      → Held (Agrees (rebased state now)) (rebase_row now (rebased state now).expires_at row)
  Held-rebased state now none h = h
  Held-rebased state now (some row) h = record {
    id = h.id;
    candidate = h.candidate;
    started = refl;
    expiry = refl;
    open_while = h.open_while;
  }

  queue-rows :
      (delay : ℕ) (w : World R)
      → ((schedule_auto_submit delay (remove_auto_submit w)).responses ≡ w.responses)
        × ((schedule_auto_submit delay (remove_auto_submit w)).session_row ≡ w.session_row)
  queue-rows delay w = ground arith

  begin_clock_if-IsLiveIn :
      (first : Bool) (state : SessionState R) (now : ℕ) (w : World R)
      → IsLiveIn state w
      → let (state', w') = begin_clock_if first state now w in IsLiveIn state' w'
  unfolding begin_session_clock
  begin_clock_if-IsLiveIn false state now w live = live
  begin_clock_if-IsLiveIn true state now w (live, numbered) =
      let rows =
        queue-rows (budget_ms state.modules) (record w {
          session_row = rebase_row now (rebased state now).expires_at w.session_row;
        }) in
      rw (rows.0, rows.1)
        (
          record {
            count = live.count;
            matches = Held-rebased state now w.session_row live.matches;
          },
          numbered,
        )

  begin_pending-IsLiveIn :
      (state : SessionState R) (now : ℕ) (m : Option (ModuleRunState R)) (w : World R)
      → IsLiveIn state w
      → Durable w
      → let (state', w') = begin_pending state now m w in IsLiveIn state' w' × Durable w'
  begin_pending-IsLiveIn state now none w live d = (live, d)
  begin_pending-IsLiveIn state now (some m) w live d = elim (Bool-cases (is_pending m.status)) [
    | inr idle ↦ rw idle (live, d)
    | inl pending ↦
        let placed = put_module state (begun m now) in
        let v = start_module_clock m.module_id m.time_limit_seconds w in
        let first = all (λ (x : ModuleRunState R). is_pending x.status) state.modules in
        let after = begin_clock_if-IsLiveIn first placed now v (
          IsLive-place state placed.modules state.current_module_index state.served w.responses
              w.session_row live.0,
          live.1,
        ) in
        rw pending (
          after,
          save-Durable (begin_clock_if first placed now v).0 (begin_clock_if first placed now v).1
              after,
        )
  ]

  pub begin_current_module-IsLiveIn :
      (state : SessionState R) (now : ℕ) (w : World R)
      → IsLiveIn state w
      → Durable w
      → let (state', w') = begin_current_module state now w in IsLiveIn state' w' × Durable w'
  unfolding begin_current_module
  begin_current_module-IsLiveIn state now w live d =
      begin_pending-IsLiveIn state now (current_module state) w live d
