-- ===== src/Session/Advance.antt =====
-- `advance` of backend/src/sessions/sessions.service.ts: drives the session to the next thing that
-- the candidate sees.
pub mod Progress
pub mod Shown
use adaptive_hire_exam_platf.Common.{
  ℕ, zero, suc, ◌+◌, ◌*◌, ◌++◌, Option, none, some, [], ◌∷◌, leb, length, if◌then◌else◌,
}
use adaptive_hire_exam_platf.Failures.{not_advanced}
use adaptive_hire_exam_platf.Engine.Numbers.{Num}
use adaptive_hire_exam_platf.Engine.Types.{ModuleRunState, ModuleRunStatus}
use adaptive_hire_exam_platf.Engine.Questions.{Question}
use adaptive_hire_exam_platf.Engine.Stopping.{reached}
use adaptive_hire_exam_platf.Engine.Run.{
  NextStep, question, module_complete, next_step, mark_probe_served,
}
use adaptive_hire_exam_platf.Session.State.{
  SessionState, ServedQuestion, SessionStatus, current_module, put_module, is_finished,
}
use adaptive_hire_exam_platf.Session.Views.{
  SessionStep, module_intro, completed, to_session_view, to_module_view, to_question_step,
}
use adaptive_hire_exam_platf.Session.World.{
  M, done, fail, ◌>>=◌, ◌>>◌, pure, modify, save, load_served_question,
}
use adaptive_hire_exam_platf.Session.Finish.{finalize, complete_module, on_screen}

-- The readings of the clock during one call: one on each pass, one when the session is closed and
-- one for what is shown.
pub record Clock : Type 0 where
  pub pass : ℕ → ℕ
  pub closing : ℕ
  pub showing : ℕ

-- How one pass of the loop ends: with something to show, or with another pass.
pub data Turn (R : Type 0) : Type 0 where
  stop : SessionStep → SessionState R → Turn R
  again : SessionState R → Turn R

-- The seconds that Redis has left on a module's clock, which the view prefers to the deadline.
abbrev pub Remaining : Type 0
Remaining = ℕ → Option ℕ

-- The question that is on screen and whose time is not up.
abbrev pub still_open : Option ServedQuestion → Option ℕ → ℕ → Option ServedQuestion
still_open none deadline now = none
still_open (some served) deadline now = if reached deadline now then none else some served

module _ {R : Type 0} ⦃num : Num R⦄ where
  abbrev pub closing_turn : Clock → SessionState R → SessionStatus → M R (Turn R)
  closing_turn clock state status w =
      let (state', w') = finalize state status clock.closing w in
      done (stop (completed (to_session_view state' none clock.showing)) state') w'

  abbrev pub next_module : SessionState R → SessionState R
  next_module state = record state { current_module_index = suc state.current_module_index }

  abbrev pub move_on : SessionState R → M R (Turn R)
  move_on state = do modify (save (next_module state)); pure (again (next_module state))

  -- Puts a question on screen.
  abbrev pub serving : SessionState R → ModuleRunState R → Question R → ℕ → SessionState R
  serving state m q now =
      record (put_module state (
        mark_probe_served (record m { seen_question_ids = m.seen_question_ids ++ q.id ∷ [] })
          q.probe_group)) {
            served = some (record { question_id = q.id; module_id = m.module_id; served_at = now });
          }

  abbrev pub take_step :
      Remaining → Clock → SessionState R → ModuleRunState R → ℕ → NextStep R → M R (Turn R)
  take_step remaining clock state m now (module_complete reason) = do
    state' ← complete_module state m reason now
    move_on state'
  take_step remaining clock state m now (question q) = do
    let state' = serving state m q now
    modify (save state')
    pure (
        stop
          (to_question_step state'
            (mark_probe_served (record m { seen_question_ids = m.seen_question_ids ++ q.id ∷ [] })
              q.probe_group)
            q (remaining m.module_id) clock.showing)
          state')

  abbrev pub show_again :
      Remaining → Clock → SessionState R → ModuleRunState R → Question R → M R (Turn R)
  show_again remaining clock state m q =
      pure (stop (to_question_step state m q (remaining m.module_id) clock.showing) state)

  abbrev pub serve_or_step :
      Remaining
      → Clock
      → (ModuleRunState R → Option (Question R))
      → SessionState R
      → ModuleRunState R
      → ℕ
      → Option ServedQuestion
      → M R (Turn R)
  serve_or_step remaining clock select state m now (some served) = do
    q ← load_served_question served.question_id
    show_again remaining clock state m q
  serve_or_step remaining clock select state m now none =
      take_step remaining clock state m now (next_step select m now)

  abbrev pub module_turn :
      Remaining
      → Clock
      → (ModuleRunState R → Option (Question R))
      → SessionState R
      → ModuleRunState R
      → ℕ
      → ModuleRunStatus
      → M R (Turn R)
  module_turn remaining clock select state m now ModuleRunStatus.completed = move_on state
  module_turn remaining clock select state m now ModuleRunStatus.pending =
      pure (stop (module_intro (to_session_view state none clock.showing) (to_module_view m)) state)
  module_turn remaining clock select state m now ModuleRunStatus.in_progress =
      serve_or_step remaining clock select state m now
        (still_open (on_screen state.served m) m.deadline_at now)

  abbrev pub current_turn :
      Remaining
      → Clock
      → (ModuleRunState R → Option (Question R))
      → SessionState R
      → ℕ
      → Option (ModuleRunState R)
      → M R (Turn R)
  current_turn remaining clock select state now none =
      closing_turn clock state SessionStatus.completed
  current_turn remaining clock select state now (some m) =
      module_turn remaining clock select state m now m.status

  -- One pass of the loop.
  unfoldable pub turn :
      Remaining
      → Clock
      → (ModuleRunState R → Option (Question R))
      → ℕ
      → SessionState R
      → M R (Turn R)
  unfolding finalize complete_module next_step mark_probe_served load_served_question
  turn remaining clock select now state =
      if leb state.expires_at now
      then closing_turn clock state SessionStatus.auto_submitted
      else current_turn remaining clock select state now (current_module state)

  unfoldable pub advance_from :
      Remaining
      → Clock
      → (ModuleRunState R → Option (Question R))
      → ℕ
      → ℕ
      → SessionState R
      → M R (SessionStep × SessionState R)
  unfolding turn
  advance_from remaining clock select zero guard state w = fail not_advanced w
  advance_from remaining clock select (suc passes) guard state w =
      elim (turn remaining clock select (clock.pass guard) state w) [
        | done (stop step state') w' ↦ done (step, state') w'
        | done (again state') w' ↦ advance_from remaining clock select passes (suc guard) state' w'
        | fail e w' ↦ fail e w'
      ]

  unfoldable pub advance :
      Remaining
      → Clock
      → (ModuleRunState R → Option (Question R))
      → SessionState R
      → M R (SessionStep × SessionState R)
  unfolding advance_from
  advance remaining clock select state =
      if is_finished state.status
      then pure (completed (to_session_view state none clock.showing), state)
      else advance_from remaining clock select (length state.modules * 2 + 3) 0 state
