-- ===== src/Session/Durable/Passes.antt =====
-- One pass of `advance` keeps the rows and the live state together, and so does all of it.
use adaptive_hire_exam_platf.Common.{
  ℕ, zero, suc, ◌+◌, ◌*◌, ◌≡◌, refl, sym, subst, Option, none, some, List, leb, length, Bool-cases,
  Option-cases, inl, inr, find,
}
use adaptive_hire_exam_platf.Common.Equality.{◌==◌, nat_eq}
use adaptive_hire_exam_platf.Failures.{Failure}
use adaptive_hire_exam_platf.Engine.Numbers.{Num}
use adaptive_hire_exam_platf.Engine.Types.{ModuleRunState, ModuleRunStatus, ModuleStopReason}
use adaptive_hire_exam_platf.Engine.Questions.{Question}
use adaptive_hire_exam_platf.Engine.Run.{
  SubmittedAnswer, NextStep, question, module_complete, next_step,
}
use adaptive_hire_exam_platf.Session.State.{
  SessionState, ServedQuestion, SessionRow, SessionStatus, ResponseRow, current_module, is_finished,
}
use adaptive_hire_exam_platf.Session.World.{World, Outcome, done, fail, load_served_question}
use adaptive_hire_exam_platf.Session.World.Runs.{Run, Run-imp, returns, throws, after_Run}
use adaptive_hire_exam_platf.Session.Finish.{
  apply_answer, answer_on_screen, complete_module, close_held, on_screen, persist_module_result,
}
use adaptive_hire_exam_platf.Session.Views.{SessionStep}
use adaptive_hire_exam_platf.Session.Advance.{
  Clock, Remaining, Turn, stop, again, take_step, serve_or_step, module_turn, current_turn, turn,
  advance_from, advance, still_open, move_on, next_module, show_again, serving,
}
use adaptive_hire_exam_platf.Session.Durable.{
  IsLive, IsLiveIn, Durable, Held-after, save-Durable, apply_answer-IsLiveIn, finalize-IsLiveIn,
}

abbrev pub Kept : {R : Type 0} → Failure → World R → Type 0
Kept e v = Durable v

module _ {R : Type 0} where
  -- A state is live whatever its modules, its place and the question on screen.
  pub IsLive-place :
      (state : SessionState R) (modules : List (ModuleRunState R)) (index : ℕ)
      (served : Option ServedQuestion) (rows : List (ResponseRow R)) (row : Option SessionRow)
      → IsLive state rows row
      → IsLive
          (record state { modules = modules; current_module_index = index; served = served })
          rows
          row
  IsLive-place state modules index served rows row live = record {
    count = live.count;
    matches =
        Held-after state
          (record state { modules = modules; current_module_index = index; served = served }) row
          (record { id = refl; candidate = refl; started = refl; expiry = refl; status = refl })
          live.matches;
  }

  abbrev Goes : Turn R → World R → Type 0
  Goes (stop step state) v = Durable v
  Goes (again state) v = IsLiveIn state v × Durable v

  load_served_question-same :
      (id : ℕ) (w : World R) → Run (λ q v. v ≡ w) (λ e v. v ≡ w) (load_served_question id w)
  unfolding load_served_question
  load_served_question-same id w =
      elim (Option-cases (find (λ (q : Question R). q.id == id) w.bank)) [
        | inl gone ↦ rw (gone, load_served_question) (throws refl)
        | inr (q, found) ↦ rw (found, load_served_question) (returns refl)
      ]

  pub load_served_question-Durable :
      (id : ℕ) (w : World R) → Durable w → Run (λ q v. v ≡ w) Kept (load_served_question id w)
  load_served_question-Durable id w d =
      Run-imp (λ q v same. same) (λ e v same. subst Durable (sym same) d)
        (load_served_question-same id w)

module _ {R : Type 0} ⦃num : Num R⦄ where
  answer_on_screen-IsLiveIn :
      (state : SessionState R) (m : ModuleRunState R) (now : ℕ) (served : Option ServedQuestion)
      (w : World R)
      → IsLiveIn state w
      → Durable w
      → Run IsLiveIn Kept (answer_on_screen state m now served w)
  answer_on_screen-IsLiveIn state m now none w live d = returns live
  answer_on_screen-IsLiveIn state m now (some served) w live d =
      after_Run (λ q. apply_answer state m q SubmittedAnswer.unanswered served now)
        (load_served_question-Durable served.question_id w d)
        (λ q v same.
          subst
            (λ z.
              Run IsLiveIn Kept (apply_answer state m q SubmittedAnswer.unanswered served now z))
            (sym same)
            (apply_answer-IsLiveIn state m q SubmittedAnswer.unanswered served now w live d))

  complete_module-IsLiveIn :
      (state : SessionState R) (m : ModuleRunState R) (reason : ModuleStopReason) (now : ℕ)
      (w : World R)
      → IsLiveIn state w
      → Durable w
      → Run IsLiveIn Kept (complete_module state m reason now w)
  unfolding complete_module persist_module_result
  complete_module-IsLiveIn state m reason now w live d =
      after_Run (close_held m reason now)
        (answer_on_screen-IsLiveIn state m now (on_screen state.served m) w live d)
        (λ after v l. returns (
          IsLive-place after _ after.current_module_index after.served v.responses v.session_row
              l.0,
          l.1,
        ))

  move_on-Goes :
      (state : SessionState R) (w : World R) → IsLiveIn state w → Run Goes Kept (move_on state w)
  move_on-Goes state w (live, numbered) =
      let next =
        IsLive-place state state.modules (suc state.current_module_index) state.served w.responses
          w.session_row live in
      returns ((next, numbered), save-Durable (next_module state) w (next, numbered))

  take_step-Goes :
      (remaining : Remaining) (clock : Clock) (state : SessionState R) (m : ModuleRunState R)
      (now : ℕ) (step : NextStep R) (w : World R)
      → IsLiveIn state w
      → Durable w
      → Run Goes Kept (take_step remaining clock state m now step w)
  take_step-Goes remaining clock state m now (module_complete reason) w live d =
      after_Run move_on (complete_module-IsLiveIn state m reason now w live d)
        (λ after v l. move_on-Goes after v l)
  take_step-Goes remaining clock state m now (question q) w (live, numbered) d =
      let shown : SessionState R = serving state m q now in
      returns (
        save-Durable shown w (
          IsLive-place state shown.modules shown.current_module_index shown.served w.responses
              w.session_row live,
          numbered,
        ))

  serve_or_step-Goes :
      (remaining : Remaining) (clock : Clock) (select : ModuleRunState R → Option (Question R))
      (state : SessionState R) (m : ModuleRunState R) (now : ℕ) (screen : Option ServedQuestion)
      (w : World R)
      → IsLiveIn state w
      → Durable w
      → Run Goes Kept (serve_or_step remaining clock select state m now screen w)
  serve_or_step-Goes remaining clock select state m now (some served) w live d =
      after_Run (show_again remaining clock state m)
        (load_served_question-Durable served.question_id w d)
        (λ q v same. returns (subst Durable (sym same) d))
  serve_or_step-Goes remaining clock select state m now none w live d =
      take_step-Goes remaining clock state m now (next_step select m now) w live d

  module_turn-Goes :
      (remaining : Remaining) (clock : Clock) (select : ModuleRunState R → Option (Question R))
      (state : SessionState R) (m : ModuleRunState R) (now : ℕ) (status : ModuleRunStatus)
      (w : World R)
      → IsLiveIn state w
      → Durable w
      → Run Goes Kept (module_turn remaining clock select state m now status w)
  module_turn-Goes remaining clock select state m now ModuleRunStatus.completed w live d =
      move_on-Goes state w live
  module_turn-Goes remaining clock select state m now ModuleRunStatus.pending w live d = returns d
  module_turn-Goes remaining clock select state m now ModuleRunStatus.in_progress w live d =
      serve_or_step-Goes remaining clock select state m now
        (still_open (on_screen state.served m) m.deadline_at now) w live d

  current_turn-Goes :
      (remaining : Remaining) (clock : Clock) (select : ModuleRunState R → Option (Question R))
      (state : SessionState R) (now : ℕ) (m : Option (ModuleRunState R)) (w : World R)
      → IsLiveIn state w
      → Durable w
      → Run Goes Kept (current_turn remaining clock select state now m w)
  current_turn-Goes remaining clock select state now none w live d =
      returns (finalize-IsLiveIn state SessionStatus.completed clock.closing w refl live d).1
  current_turn-Goes remaining clock select state now (some m) w live d =
      module_turn-Goes remaining clock select state m now m.status w live d

  turn-Goes :
      (remaining : Remaining) (clock : Clock) (select : ModuleRunState R → Option (Question R))
      (now : ℕ) (state : SessionState R) (w : World R)
      → IsLiveIn state w
      → Durable w
      → Run Goes Kept (turn remaining clock select now state w)
  unfolding turn
  turn-Goes remaining clock select now state w live d =
      elim (Bool-cases (leb state.expires_at now)) [
        | inl over ↦ rw over (
            returns
              (finalize-IsLiveIn state SessionStatus.auto_submitted clock.closing w refl live d).1)
        | inr runs ↦
            rw runs
              (current_turn-Goes remaining clock select state now (current_module state) w live d)
      ]

  abbrev pub Done : {A : Type 0} → A → World R → Type 0
  Done a v = Durable v

  advance_from-Durable :
      (remaining : Remaining) (clock : Clock) (select : ModuleRunState R → Option (Question R))
      (passes guard : ℕ) (state : SessionState R) (w : World R)
      → IsLiveIn state w
      → Durable w
      → Run Done Kept (advance_from remaining clock select passes guard state w)
  unfolding advance_from
  advance_from-Durable remaining clock select zero guard state w live d = throws d
  advance_from-Durable remaining clock select (suc passes) guard state w live d =
      after (advance_from-Durable remaining clock select passes (suc guard))
        (turn-Goes remaining clock select (clock.pass guard) state w live d)
    where
      after :
          ((next : SessionState R) (v : World R)
            → IsLiveIn next v
            → Durable v
            → Run Done Kept (advance_from remaining clock select passes (suc guard) next v))
          → {o : Outcome R (Turn R)} → Run Goes Kept o
          → Run {A = SessionStep × SessionState R} Done Kept (elim o [
            | done (stop step state') w' ↦ done (step, state') w'
            | done (again state') w' ↦
                advance_from remaining clock select passes (suc guard) state' w'
            | fail e w' ↦ fail e w'
          ])
      after go (returns {a = stop step next} p) = returns p
      after go (returns {a = again next} {w = v} p) = go next v p.0 p.1
      after go (throws e) = throws e

  pub advance-Durable :
      (remaining : Remaining) (clock : Clock) (select : ModuleRunState R → Option (Question R))
      (state : SessionState R) (w : World R)
      → IsLiveIn state w
      → Durable w
      → Run Done Kept (advance remaining clock select state w)
  unfolding advance
  advance-Durable remaining clock select state w live d =
      elim (Bool-cases (is_finished state.status)) [
        | inl over ↦ rw over (returns d)
        | inr runs ↦ rw runs (
            advance_from-Durable remaining clock select (length state.modules * 2 + 3) 0 state w
              live d)
      ]
