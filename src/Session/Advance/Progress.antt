-- ===== src/Session/Advance/Progress.antt =====
-- Every pass of the loop of `advance` ends it or moves on by one module, so the loop ends within
-- its bound.
use adaptive_hire_exam_platf.Common.{
  ℕ, zero, suc, ◌+◌, ◌*◌, ◌<◌, ◌≡◌, ◌≢◌, refl, ap, ◌∙◌, Option, none, some, List, [], ◌∷◌, leb,
  length, length-set, arith, get_elem?, any, find, Option-cases, Bool-cases, inl, inr,
}
use adaptive_hire_exam_platf.Common.Equality.{◌==◌, nat_eq}
use adaptive_hire_exam_platf.Failures.{Failure, Result, failed, not_advanced}
use adaptive_hire_exam_platf.Engine.Numbers.{Num}
use adaptive_hire_exam_platf.Engine.Types.{ModuleRunState, ModuleRunStatus, ModuleStopReason}
use adaptive_hire_exam_platf.Engine.Questions.{Question}
use adaptive_hire_exam_platf.Engine.Run.{
  SubmittedAnswer, NextStep, question, module_complete, next_step, record_answer, Recorded,
}
use adaptive_hire_exam_platf.Engine.Run.Faults.{Safe, fine, refused, record_answer-Safe}
use adaptive_hire_exam_platf.Session.State.{
  is_finished, ResponseRow, SessionState, ServedQuestion, current_module,
}
use adaptive_hire_exam_platf.Session.World.{
  pure, apply_item_update, World, Outcome, done, fail, load_served_question, insert_response,
}
use adaptive_hire_exam_platf.Session.World.Runs.{
  Run, Run-fail, returns, throws, after_Run, lift-Run,
}
use adaptive_hire_exam_platf.Session.Finish.{
  counted, insert_recorded, close_held, held_module, close_module, apply_answer, answer_on_screen,
  complete_module, on_screen, response_row,
}
use adaptive_hire_exam_platf.Session.Views.{SessionStep}
use adaptive_hire_exam_platf.Session.Advance.{
  move_on, show_again, Clock, Remaining, Turn, stop, again, take_step, serve_or_step, module_turn,
  current_turn, turn, advance_from, advance, still_open,
}

-- Any error but "could not be advanced".
abbrev pub Other : {R : Type 0} → Failure → World R → Type 0
Other e w = e ≢ not_advanced

-- The same place in a list of as many modules.
abbrev Kept : {R : Type 0} → SessionState R → SessionState R → Type 0
Kept before after =
    (after.current_module_index ≡ before.current_module_index)
    × (length after.modules ≡ length before.modules)

abbrev Whatever : {R A : Type 0} → A → World R → Type 0
Whatever a w = Unit {0}

-- A pass that goes on has left one module behind.
abbrev Moves : {R : Type 0} → SessionState R → Turn R → World R → Type 0
Moves before (stop step state) w = Unit {0}
Moves before (again after) w =
    (after.current_module_index ≡ suc before.current_module_index)
    × (length after.modules ≡ length before.modules)

Safe-Other : {A : Type 0} {r : Result A} → Safe r → (e : Failure) → r ≡ failed e → e ≢ not_advanced
Safe-Other (fine a) e h = cc
Safe-Other (refused n) e h = λ same. n (cc)

get_elem?-lt : {A : Type 0} (xs : List A) (i : ℕ) {x : A} → get_elem? xs i ≡ some x → i < length xs
get_elem?-lt [] i h = cc
get_elem?-lt (x ∷ xs) zero h = omega arith
get_elem?-lt (x ∷ xs) (suc i) h = omega (arith, get_elem?-lt xs i h)

module _ {R : Type 0} ⦃num : Num R⦄ where
  insert_response-Run :
      (row : ResponseRow R) (w : World R) → Run Whatever Other (insert_response row w)
  unfolding insert_response
  insert_response-Run row w =
      elim (Bool-cases
        (any (λ (r : ResponseRow R). r.question_id == row.question_id) w.responses)) [
          | inl twice ↦ rw twice (throws (λ h. cc))
          | inr new ↦ rw new (returns tt)
        ]

  load_served_question-Run : (id : ℕ) (w : World R) → Run Whatever Other (load_served_question id w)
  unfolding load_served_question
  load_served_question-Run id w =
      elim (Option-cases (find (λ (q : Question R). q.id == id) w.bank)) [
        | inl gone ↦ rw (gone, load_served_question) (throws (λ h. cc))
        | inr (q, found) ↦ rw (found, load_served_question) (returns tt)
      ]

  insert_recorded-Run :
      (state : SessionState R) (m : ModuleRunState R) (q : Question R) (answer : SubmittedAnswer)
      (served : ServedQuestion) (now : ℕ) (r : Recorded R) (w : World R)
      → Run (λ after _. Kept state after) Other (insert_recorded state m q answer served now r w)
  insert_recorded-Run state m q answer served now r w =
      after_Run (λ _. pure (counted state r.state))
        (insert_response-Run (response_row state m q answer served now r)
          (record w { bank = apply_item_update r.item_update w.bank }))
        (λ _ v _. returns (refl, length-set state.modules state.current_module_index r.state))

  apply_answer-Run :
      (state : SessionState R) (m : ModuleRunState R) (q : Question R) (answer : SubmittedAnswer)
      (served : ServedQuestion) (now : ℕ) (w : World R)
      → Run (λ after _. Kept state after) Other (apply_answer state m q answer served now w)
  unfolding apply_answer
  apply_answer-Run state m q answer served now w =
      after_Run (insert_recorded state m q answer served now)
        (lift-Run {P = Whatever} (record_answer m q answer (suc state.answered_total)) w (λ r e. tt)
          (Safe-Other (record_answer-Safe m q answer (suc state.answered_total))))
        (λ r v _. insert_recorded-Run state m q answer served now r v)

  answer_on_screen-Run :
      (state : SessionState R) (m : ModuleRunState R) (now : ℕ) (served : Option ServedQuestion)
      (w : World R)
      → Run (λ after _. Kept state after) Other (answer_on_screen state m now served w)
  answer_on_screen-Run state m now none w = returns (refl, refl)
  answer_on_screen-Run state m now (some served) w =
      after_Run (λ q. apply_answer state m q SubmittedAnswer.unanswered served now)
        (load_served_question-Run served.question_id w)
        (λ q v _. apply_answer-Run state m q SubmittedAnswer.unanswered served now v)

  complete_module-Run :
      (state : SessionState R) (m : ModuleRunState R) (reason : ModuleStopReason) (now : ℕ)
      (w : World R)
      → Run (λ after _. Kept state after) Other (complete_module state m reason now w)
  unfolding complete_module
  complete_module-Run state m reason now w =
      after_Run (close_held m reason now)
        (answer_on_screen-Run state m now (on_screen state.served m) w)
        (λ after v kept. returns (
          kept.0,
          length-set after.modules after.current_module_index
                (close_module reason now (held_module after m))
              ∙ kept.1,
        ))

  take_step-Run :
      (remaining : Remaining) (clock : Clock) (state : SessionState R) (m : ModuleRunState R)
      (now : ℕ) (step : NextStep R) (w : World R)
      → Run (Moves state) Other (take_step remaining clock state m now step w)
  take_step-Run remaining clock state m now (module_complete reason) w =
      after_Run move_on (complete_module-Run state m reason now w)
        (λ after v kept. returns (ap suc kept.0, kept.1))
  take_step-Run remaining clock state m now (question q) w = returns tt

  serve_or_step-Run :
      (remaining : Remaining) (clock : Clock) (select : ModuleRunState R → Option (Question R))
      (state : SessionState R) (m : ModuleRunState R) (now : ℕ) (served : Option ServedQuestion)
      (w : World R)
      → Run (Moves state) Other (serve_or_step remaining clock select state m now served w)
  serve_or_step-Run remaining clock select state m now (some served) w =
      after_Run (show_again remaining clock state m) (load_served_question-Run served.question_id w)
        (λ q v _. returns tt)
  serve_or_step-Run remaining clock select state m now none w =
      take_step-Run remaining clock state m now (next_step select m now) w

  module_turn-Run :
      (remaining : Remaining) (clock : Clock) (select : ModuleRunState R → Option (Question R))
      (state : SessionState R) (m : ModuleRunState R) (now : ℕ) (status : ModuleRunStatus)
      (w : World R)
      → Run (Moves state) Other (module_turn remaining clock select state m now status w)
  module_turn-Run remaining clock select state m now ModuleRunStatus.completed w =
      returns (refl, refl)
  module_turn-Run remaining clock select state m now ModuleRunStatus.pending w = returns tt
  module_turn-Run remaining clock select state m now ModuleRunStatus.in_progress w =
      serve_or_step-Run remaining clock select state m now
        (still_open (on_screen state.served m) m.deadline_at now) w

  -- A pass that goes on started at a module of the list.
  abbrev Advances : SessionState R → Turn R → World R → Type 0
  Advances before (stop step state) w = Unit {0}
  Advances before (again after) w =
      Moves before (again after) w × (before.current_module_index < length before.modules)

  with_place :
      (state : SessionState R)
      → state.current_module_index < length state.modules
      → {o : Outcome R (Turn R)} → Run (Moves state) Other o
      → Run (Advances state) Other o
  with_place state h (returns {a = stop step after} p) = returns tt
  with_place state h (returns {a = again after} p) = returns (p, h)
  with_place state h (throws e) = throws e

  turn-Run :
      (remaining : Remaining) (clock : Clock) (select : ModuleRunState R → Option (Question R))
      (now : ℕ) (state : SessionState R) (w : World R)
      → Run (Advances state) Other (turn remaining clock select now state w)
  unfolding turn
  turn-Run remaining clock select now state w = elim (Bool-cases (leb state.expires_at now)) [
    | inl over ↦ rw over (returns tt)
    | inr runs ↦ rw runs (by_module (current_module state) refl)
  ]
    where
      by_module :
          (m : Option (ModuleRunState R))
          → current_module state ≡ m
          → Run (Advances state) Other (current_turn remaining clock select state now m w)
      by_module none h = returns tt
      by_module (some m) h =
          with_place state (get_elem?-lt state.modules state.current_module_index h)
            (module_turn-Run remaining clock select state m now m.status w)

  advance_from-Run :
      (remaining : Remaining) (clock : Clock) (select : ModuleRunState R → Option (Question R))
      (passes guard : ℕ) (state : SessionState R) (w : World R)
      → 0 < passes
      → length state.modules < passes + state.current_module_index
      → Run Whatever Other (advance_from remaining clock select passes guard state w)
  unfolding advance_from
  advance_from-Run remaining clock select zero guard state w h k = absurd (omega arith)
  advance_from-Run remaining clock select (suc passes) guard state w h k =
      next (λ after v i j. advance_from-Run remaining clock select passes (suc guard) after v i j)
        (turn-Run remaining clock select (clock.pass guard) state w)
    where
      next :
          ((after : SessionState R) (v : World R)
            → 0 < passes
            → length after.modules < passes + after.current_module_index
            → Run Whatever Other (advance_from remaining clock select passes (suc guard) after v))
          → {o : Outcome R (Turn R)} → Run (Advances state) Other o
          → Run {A = SessionStep × SessionState R} Whatever Other (elim o [
            | done (stop step state') w' ↦ done (step, state') w'
            | done (again state') w' ↦
                advance_from remaining clock select passes (suc guard) state' w'
            | fail e w' ↦ fail e w'
          ])
      next go (returns {a = stop step after} p) = returns tt
      next go (returns {a = again after} {w = v} p) =
          go after v (omega (arith, p)) (omega (arith, p))
      next go (throws e) = throws e

  advance-Run :
      (remaining : Remaining) (clock : Clock) (select : ModuleRunState R → Option (Question R))
      (state : SessionState R) (w : World R)
      → Run Whatever Other (advance remaining clock select state w)
  unfolding advance
  advance-Run remaining clock select state w = elim (Bool-cases (is_finished state.status)) [
    | inl over ↦ rw over (returns tt)
    | inr runs ↦ rw runs (
        advance_from-Run remaining clock select (length state.modules * 2 + 3) 0 state w
          (omega arith) (omega arith))
  ]

  -- `advance` ends within its loop bound: whatever the session, the clock, the selector and the
  -- world, it never throws "could not be advanced".
  pub advance_ends :
      (remaining : Remaining) (clock : Clock) (select : ModuleRunState R → Option (Question R))
      (state : SessionState R) (w v : World R)
      → advance remaining clock select state w ≢ fail not_advanced v
  advance_ends remaining clock select state w v h =
      Run-fail (advance-Run remaining clock select state w) h refl
