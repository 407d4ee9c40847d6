-- ===== src/Session/Finish.antt =====
-- `applyAnswer`, `completeModule`, `persistModuleResult` and `finalize` of
-- backend/src/sessions/sessions.service.ts: how an answer is recorded, and how a module and a
-- session end.
pub mod Closing
pub mod Recording
pub mod Statistics
use adaptive_hire_exam_platf.Common.{
  ℕ, suc, ◌-◌, Option, none, some, List, [], ◌∷◌, map, Bool, true, false, String, ltb,
  if◌then◌else◌,
}
use adaptive_hire_exam_platf.Common.Equality.{◌==◌, nat_eq}
use adaptive_hire_exam_platf.Engine.Numbers.{Num}
use adaptive_hire_exam_platf.Engine.Types.{
  ModuleRunState, ModuleRunStatus, ModuleStopReason, time_expired,
}
use adaptive_hire_exam_platf.Engine.Questions.{Question}
use adaptive_hire_exam_platf.Engine.Run.{
  SubmittedAnswer, Recorded, record_answer, final_ability, final_trait_scores, probe_results,
}
use adaptive_hire_exam_platf.Session.State.{
  SessionState, ServedQuestion, SessionRow, SessionStatus, InvitationStatus, ResponseRow,
  ModuleResultRow, current_module, put_module, is_finished, finished,
}
use adaptive_hire_exam_platf.Session.World.{
  World, M, ◌>>=◌, ◌>>◌, pure, lift, modify, save, clear_module_clock, load_served_question,
  apply_item_update, insert_response, upsert_result, remove_auto_submit, enqueue_report,
}

-- `date ? new Date(date) : null`
abbrev pub date_or_null : Option ℕ → Option ℕ
date_or_null none = none
date_or_null (some t) = if t == 0 then none else some t

abbrev pub only_if {ℓ} : {A : Type ℓ} → Bool → Option A → Option A
only_if true a = a
only_if false a = none

abbrev pub chosen_option : SubmittedAnswer → Option String
chosen_option (SubmittedAnswer.option selected_option) = some selected_option
chosen_option _ = none

abbrev pub chosen_ordering : SubmittedAnswer → Option (List String)
chosen_ordering (SubmittedAnswer.ordering selected_options) = some selected_options
chosen_ordering _ = none

-- `status ??= reason`
abbrev pub or_reason : Option ModuleStopReason → ModuleStopReason → ModuleStopReason
or_reason none reason = reason
or_reason (some given) reason = given

abbrev pub submit_row : SessionStatus → ℕ → Option SessionRow → Option SessionRow
submit_row status now none = none
submit_row status now (some row) = some (record row { status = status; submitted_at = some now })

module _ {R : Type 0} where
  -- `state.served && state.served.moduleId === module.moduleId`
  abbrev pub on_screen : Option ServedQuestion → ModuleRunState R → Option ServedQuestion
  on_screen none m = none
  on_screen (some served) m = if served.module_id == m.module_id then some served else none

  unfoldable pub close_module : ModuleStopReason → ℕ → ModuleRunState R → ModuleRunState R
  close_module reason now m = record m {
    status = ModuleRunStatus.completed;
    completed_at = some now;
    stop_reason = some reason;
  }

  abbrev pub expire_by : ModuleRunStatus → ℕ → ModuleRunState R → ModuleRunState R
  expire_by ModuleRunStatus.in_progress now m =
      close_module (or_reason m.stop_reason time_expired) now m
  expire_by _ now m = m

  -- What `finalize` does to one module.
  unfoldable pub expire_module : ℕ → ModuleRunState R → ModuleRunState R
  unfolding close_module
  expire_module now m = expire_by m.status now m

module _ {R : Type 0} ⦃num : Num R⦄ where
  unfoldable pub result_row : ModuleRunState R → ModuleResultRow R
  unfolding final_ability final_trait_scores probe_results
  result_row m =
      let attempted : Bool = ltb 0 m.answered in
      record {
        module_id = m.module_id;
        ability_score = only_if attempted (final_ability m);
        trait_scores = only_if attempted (final_trait_scores m);
        probe_results = only_if attempted (probe_results m);
        questions_answered = m.answered;
        questions_correct = m.correct;
        stop_reason = m.stop_reason;
        started_at = date_or_null m.started_at;
        completed_at = date_or_null m.completed_at;
      }

  unfoldable pub persist_module_result : ModuleRunState R → World R → World R
  unfolding result_row upsert_result
  persist_module_result m w = record w {
    module_results = upsert_result (result_row m) w.module_results;
  }

  unfoldable pub persist_all : List (ModuleRunState R) → World R → World R
  unfolding persist_module_result
  persist_all [] w = w
  persist_all (m ∷ ms) w = persist_all ms (persist_module_result m w)

  abbrev pub finalized : SessionState R → ℕ → SessionState R
  finalized state now = record state {
    modules = map (expire_module now) state.modules;
    status = finished;
    served = none;
  }

  -- The rows and jobs that close with the session.
  unfoldable pub close_rows : SessionStatus → ℕ → World R → World R
  close_rows status now w = enqueue_report (
      remove_auto_submit (record w {
        session_row = submit_row status now w.session_row;
        invitation_status = InvitationStatus.completed;
      }))

  unfoldable pub finalize : SessionState R → SessionStatus → ℕ → World R → SessionState R × World R
  unfolding expire_module persist_all close_rows
  finalize state status now w = if is_finished state.status then (state, w) else (
    finalized state now,
    close_rows status now
        (save (finalized state now) (persist_all (finalized state now).modules w)),
  )

  unfoldable pub response_row :
      SessionState R
      → ModuleRunState R
      → Question R
      → SubmittedAnswer
      → ServedQuestion
      → ℕ
      → Recorded R
      → ResponseRow R
  response_row state m q answer served now r = record {
    module_id = m.module_id;
    question_id = q.id;
    selected_option = chosen_option answer;
    selected_options = chosen_ordering answer;
    is_correct = r.outcome.is_correct;
    ability_estimate_after = r.outcome.ability_estimate_after;
    question_difficulty_at_serve = r.outcome.question_difficulty_at_serve;
    sequence_number = suc state.answered_total;
    time_taken_ms = now - served.served_at;
  }

  abbrev pub counted : SessionState R → ModuleRunState R → SessionState R
  counted state m = record (put_module state m) {
    answered_total = suc state.answered_total;
    served = none;
  }

  -- What `applyAnswer` does once the engine has recorded the answer.
  abbrev pub insert_recorded :
      SessionState R
      → ModuleRunState R
      → Question R
      → SubmittedAnswer
      → ServedQuestion
      → ℕ
      → Recorded R
      → M R (SessionState R)
  insert_recorded state m q answer served now r = do
    modify (λ w. record w { bank = apply_item_update r.item_update w.bank })
    insert_response (response_row state m q answer served now r)
    pure (counted state r.state)

  unfoldable pub apply_answer :
      SessionState R
      → ModuleRunState R
      → Question R
      → SubmittedAnswer
      → ServedQuestion
      → ℕ
      → M R (SessionState R)
  unfolding record_answer apply_item_update insert_response response_row
  apply_answer state m q answer served now = do
    r ← lift (record_answer m q answer (suc state.answered_total))
    insert_recorded state m q answer served now r

  -- A question that is still on screen is scored as unanswered.
  abbrev pub answer_on_screen :
      SessionState R → ModuleRunState R → ℕ → Option ServedQuestion → M R (SessionState R)
  answer_on_screen state m now none = pure state
  answer_on_screen state m now (some served) = do
    q ← load_served_question served.question_id
    apply_answer state m q SubmittedAnswer.unanswered served now

  -- The module as the state now holds it.
  abbrev pub held_module : SessionState R → ModuleRunState R → ModuleRunState R
  held_module state m = elim (current_module state) [ none ↦ m | some current ↦ current ]

  -- What `completeModule` does once nothing of the module is on screen.
  abbrev pub close_held :
      ModuleRunState R → ModuleStopReason → ℕ → SessionState R → M R (SessionState R)
  close_held m reason now state = do
    let closed = close_module reason now (held_module state m)
    modify (λ w. persist_module_result closed (clear_module_clock m.module_id w))
    pure (put_module state closed)

  unfoldable pub complete_module :
      SessionState R → ModuleRunState R → ModuleStopReason → ℕ → M R (SessionState R)
  unfolding close_module apply_answer load_served_question persist_module_result
  complete_module state m reason now = do
    state' ← answer_on_screen state m now (on_screen state.served m)
    close_held m reason now state'
