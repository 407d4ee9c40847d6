-- ===== src/Session/Durable/Entries.antt =====
-- The entry points of the session keep the rows and the live state together.
use adaptive_hire_exam_platf.Common.{
  ℕ, ◌≡◌, refl, sym, subst, Option, none, some, Bool, true, false, leb, Bool-cases, inl, inr,
  if◌then◌else◌,
}
use adaptive_hire_exam_platf.Common.Equality.{◌==◌, nat_eq}
use adaptive_hire_exam_platf.Engine.Numbers.{Num}
use adaptive_hire_exam_platf.Engine.Types.{ModuleRunState}
use adaptive_hire_exam_platf.Engine.Questions.{Question}
use adaptive_hire_exam_platf.Engine.Run.{SubmittedAnswer}
use adaptive_hire_exam_platf.Session.State.{
  SessionState, ServedQuestion, SessionRow, SessionStatus, current_module, is_finished,
}
use adaptive_hire_exam_platf.Session.Views.{SessionStep}
use adaptive_hire_exam_platf.Session.World.{World, done, fail, M, save}
use adaptive_hire_exam_platf.Session.World.Runs.{Run, Run-imp, returns, throws, after_Run, lift-Run}
use adaptive_hire_exam_platf.Session.Finish.{apply_answer, finalize}
use adaptive_hire_exam_platf.Session.Assessment.{Assessment}
use adaptive_hire_exam_platf.Session.Rebuild.{rehydrate}
use adaptive_hire_exam_platf.Session.Advance.{Clock, Remaining, advance}
use adaptive_hire_exam_platf.Session.Runtime.{
  SubmitAnswerDto, to_submitted_answer, load, own_state, own_row, current_step,
  start_current_module, answer_module, answer_served, submit_loaded, submit_answer,
  auto_submit_session, submit_overdue, stored_or_rebuilt, begin_current_module, too_late,
  is_in_progress,
}
use adaptive_hire_exam_platf.Session.Durable.{
  IsLiveIn, Durable, StoreAgrees, save-Durable, apply_answer-IsLiveIn, finalize-IsLiveIn,
}
use adaptive_hire_exam_platf.Session.Durable.Passes.{
  Kept, Done, advance-Durable, load_served_question-Durable,
}
use adaptive_hire_exam_platf.Session.Durable.Rebuilding.{rehydrate-IsLiveIn}
use adaptive_hire_exam_platf.Session.Durable.Beginning.{begin_current_module-IsLiveIn}

module _ {R : Type 0} ⦃num : Num R⦄ where
  -- A state in hand that is live, beside a store that agrees with the rows.
  abbrev pub Both : SessionState R → World R → Type 0
  Both state w = IsLiveIn state w × Durable w

  pub rehydrate-Both :
      (assessment : Assessment) (now : ℕ) (row : SessionRow) (w : World R)
      → w.session_row ≡ some row
      → Durable w
      → Run Both Kept (rehydrate assessment now row w)
  rehydrate-Both assessment now row w here d =
      Run-imp (λ state v p. p) (λ e v same. subst Durable (sym same) d)
        (rehydrate-IsLiveIn assessment now row w here d)

  pub stored-IsLiveIn :
      (state : SessionState R) (w : World R) → w.store ≡ some state → Durable w → IsLiveIn state w
  stored-IsLiveIn state w held d =
      (subst (λ store. StoreAgrees store w.responses w.session_row) held d.stored, d.numbered)

module _ {R : Type 0} ⦃num : Num R⦄ (remaining : Remaining) (clock : Clock)
    (select : ModuleRunState R → Option (Question R)) (assessment : Assessment)
    (rebuilt_at : ℕ) where
  abbrev rebuild : SessionRow → M R (SessionState R)
  rebuild = rehydrate assessment rebuilt_at

  own_row-Both :
      (candidate_id : ℕ) (row : Option SessionRow) (w : World R)
      → w.session_row ≡ row
      → Durable w
      → Run Both Kept (own_row remaining clock select rebuild candidate_id row w)
  own_row-Both candidate_id none w here d = throws d
  own_row-Both candidate_id (some row) w here d =
      elim (Bool-cases (row.candidate_id == candidate_id)) [
        | inl theirs ↦ rw theirs (rehydrate-Both assessment rebuilt_at row w here d)
        | inr other ↦ rw other (throws d)
      ]

  own_state-Both :
      (candidate_id : ℕ) (store : Option (SessionState R)) (row : Option SessionRow) (w : World R)
      → w.store ≡ store
      → w.session_row ≡ row
      → Durable w
      → Run Both Kept (own_state remaining clock select rebuild candidate_id store row w)
  own_state-Both candidate_id none row w held here d = own_row-Both candidate_id row w here d
  own_state-Both candidate_id (some state) row w held here d =
      elim (Bool-cases (state.candidate_id == candidate_id)) [
        | inl theirs ↦ rw theirs (returns (stored-IsLiveIn state w held d, d))
        | inr other ↦ rw other (throws d)
      ]

  load-Both :
      (candidate_id : ℕ) (w : World R)
      → Durable w
      → Run Both Kept (load remaining clock select rebuild candidate_id w)
  unfolding load
  load-Both candidate_id w d = own_state-Both candidate_id w.store w.session_row w refl refl d

  pub current_step-Durable :
      (candidate_id : ℕ) (w : World R)
      → Durable w
      → Run Done Kept (current_step remaining clock select rebuild candidate_id w)
  unfolding current_step
  current_step-Durable candidate_id w d =
      after_Run (advance remaining clock select) (load-Both candidate_id w d)
        (λ state v p. advance-Durable remaining clock select state v p.0 p.1)

  pub start_current_module-Durable :
      (candidate_id now : ℕ) (w : World R)
      → Durable w
      → Run Done Kept (start_current_module remaining clock select rebuild candidate_id now w)
  unfolding start_current_module
  start_current_module-Durable candidate_id now w d =
      after_Run
        (λ state v.
          let (state', v') = begin_current_module state now v in
          advance remaining clock select state' v')
        (load-Both candidate_id w d)
        (λ state v p.
          let begun = begin_current_module-IsLiveIn state now v p.0 p.1 in
          advance-Durable remaining clock select (begin_current_module state now v).0
            (begin_current_module state now v).1 begun.0 begun.1)

  abbrev save_and_advance : SessionState R → M R (SessionStep × SessionState R)
  save_and_advance state w = advance remaining clock select state (save state w)

  abbrev apply_and_advance :
      SessionState R
      → ModuleRunState R
      → ServedQuestion
      → SubmittedAnswer
      → ℕ
      → Question R
      → M R (SessionStep × SessionState R)
  apply_and_advance state m served answer now q w =
      elim (apply_answer state m q answer served now w) [
        | done state' v ↦ save_and_advance state' v
        | fail e v ↦ fail e v
      ]

  apply_and_advance-Durable :
      (state : SessionState R) (m : ModuleRunState R) (served : ServedQuestion)
      (answer : SubmittedAnswer) (now : ℕ) (q : Question R) (w : World R)
      → Both state w
      → Run Done Kept (apply_and_advance state m served answer now q w)
  apply_and_advance-Durable state m served answer now q w (live, d) =
      after_Run save_and_advance (apply_answer-IsLiveIn state m q answer served now w live d)
        (λ after v l.
          advance-Durable remaining clock select after (save after v) l (save-Durable after v l))

  answer_module-Durable :
      (state : SessionState R) (served : ServedQuestion) (answer : SubmittedAnswer) (now : ℕ)
      (m : Option (ModuleRunState R)) (w : World R)
      → Both state w
      → Run Done Kept (answer_module remaining clock select rebuild state served answer now m w)
  answer_module-Durable state served answer now none w (live, d) = throws d
  answer_module-Durable state served answer now (some m) w (live, d) =
      elim (Bool-cases (m.module_id == served.module_id)) [
        | inr other ↦ rw other (throws d)
        | inl same ↦ elim (Bool-cases (too_late m.deadline_at now)) [
          | inl late ↦ rw (same, late) (advance-Durable remaining clock select state w live d)
          | inr timely ↦
              rw (same, timely)
                (after_Run (apply_and_advance state m served answer now)
                  (load_served_question-Durable served.question_id w d)
                  (λ q v here.
                    subst (λ z. Run Done Kept (apply_and_advance state m served answer now q z))
                      (sym here)
                      (apply_and_advance-Durable state m served answer now q w (live, d))))
        ]
      ]

  answer_served-Durable :
      (state : SessionState R) (question_id : ℕ) (answer : SubmittedAnswer) (now : ℕ)
      (served : Option ServedQuestion) (w : World R)
      → Both state w
      → Run Done Kept
          (answer_served remaining clock select rebuild state question_id answer now served w)
  answer_served-Durable state question_id answer now none w (live, d) = throws d
  answer_served-Durable state question_id answer now (some served) w (live, d) =
      elim (Bool-cases (served.question_id == question_id)) [
        | inr other ↦ rw other (throws d)
        | inl same ↦
            rw same
              (answer_module-Durable state served answer now (current_module state) w (live, d))
      ]

  submit_loaded-Durable :
      (state : SessionState R) (question_id : ℕ) (answer : SubmittedAnswer) (now : ℕ) (w : World R)
      → Both state w
      → Run Done Kept (submit_loaded remaining clock select rebuild state question_id answer now w)
  unfolding submit_loaded
  submit_loaded-Durable state question_id answer now w (live, d) =
      by_tests (is_finished state.status) (leb state.expires_at now)
    where
      by_tests :
          (over late : Bool)
          → Run {A = SessionStep × SessionState R} Done Kept (
              (if over
                  then advance remaining clock select state
                  else if late
                  then (λ z.
                      let (state', z') =
                        finalize state SessionStatus.auto_submitted clock.closing z in
                      advance remaining clock select state' z')
                  else answer_served remaining clock select rebuild state question_id answer now
                      state.served)
                w)
      by_tests true late = advance-Durable remaining clock select state w live d
      by_tests false true =
          let closed =
            finalize-IsLiveIn state SessionStatus.auto_submitted clock.closing w refl live d in
          advance-Durable remaining clock select
            (finalize state SessionStatus.auto_submitted clock.closing w).0
            (finalize state SessionStatus.auto_submitted clock.closing w).1 closed.0 closed.1
      by_tests false false =
          answer_served-Durable state question_id answer now state.served w (live, d)

  abbrev load_and_submit :
      ℕ → SubmitAnswerDto → ℕ → SubmittedAnswer → M R (SessionStep × SessionState R)
  load_and_submit candidate_id dto now answer w =
      elim (load remaining clock select rebuild candidate_id w) [
        | done state v ↦
            submit_loaded remaining clock select rebuild state dto.question_id answer now v
        | fail e v ↦ fail e v
      ]

  load_and_submit-Durable :
      (candidate_id : ℕ) (dto : SubmitAnswerDto) (now : ℕ) (answer : SubmittedAnswer) (w : World R)
      → Durable w
      → Run Done Kept (load_and_submit candidate_id dto now answer w)
  load_and_submit-Durable candidate_id dto now answer w d =
      after_Run
        (λ state. submit_loaded remaining clock select rebuild state dto.question_id answer now)
        (load-Both candidate_id w d)
        (λ state v p. submit_loaded-Durable state dto.question_id answer now v p)

  pub submit_answer-Durable :
      (candidate_id : ℕ) (dto : SubmitAnswerDto) (now : ℕ) (w : World R)
      → Durable w
      → Run Done Kept (submit_answer remaining clock select rebuild candidate_id dto now w)
  unfolding submit_answer
  submit_answer-Durable candidate_id dto now w d =
      after_Run (load_and_submit candidate_id dto now)
        (lift-Run {P = λ answer v. v ≡ w} (to_submitted_answer dto) w (λ answer e. refl) (λ e h. d))
        (λ answer v here.
          subst (λ z. Run Done Kept (load_and_submit candidate_id dto now answer z)) (sym here)
            (load_and_submit-Durable candidate_id dto now answer w d))

  stored_or_rebuilt-Both :
      (store : Option (SessionState R)) (row : SessionRow) (w : World R)
      → w.store ≡ store
      → w.session_row ≡ some row
      → Durable w
      → Run Both Kept (stored_or_rebuilt remaining clock select rebuild store row w)
  stored_or_rebuilt-Both none row w held here d = rehydrate-Both assessment rebuilt_at row w here d
  stored_or_rebuilt-Both (some state) row w held here d =
      returns (stored-IsLiveIn state w held d, d)

  abbrev close_overdue : SessionState R → M R Bool
  close_overdue state v = done true (finalize state SessionStatus.auto_submitted clock.closing v).1

  submit_overdue-Durable :
      (row : Option SessionRow) (w : World R)
      → w.session_row ≡ row
      → Durable w
      → Run Done Kept (submit_overdue remaining clock select rebuild row w)
  submit_overdue-Durable none w here d = returns d
  submit_overdue-Durable (some row) w here d = elim (Bool-cases (is_in_progress row.status)) [
    | inr over ↦ rw over (returns d)
    | inl runs ↦ rw runs (
        after_Run close_overdue (stored_or_rebuilt-Both w.store row w refl here d) (λ state v p.
          returns
            (finalize-IsLiveIn state SessionStatus.auto_submitted clock.closing v refl p.0 p.1).1))
  ]

  pub auto_submit_session-Durable :
      (w : World R)
      → Durable w
      → Run Done Kept (auto_submit_session remaining clock select rebuild w)
  unfolding auto_submit_session
  auto_submit_session-Durable w d = submit_overdue-Durable w.session_row w refl d
