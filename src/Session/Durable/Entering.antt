-- ===== src/Session/Durable/Entering.antt =====
-- Entering a session keeps the rows and the live state together.
use adaptive_hire_exam_platf.Common.{
  ℕ, ◌-◌, ◌≡◌, refl, Option, none, some, length, arith, Bool-cases, inl, inr,
}
use adaptive_hire_exam_platf.Common.Equality.{◌==◌, nat_eq}
use adaptive_hire_exam_platf.Failures.{Failure, Result, ok, failed}
use adaptive_hire_exam_platf.Engine.Numbers.{Num}
use adaptive_hire_exam_platf.Engine.Types.{ModuleRunState}
use adaptive_hire_exam_platf.Engine.Questions.{Question}
use adaptive_hire_exam_platf.Session.State.{SessionState, SessionRow, InvitationStatus}
use adaptive_hire_exam_platf.Session.Views.{SessionStep}
use adaptive_hire_exam_platf.Session.World.{World, Outcome, done, fail, save, schedule_auto_submit}
use adaptive_hire_exam_platf.Session.World.Runs.{Run, returns, throws, after_Run}
use adaptive_hire_exam_platf.Session.Assessment.{Assessment, Invitation}
use adaptive_hire_exam_platf.Session.Advance.{Clock, Remaining}
use adaptive_hire_exam_platf.Session.Runtime.{is_in_progress}
use adaptive_hire_exam_platf.Session.Start.{
  insert_session, started_row, started_state, open_session, advance_and_show, live_state, resume,
  create_session, create_or_join, joined, join, is_unique_violation, enter, start, check_invitation,
  shown,
}
use adaptive_hire_exam_platf.Session.Durable.{IsLive, Durable, Durable-same, save-Durable}
use adaptive_hire_exam_platf.Session.Durable.Passes.{Kept, Done, advance-Durable}
use adaptive_hire_exam_platf.Session.Durable.Entries.{Both, rehydrate-Both, stored-IsLiveIn}

module _ {R : Type 0} ⦃num : Num R⦄ where
  schedule-rows :
      (delay : ℕ) (w : World R)
      → ((schedule_auto_submit delay w).responses ≡ w.responses)
        × ((schedule_auto_submit delay w).session_row ≡ w.session_row)
        × ((schedule_auto_submit delay w).store ≡ w.store)
  schedule-rows delay w = ground arith

  -- The world as the insert of a new session leaves it.
  abbrev opened : Invitation → ℕ → ℕ → ℕ → World R → World R
  opened invitation candidate_id id now w =
      let row = started_row invitation candidate_id id now in
      schedule_auto_submit (row.expires_at - now) (
        save (started_state invitation row now)
          (record w { session_row = some row; invitation_status = InvitationStatus.in_progress }))

  opened-Both :
      (invitation : Invitation) (candidate_id id now : ℕ) (w : World R)
      → w.session_row ≡ none
      → Durable w
      → Both
          (started_state invitation (started_row invitation candidate_id id now) now)
          (opened invitation candidate_id id now w)
  opened-Both invitation candidate_id id now w fresh d =
      let row = started_row invitation candidate_id id now in
      let state = started_state invitation row now in
      let v : World R = record w {
        session_row = some row;
        invitation_status = InvitationStatus.in_progress;
      } in
      let rows = schedule-rows (row.expires_at - now) (save state v) in
      let live : IsLive state v.responses v.session_row = record {
        count = rw ((d.unstarted fresh).1) refl;
        matches = record {
          id = refl;
          candidate = refl;
          started = refl;
          expiry = refl;
          open_while = refl;
        };
      } in
      (
        rw (rows.0, rows.1) (live, d.numbered),
        Durable-same (save state v) (opened invitation candidate_id id now w) rows.0 rows.1 rows.2
            (save-Durable state v (live, d.numbered)),
      )

  open_session-Both :
      (invitation : Invitation) (candidate_id id now : ℕ) (w : World R)
      → Durable w
      → Run Both Kept (open_session invitation candidate_id id now w)
  unfolding open_session
  open_session-Both invitation candidate_id id now w d =
      elim (Bool-cases (length invitation.assessment.modules == 0)) [
        | inl empty ↦ rw empty (throws d)
        | inr filled ↦ rw filled (inserting w.session_row refl)
      ]
    where
      inserting :
          (existing : Option SessionRow)
          → w.session_row ≡ existing
          → let row = started_row invitation candidate_id id now in
            let state : SessionState R = started_state invitation row now in
            Run Both Kept (elim (insert_session row existing w) [
              | done _ v ↦ done state (schedule_auto_submit (row.expires_at - now) (save state v))
              | fail e v ↦ fail e v
            ])
      inserting none fresh = returns (opened-Both invitation candidate_id id now w fresh d)
      inserting (some row) taken = throws d

module _ {R : Type 0} ⦃num : Num R⦄ (remaining : Remaining) (clock : Clock)
    (select : ModuleRunState R → Option (Question R)) where
  advance_and_show-Durable :
      (state : SessionState R) (w : World R)
      → Both state w
      → Run Done Kept (advance_and_show remaining clock select state w)
  advance_and_show-Durable state w (live, d) =
      after_Run (shown remaining clock select)
        (advance-Durable remaining clock select state w live d) (λ a v p. returns p)

  live_state-Both :
      (assessment : Assessment) (now : ℕ) (store : Option (SessionState R)) (row : SessionRow)
      (w : World R)
      → w.store ≡ store
      → w.session_row ≡ some row
      → Durable w
      → Run Both Kept (live_state remaining clock select assessment now store row w)
  live_state-Both assessment now none row w held here d = rehydrate-Both assessment now row w here d
  live_state-Both assessment now (some state) row w held here d =
      returns (stored-IsLiveIn state w held d, d)

  resume-Durable :
      (assessment : Assessment) (now : ℕ) (row : SessionRow) (w : World R)
      → w.session_row ≡ some row
      → Durable w
      → Run Done Kept (resume remaining clock select assessment now row w)
  unfolding resume
  resume-Durable assessment now row w here d = elim (Bool-cases (is_in_progress row.status)) [
    | inr over ↦ rw over (returns d)
    | inl runs ↦ rw runs (
        after_Run (advance_and_show remaining clock select)
          (live_state-Both assessment now w.store row w refl here d)
          (λ state v p. advance_and_show-Durable state v p))
  ]

  create_session-Durable :
      (invitation : Invitation) (candidate_id id now : ℕ) (w : World R)
      → Durable w
      → Run Done Kept (create_session remaining clock select invitation candidate_id id now w)
  unfolding create_session
  create_session-Durable invitation candidate_id id now w d =
      after_Run (advance_and_show remaining clock select)
        (open_session-Both invitation candidate_id id now w d)
        (λ state v p. advance_and_show-Durable state v p)

  join-Durable :
      (e : Failure) (assessment : Assessment) (now : ℕ) (row : Option SessionRow) (w : World R)
      → w.session_row ≡ row
      → Durable w
      → Run Done Kept (join remaining clock select e assessment now row w)
  join-Durable e assessment now none w here d = throws d
  join-Durable e assessment now (some winner) w here d =
      resume-Durable assessment now winner w here d

  joined-Durable :
      (e : Failure) (assessment : Assessment) (now : ℕ) (w : World R)
      → Durable w
      → Run Done Kept (joined remaining clock select e assessment now w)
  joined-Durable e assessment now w d = elim (Bool-cases (is_unique_violation e)) [
    | inl raced ↦ rw raced (join-Durable e assessment now w.session_row w refl d)
    | inr other ↦ rw other (throws d)
  ]

  pub create_or_join-Durable :
      (invitation : Invitation) (candidate_id id now : ℕ) (w : World R)
      → Durable w
      → Run Done Kept (create_or_join remaining clock select invitation candidate_id id now w)
  unfolding create_or_join
  create_or_join-Durable invitation candidate_id id now w d =
      either (create_session-Durable invitation candidate_id id now w d)
    where
      either :
          {o : Outcome R SessionStep}
          → Run Done Kept o
          → Run {A = SessionStep} Done Kept (elim o [
            | done step v ↦ done step v
            | fail e v ↦ joined remaining clock select e invitation.assessment now v
          ])
      either (returns p) = returns p
      either (throws {e} {w = v} p) = joined-Durable e invitation.assessment now v p

  enter-Durable :
      (invitation : Invitation) (candidate_id id now : ℕ) (meanwhile : World R → World R)
      (row : Option SessionRow) (w : World R)
      → w.session_row ≡ row
      → Durable w
      → Durable (meanwhile w)
      → Run Done Kept (enter remaining clock select invitation candidate_id id now meanwhile row w)
  enter-Durable invitation candidate_id id now meanwhile none w here d after =
      create_or_join-Durable invitation candidate_id id now (meanwhile w) after
  enter-Durable invitation candidate_id id now meanwhile (some row) w here d after =
      resume-Durable invitation.assessment now row w here d

  -- Starting, when what other requests do meanwhile keeps them together too.
  pub start-Durable :
      (candidate_id : ℕ) (found : Option Invitation) (id now : ℕ) (meanwhile : World R → World R)
      (w : World R)
      → Durable w
      → Durable (meanwhile w)
      → Run Done Kept (start remaining clock select candidate_id found id now meanwhile w)
  unfolding start
  start-Durable candidate_id found id now meanwhile w d after =
      by_check (check_invitation candidate_id found w.invitation_status now)
    where
      by_check :
          (checked : Result Invitation)
          → Run {A = SessionStep} Done Kept (elim checked [
            | ok invitation ↦
                enter remaining clock select invitation candidate_id id now meanwhile w.session_row
                  w
            | failed e ↦ fail e w
          ])
      by_check (ok invitation) =
          enter-Durable invitation candidate_id id now meanwhile w.session_row w refl d after
      by_check (failed e) = throws d
