-- ===== src/Session/Start/Joining.antt =====
-- What a start that loses the race gets.
use adaptive_hire_exam_platf.Common.{
  ℕ, ◌≡◌, arith, refl, sym, ◌∙◌, ◌-◌, ap, Option, none, some, true, false, length, Bool-cases, inl,
  inr,
}
use adaptive_hire_exam_platf.Common.Equality.{◌==◌, nat_eq}
use adaptive_hire_exam_platf.Failures.{Failure, ok, duplicate_session, no_modules}
use adaptive_hire_exam_platf.Engine.Numbers.{Num}
use adaptive_hire_exam_platf.Engine.Types.{ModuleRunState}
use adaptive_hire_exam_platf.Engine.Questions.{Question}
use adaptive_hire_exam_platf.Session.State.{SessionState, SessionRow, InvitationStatus}
use adaptive_hire_exam_platf.Session.World.{World, Outcome, done, fail, save, schedule_auto_submit}
use adaptive_hire_exam_platf.Session.Assessment.{Assessment, Invitation}
use adaptive_hire_exam_platf.Session.Advance.{Clock, Remaining}
use adaptive_hire_exam_platf.Session.Start.{
  check_invitation, open_session, create_session, create_or_join, resume, start, join,
  insert_session, started_row, started_state, enter, advance_and_show,
}
use adaptive_hire_exam_platf.Session.Runtime.{is_in_progress}

insert_session-taken :
    {R : Type 0} ⦃num : Num R⦄ (given row : SessionRow) (existing : Option SessionRow) (w : World R)
    → existing ≡ some row
    → insert_session given existing w ≡ fail duplicate_session w
insert_session-taken given row none w h = cc
insert_session-taken given row (some other) w h = refl

insert_session-fresh :
    {R : Type 0} ⦃num : Num R⦄ (given : SessionRow) (existing : Option SessionRow) (w : World R)
    → existing ≡ none
    → insert_session given existing w
      ≡ done tt
          (record w { session_row = some given; invitation_status = InvitationStatus.in_progress })
insert_session-fresh given none w h = refl
insert_session-fresh given (some other) w h = cc

schedule_auto_submit-rows :
    {R : Type 0} (delay : ℕ) (w : World R)
    → ((schedule_auto_submit delay w).session_row ≡ w.session_row)
      × ((schedule_auto_submit delay w).store ≡ w.store)
schedule_auto_submit-rows delay w = ground arith

module _ {R : Type 0} ⦃num : Num R⦄ where
  -- The world once another request, the winner, has created the session and not yet advanced it.
  abbrev opened_by : Outcome R (SessionState R) → World R
  opened_by (done state v) = v
  opened_by (fail e v) = v

  abbrev pub wins : Invitation → ℕ → ℕ → ℕ → World R → World R
  wins invitation candidate_id id now w = opened_by (open_session invitation candidate_id id now w)

  -- The world that a created session leaves.
  abbrev opened : Invitation → ℕ → ℕ → ℕ → World R → World R
  opened invitation candidate_id id now w =
      let row = started_row invitation candidate_id id now in
      schedule_auto_submit (row.expires_at - now) (
        save (started_state invitation row now)
          (record w { session_row = some row; invitation_status = InvitationStatus.in_progress }))

  open_session-fresh :
      (invitation : Invitation) (candidate_id id now : ℕ) (w : World R)
      → (length invitation.assessment.modules == 0) ≡ false
      → w.session_row ≡ none
      → open_session invitation candidate_id id now w
        ≡ done
            (started_state invitation (started_row invitation candidate_id id now) now)
            (opened invitation candidate_id id now w)
  unfolding open_session
  open_session-fresh invitation candidate_id id now w filled fresh =
      rw
        (
          filled,
          insert_session-fresh (started_row invitation candidate_id id now) w.session_row w fresh,
        )
        refl

  open_session-empty :
      (invitation : Invitation) (candidate_id id now : ℕ) (w : World R)
      → (length invitation.assessment.modules == 0) ≡ true
      → open_session invitation candidate_id id now w ≡ fail no_modules w
  unfolding open_session
  open_session-empty invitation candidate_id id now w empty = rw empty refl

module _ {R : Type 0} ⦃num : Num R⦄ (remaining : Remaining) (clock : Clock)
    (select : ModuleRunState R → Option (Question R)) where
  open_session-taken :
      (invitation : Invitation) (candidate_id id now : ℕ) (row : SessionRow) (w : World R)
      → (length invitation.assessment.modules == 0) ≡ false
      → w.session_row ≡ some row
      → open_session invitation candidate_id id now w ≡ fail duplicate_session w
  unfolding open_session
  open_session-taken invitation candidate_id id now row w filled taken =
      rw
        (
          filled,
          insert_session-taken (started_row invitation candidate_id id now) row w.session_row w
              taken,
        )
        refl

  join-some :
      (e : Failure) (assessment : Assessment) (now : ℕ) (row : SessionRow)
      (existing : Option SessionRow) (w : World R)
      → existing ≡ some row
      → join remaining clock select e assessment now existing w
        ≡ resume remaining clock select assessment now row w
  join-some e assessment now row none w h = cc
  join-some e assessment now row (some other) w h =
      let same : other ≡ row = cc h in
      ap (λ r. resume remaining clock select assessment now r w) same

  create_or_join-resume :
      (invitation : Invitation) (candidate_id id now : ℕ) (row : SessionRow) (w : World R)
      → (length invitation.assessment.modules == 0) ≡ false
      → w.session_row ≡ some row
      → create_or_join remaining clock select invitation candidate_id id now w
        ≡ resume remaining clock select invitation.assessment now row w
  unfolding create_or_join create_session
  create_or_join-resume invitation candidate_id id now row w filled taken =
      let raced = open_session-taken invitation candidate_id id now row w filled taken in
      rw (raced, create_or_join)
        (join-some duplicate_session invitation.assessment now row w.session_row w taken)

  resume-live :
      (assessment : Assessment) (now : ℕ) (row : SessionRow) (state : SessionState R) (w : World R)
      → is_in_progress row.status ≡ true
      → w.store ≡ some state
      → resume remaining clock select assessment now row w
        ≡ advance_and_show remaining clock select state w
  unfolding resume
  resume-live assessment now row state w runs h = rw (runs, h) refl

  create_session-empty :
      (invitation : Invitation) (candidate_id id now : ℕ) (w : World R)
      → (length invitation.assessment.modules == 0) ≡ true
      → create_session remaining clock select invitation candidate_id id now w ≡ fail no_modules w
  unfolding create_session
  create_session-empty invitation candidate_id id now w empty =
      ap
        (λ (o : Outcome R (SessionState R)). elim o [
          | done state v ↦ advance_and_show remaining clock select state v
          | fail e v ↦ fail e v
        ])
        (open_session-empty invitation candidate_id id now w empty)

  create_session-fresh :
      (invitation : Invitation) (candidate_id id now : ℕ) (w : World R)
      → (length invitation.assessment.modules == 0) ≡ false
      → w.session_row ≡ none
      → create_session remaining clock select invitation candidate_id id now w
        ≡ advance_and_show remaining clock select
            (started_state invitation (started_row invitation candidate_id id now) now)
            (opened invitation candidate_id id now w)
  unfolding create_session
  create_session-fresh invitation candidate_id id now w filled fresh =
      ap
        (λ (o : Outcome R (SessionState R)). elim o [
          | done state v ↦ advance_and_show remaining clock select state v
          | fail e v ↦ fail e v
        ])
        (open_session-fresh invitation candidate_id id now w filled fresh)

  create_or_join-empty :
      (invitation : Invitation) (candidate_id id now : ℕ) (w : World R)
      → (length invitation.assessment.modules == 0) ≡ true
      → create_or_join remaining clock select invitation candidate_id id now w ≡ fail no_modules w
  unfolding create_or_join
  create_or_join-empty invitation candidate_id id now w empty =
      rw (create_or_join, create_session-empty invitation candidate_id id now w empty) refl

  create_or_join-wins :
      (invitation : Invitation) (candidate_id id id' now now' : ℕ) (w : World R)
      → w.session_row ≡ none
      → create_or_join remaining clock select invitation candidate_id id now
          (wins invitation candidate_id id' now' w)
        ≡ create_session remaining clock select invitation candidate_id id' now' w
  create_or_join-wins invitation candidate_id id id' now now' w fresh =
      let join = λ (o : Outcome R (SessionState R)).
        create_or_join remaining clock select invitation candidate_id id now (opened_by o) in
      elim (Bool-cases (length invitation.assessment.modules == 0)) [
        | inl empty ↦
            ap join (open_session-empty invitation candidate_id id' now' w empty)
            ∙ create_or_join-empty invitation candidate_id id now w empty
            ∙ sym (create_session-empty invitation candidate_id id' now' w empty)
        | inr filled ↦
            let row = started_row invitation candidate_id id' now' in
            let state : SessionState R = started_state invitation row now' in
            let v = opened invitation candidate_id id' now' w in
            let kept = schedule_auto_submit-rows (row.expires_at - now') (
              save state (record w {
                session_row = some row;
                invitation_status = InvitationStatus.in_progress;
              })) in
            ap join (open_session-fresh invitation candidate_id id' now' w filled fresh)
            ∙ create_or_join-resume invitation candidate_id id now row v filled (kept.0)
            ∙ resume-live invitation.assessment now row state v refl (kept.1)
            ∙ sym (create_session-fresh invitation candidate_id id' now' w filled fresh)
      ]

  enter-none :
      (invitation : Invitation) (candidate_id id now : ℕ) (meanwhile : World R → World R)
      (existing : Option SessionRow) (w : World R)
      → existing ≡ none
      → enter remaining clock select invitation candidate_id id now meanwhile existing w
        ≡ create_or_join remaining clock select invitation candidate_id id now (meanwhile w)
  enter-none invitation candidate_id id now meanwhile none w h = refl
  enter-none invitation candidate_id id now meanwhile (some row) w h = cc

  -- Two starts of one invitation race each other: both find no session, and one of them, the winner,
  -- inserts its row and saves its state before the other reaches its insert. The other, if it was
  -- admitted, then returns exactly what the winner's creation of the session returns, and leaves
  -- exactly the world that it leaves, with the winner's row and state. Without modules, it fails as the
  -- winner does.
  pub start-wins :
      (found : Option Invitation) (invitation : Invitation) (candidate_id id id' now now' : ℕ)
      (w : World R)
      → check_invitation candidate_id found w.invitation_status now ≡ ok invitation
      → w.session_row ≡ none
      → start remaining clock select candidate_id found id now
          (wins invitation candidate_id id' now')
          w
        ≡ create_session remaining clock select invitation candidate_id id' now' w
  unfolding start
  start-wins found invitation candidate_id id id' now now' w admitted fresh =
      rw (start, admitted)
        (enter-none invitation candidate_id id now (wins invitation candidate_id id' now')
            w.session_row w fresh
          ∙ create_or_join-wins invitation candidate_id id id' now now' w fresh)
