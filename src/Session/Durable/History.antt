-- ===== src/Session/Durable/History.antt =====
-- Every history of a session keeps its rows and its live state together.
use adaptive_hire_exam_platf.Common.{ℕ, ◌≡◌, refl, Option, none, [], List, Bool}
use adaptive_hire_exam_platf.Engine.Numbers.{Num}
use adaptive_hire_exam_platf.Engine.Types.{ModuleRunState}
use adaptive_hire_exam_platf.Engine.Questions.{Question}
use adaptive_hire_exam_platf.Session.State.{InvitationStatus}
use adaptive_hire_exam_platf.Session.World.{World, Outcome, done, fail}
use adaptive_hire_exam_platf.Session.World.Runs.{Run, returns, throws}
use adaptive_hire_exam_platf.Session.Assessment.{Assessment, Invitation}
use adaptive_hire_exam_platf.Session.Rebuild.{rehydrate}
use adaptive_hire_exam_platf.Session.Advance.{Clock, Remaining}
use adaptive_hire_exam_platf.Session.Runtime.{
  SubmitAnswerDto, current_step, start_current_module, submit_answer, auto_submit_session,
}
use adaptive_hire_exam_platf.Session.Start.{start, create_or_join}
use adaptive_hire_exam_platf.Session.Durable.{Durable, Durable-same}
use adaptive_hire_exam_platf.Session.Durable.Passes.{Done, Kept}
use adaptive_hire_exam_platf.Session.Durable.Entries.{
  current_step-Durable, start_current_module-Durable, submit_answer-Durable,
  auto_submit_session-Durable,
}
use adaptive_hire_exam_platf.Session.Durable.Entering.{start-Durable, create_or_join-Durable}

-- The world that a call leaves, whether it returns or throws.
abbrev pub left_by {ℓ} : {R : Type 0} {A : Type ℓ} → Outcome R A → World R
left_by (done a w) = w
left_by (fail e w) = w

-- What a call may see of its surroundings: the clocks, the selector, the assessment and the time of
-- a rebuild.
pub record Setting (R : Type 0) : Type 0 where
  pub remaining : Remaining
  pub clock : Clock
  pub select : ModuleRunState R → Option (Question R)
  pub assessment : Assessment
  pub rebuilt_at : ℕ

module _ {R : Type 0} ⦃num : Num R⦄ where
  -- What can happen to one candidate's session: a call of the candidate or of the worker, which runs
  -- to its return or its exception before the next begins, with any surroundings, and whose writes to
  -- the database and to Redis all succeed; the second half of a start that other requests overtook;
  -- Redis losing its entries between calls; the bank, the invitation and the queues changing.
  pub data Step : World R → World R → Type 0 where
    starts :
        (s : Setting R) (candidate_id : ℕ) (found : Option Invitation) (id now : ℕ) (w : World R)
        → Step w (left_by (start s.remaining s.clock s.select candidate_id found id now (λ v. v) w))
    creates :
        (s : Setting R) (invitation : Invitation) (candidate_id id now : ℕ) (w : World R)
        → Step w
            (left_by (create_or_join s.remaining s.clock s.select invitation candidate_id id now w))
    looks :
        (s : Setting R) (candidate_id : ℕ) (w : World R)
        → Step w (
            left_by (
              current_step s.remaining s.clock s.select
                (rehydrate s.assessment s.rebuilt_at)
                candidate_id
                w))
    begins :
        (s : Setting R) (candidate_id now : ℕ) (w : World R)
        → Step w (
            left_by (
              start_current_module s.remaining s.clock s.select
                (rehydrate s.assessment s.rebuilt_at)
                candidate_id
                now
                w))
    submits :
        (s : Setting R) (candidate_id : ℕ) (dto : SubmitAnswerDto) (now : ℕ) (w : World R)
        → Step w (
            left_by (
              submit_answer s.remaining s.clock s.select
                (rehydrate s.assessment s.rebuilt_at)
                candidate_id
                dto
                now
                w))
    falls_due :
        (s : Setting R) (w : World R)
        → Step w (
            left_by (
              auto_submit_session s.remaining s.clock s.select
                (rehydrate s.assessment s.rebuilt_at)
                w))
    evicted : (w : World R) → Step w (record w { store = none; clocks = [] })
    changed :
        (bank : List (Question R)) (status : InvitationStatus) (up : Bool) (w : World R)
        → Step w (record w { bank = bank; invitation_status = status; queue_up = up })

  pub data Reach (w : World R) : World R → Type 0 where
    here : Reach w w
    next : {u v : World R} → Reach w u → Step u v → Reach w v

  -- Nothing has been stored for the invitation.
  pub record IsNew (w : World R) : Type 0 where
    pub no_row : w.session_row ≡ none
    pub no_state : w.store ≡ none
    pub no_responses : w.responses ≡ []

  IsNew-Durable : (w : World R) → IsNew w → Durable w
  IsNew-Durable w n = record {
    numbered = rw (n.no_responses) tt;
    unstarted = λ h. (n.no_state, n.no_responses);
    stored = rw (n.no_state) tt;
  }

  left_by-Durable : {A : Type 0} {o : Outcome R A} → Run Done Kept o → Durable (left_by o)
  left_by-Durable (returns d) = d
  left_by-Durable (throws d) = d

  pub Step-Durable : {w v : World R} → Step w v → Durable w → Durable v
  Step-Durable (starts s c found id now w) d =
      left_by-Durable (start-Durable s.remaining s.clock s.select c found id now (λ v. v) w d d)
  Step-Durable (creates s invitation c id now w) d =
      left_by-Durable (create_or_join-Durable s.remaining s.clock s.select invitation c id now w d)
  Step-Durable (looks s c w) d =
      left_by-Durable
        (current_step-Durable s.remaining s.clock s.select s.assessment s.rebuilt_at c w d)
  Step-Durable (begins s c now w) d = left_by-Durable (
      start_current_module-Durable s.remaining s.clock s.select s.assessment s.rebuilt_at c now w d)
  Step-Durable (submits s c dto now w) d =
      left_by-Durable
        (submit_answer-Durable s.remaining s.clock s.select s.assessment s.rebuilt_at c dto now w d)
  Step-Durable (falls_due s w) d =
      left_by-Durable
        (auto_submit_session-Durable s.remaining s.clock s.select s.assessment s.rebuilt_at w d)
  Step-Durable (evicted w) d = record {
    numbered = d.numbered;
    unstarted = λ h. (refl, (d.unstarted h).1);
    stored = tt;
  }
  Step-Durable (changed bank status up w) d =
      Durable-same w (record w { bank = bank; invitation_status = status; queue_up = up }) refl refl
        refl d

  -- In every history of a session from its invitation on, in which the calls of the candidate and of
  -- the worker follow each other in any order, each of them whole, whether it returns or throws one of
  -- the service's exceptions, and with every write that it makes succeeding; in which a start alone may
  -- be overtaken between its look for a session and its insert; and in which Redis may lose its
  -- entries between two calls: the responses are numbered 1, 2, 3 and so on without a gap; nothing is
  -- stored before the session's row is; and the state in Redis, where there is one, is that of the row
  -- (the same candidate, start, deadline and openness) and has counted exactly the responses.
  pub Reach-Durable : {w v : World R} → IsNew w → Reach w v → Durable v
  Reach-Durable {w} n here = IsNew-Durable w n
  Reach-Durable n (next r step) = Step-Durable step (Reach-Durable n r)
