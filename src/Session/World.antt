-- ===== src/Session/World.antt =====
-- What one candidate's session can see and change outside its own memory: the Redis entry of the
-- session and of its module clocks, its database rows, the question bank, and the two queues.
-- Time is an argument; a queue that is down swallows what is sent to it, as the source does.
pub mod Runs
use adaptive_hire_exam_platf.Common.{
  ℕ, suc, Option, none, some, List, [], ◌∷◌, ◌++◌, map, find, any, Bool, true, if◌then◌else◌, max,
}
use adaptive_hire_exam_platf.Common.Equality.{◌==◌, nat_eq}
use adaptive_hire_exam_platf.Failures.{
  Failure, Result, ok, failed, question_gone, duplicate_response,
}
use adaptive_hire_exam_platf.Engine.Questions.{
  Question, McqQuestionDetails, PersonalityQuestionDetails,
}
use adaptive_hire_exam_platf.Engine.Run.{ItemUpdate, mcq_update, personality_update}
use adaptive_hire_exam_platf.Session.State.{
  SessionState, SessionRow, InvitationStatus, ResponseRow, ModuleResultRow,
}

pub record World (R : Type 0) : Type 0 where
  pub store : Option (SessionState R)
  -- The module clocks that run, with their seconds.
  pub clocks : List (ℕ × ℕ)
  pub session_row : Option SessionRow
  pub invitation_status : InvitationStatus
  pub responses : List (ResponseRow R)
  pub module_results : List (ModuleResultRow R)
  pub bank : List (Question R)
  pub queue_up : Bool
  -- The delay of the auto-submit job, if one is queued, and whether a report is.
  pub auto_submit : Option ℕ
  pub report_queued : Bool

-- An exception keeps what has been written before it.
pub data Outcome {ℓ} (R : Type 0) (A : Type ℓ) : Type ℓ where
  done : A → World R → Outcome R A
  fail : Failure → World R → Outcome R A

abbrev pub M {ℓ} : Type 0 → Type ℓ → Type ℓ
M R A = World R → Outcome R A

infixl 5 ◌>>=◌ ◌>>◌
abbrev pub ◌>>=◌ {ℓ κ} : {R : Type 0} {A : Type ℓ} {B : Type κ} → M R A → (A → M R B) → M R B
◌>>=◌ m f w = elim (m w) [ done a w' ↦ f a w' | fail e w' ↦ fail e w' ]

abbrev pub ◌>>◌ {ℓ} : {R : Type 0} {B : Type ℓ} → M R (Unit {0}) → M R B → M R B
m >> k = m >>= λ _. k

abbrev pub pure {ℓ} : {R : Type 0} {A : Type ℓ} → A → M R A
pure a w = done a w

abbrev pub throw {ℓ} : {R : Type 0} {A : Type ℓ} → Failure → M R A
throw e w = fail e w

abbrev pub lift {ℓ} : {R : Type 0} {A : Type ℓ} → Result A → M R A
lift (ok a) w = done a w
lift (failed e) w = fail e w

abbrev pub modify : {R : Type 0} → (World R → World R) → M R (Unit {0})
modify f w = done tt (f w)

abbrev pub remove_clock : ℕ → List (ℕ × ℕ) → List (ℕ × ℕ)
remove_clock module_id [] = []
remove_clock module_id ((id, seconds) ∷ clocks) =
    if id == module_id
    then remove_clock module_id clocks
    else (id, seconds) ∷ remove_clock module_id clocks

abbrev pub keep_job : Option ℕ → ℕ → Option ℕ
keep_job none delay = some delay
keep_job (some queued) delay = some queued

module _ {R : Type 0} where
  -- `this.store.save(state)`
  abbrev pub save : SessionState R → World R → World R
  save state w = record w { store = some state }

  abbrev pub start_module_clock : ℕ → ℕ → World R → World R
  start_module_clock module_id seconds w = record w {
    clocks = (module_id, max 1 seconds) ∷ remove_clock module_id w.clocks;
  }

  abbrev pub clear_module_clock : ℕ → World R → World R
  clear_module_clock module_id w = record w { clocks = remove_clock module_id w.clocks }

  -- BullMQ keys a job by its id: adding one that is queued keeps the old one.
  abbrev pub schedule_auto_submit : ℕ → World R → World R
  schedule_auto_submit delay_ms w =
      if w.queue_up then record w { auto_submit = keep_job w.auto_submit delay_ms } else w

  abbrev pub remove_auto_submit : World R → World R
  remove_auto_submit w = if w.queue_up then record w { auto_submit = none } else w

  abbrev pub enqueue_report : World R → World R
  enqueue_report w = if w.queue_up then record w { report_queued = true } else w

  unfoldable pub load_served_question : ℕ → M R (Question R)
  load_served_question question_id w =
      elim (find (λ (q : Question R). q.id == question_id) w.bank) [
        | some q ↦ done q w
        | none ↦ fail (question_gone question_id) w
      ]

  abbrev pub set_difficulty :
      R → Bool → Option (McqQuestionDetails R) → Option (McqQuestionDetails R)
  set_difficulty difficulty is_correct none = none
  set_difficulty difficulty is_correct (some details) = some (record details {
    difficulty_score = difficulty;
    times_used = suc details.times_used;
    times_correct = if is_correct then suc details.times_correct else details.times_correct;
  })

  abbrev pub use_personality :
      Option (PersonalityQuestionDetails R) → Option (PersonalityQuestionDetails R)
  use_personality none = none
  use_personality (some details) = some (record details { times_used = suc details.times_used })

  -- The `UPDATE` of one question's details.
  unfoldable pub apply_item_update : ItemUpdate R → List (Question R) → List (Question R)
  apply_item_update (mcq_update question_id difficulty is_correct) bank =
      map
        (λ (q : Question R).
          if q.id == question_id
          then record q { mcq_details = set_difficulty difficulty is_correct q.mcq_details }
          else q)
        bank
  apply_item_update (personality_update question_id) bank =
      map
        (λ (q : Question R).
          if q.id == question_id
          then record q { personality_details = use_personality q.personality_details }
          else q)
        bank

  -- `(sessionId, questionId)` is unique in `responses`.
  unfoldable pub insert_response : ResponseRow R → M R (Unit {0})
  insert_response row w =
      if any (λ (r : ResponseRow R). r.question_id == row.question_id) w.responses
      then fail duplicate_response w
      else done tt (record w { responses = w.responses ++ row ∷ [] })

  -- `upsert` on `(sessionId, moduleId)`.
  unfoldable pub upsert_result :
      ModuleResultRow R → List (ModuleResultRow R) → List (ModuleResultRow R)
  upsert_result row [] = row ∷ []
  upsert_result row (r ∷ rows) =
      if r.module_id == row.module_id then row ∷ rows else r ∷ upsert_result row rows
