-- ===== src/Session/Finish/Recording.antt =====
-- What recording an answer writes.
use adaptive_hire_exam_platf.Common.{
  ℕ, suc, ◌≡◌, refl, sym, subst, none, [], ◌∷◌, ◌++◌, any, set, false, Bool-cases, inl, inr,
}
use adaptive_hire_exam_platf.Common.Equality.{◌==◌, nat_eq}
use adaptive_hire_exam_platf.Failures.{Failure, ok}
use adaptive_hire_exam_platf.Engine.Numbers.{Num}
use adaptive_hire_exam_platf.Engine.Types.{ModuleRunState}
use adaptive_hire_exam_platf.Engine.Questions.{Question}
use adaptive_hire_exam_platf.Engine.Run.{SubmittedAnswer, Recorded, AnswerOutcome, record_answer}
use adaptive_hire_exam_platf.Session.State.{ResponseRow, SessionState, ServedQuestion}
use adaptive_hire_exam_platf.Session.World.{World, pure, insert_response, apply_item_update}
use adaptive_hire_exam_platf.Session.World.Runs.{Run, returns, throws, after_Run, lift-Run, Run-imp}
use adaptive_hire_exam_platf.Session.Finish.{
  apply_answer, insert_recorded, counted, response_row, chosen_option, chosen_ordering,
}
use adaptive_hire_exam_platf.Session.Finish.Statistics.{
  OnlyStatistics, OnlyStatistics-same, apply_item_update-OnlyStatistics, record_answer-updated_id,
}

module _ {R : Type 0} where
  -- The row that an answer leaves.
  pub record IsRowOf (m : ModuleRunState R) (q : Question R) (answer : SubmittedAnswer)
      (sequence_number : ℕ) (outcome : AnswerOutcome R) (row : ResponseRow R) : Type 0 where
    pub of_module : row.module_id ≡ m.module_id
    pub of_question : row.question_id ≡ q.id
    pub choice : row.selected_option ≡ chosen_option answer
    pub order : row.selected_options ≡ chosen_ordering answer
    pub numbered : row.sequence_number ≡ sequence_number
    pub correct : row.is_correct ≡ outcome.is_correct
    pub estimate : row.ability_estimate_after ≡ outcome.ability_estimate_after
    pub difficulty : row.question_difficulty_at_serve ≡ outcome.question_difficulty_at_serve

  -- The session is the same one, with the same deadline, and as open or closed as it was.
  pub record SameSession (before after : SessionState R) : Type 0 where
    pub id : after.session_id ≡ before.session_id
    pub candidate : after.candidate_id ≡ before.candidate_id
    pub started : after.started_at ≡ before.started_at
    pub expiry : after.expires_at ≡ before.expires_at
    pub status : after.status ≡ before.status

  abbrev Same : World R → Failure → World R → Type 0
  Same w e v = v ≡ w

  abbrev Inserted : ResponseRow R → World R → Unit {0} → World R → Type 0
  Inserted row w u v =
      (any (λ (r : ResponseRow R). r.question_id == row.question_id) w.responses ≡ false)
      × (v ≡ record w { responses = w.responses ++ row ∷ [] })

  insert_response-Inserted :
      (row : ResponseRow R) (w : World R) → Run (Inserted row w) (Same w) (insert_response row w)
  unfolding insert_response
  insert_response-Inserted row w =
      elim (Bool-cases
        (any (λ (r : ResponseRow R). r.question_id == row.question_id) w.responses)) [
          | inl twice ↦ rw twice (throws refl)
          | inr new ↦ rw (new, insert_response) (returns (new, refl))
        ]

module _ {R : Type 0} ⦃num : Num R⦄ where
  -- One answer more, in the module, in the session, in the responses and in the question's statistics.
  pub record IsRecorded (state : SessionState R) (m : ModuleRunState R) (q : Question R)
      (answer : SubmittedAnswer) (w : World R) (after : SessionState R) (v : World R) : Type 0 where
    pub recorded : Recorded R
    pub accepted : record_answer m q answer (suc state.answered_total) ≡ ok recorded
    pub kept : after.modules ≡ set state.modules state.current_module_index recorded.state
    pub fresh : any (λ (r : ResponseRow R). r.question_id == q.id) w.responses ≡ false
    pub written :
        (row : ResponseRow R) × (v.responses ≡ w.responses ++ row ∷ [])
        × IsRowOf m q answer after.answered_total recorded.outcome row
    pub one_more : after.answered_total ≡ suc state.answered_total
    pub cleared : after.served ≡ none
    pub same_place : after.current_module_index ≡ state.current_module_index
    pub session : SameSession state after
    pub frame : v ≡ record w { responses = v.responses; bank = v.bank }
    pub bank : OnlyStatistics q.id w.bank v.bank

  -- Nothing but the statistics of this question.
  pub record Unwritten (q : Question R) (w : World R) (e : Failure) (v : World R) : Type 0 where
    pub frame : v ≡ record w { bank = v.bank }
    pub bank : OnlyStatistics q.id w.bank v.bank

  insert_recorded-IsRecorded :
      (state : SessionState R) (m : ModuleRunState R) (q : Question R) (answer : SubmittedAnswer)
      (served : ServedQuestion) (now : ℕ) (r : Recorded R) (w : World R)
      → record_answer m q answer (suc state.answered_total) ≡ ok r
      → Run
          (IsRecorded state m q answer w)
          (Unwritten q w)
          (insert_recorded state m q answer served now r w)
  unfolding response_row
  insert_recorded-IsRecorded state m q answer served now r w accepted =
      let row = response_row state m q answer served now r in
      let bank = apply_item_update r.item_update w.bank in
      let quiet : OnlyStatistics q.id w.bank bank =
        subst (λ id. OnlyStatistics id w.bank bank)
          (record_answer-updated_id m q answer (suc state.answered_total) r accepted)
          (apply_item_update-OnlyStatistics r.item_update w.bank) in
      after_Run (λ _. pure (counted state r.state))
        (Run-imp (λ u v p. p) (λ e v same. rw same (record { frame = refl; bank = quiet }))
          (insert_response-Inserted row (record w { bank = bank })))
        (λ _ v p. rw (p.1) (
          returns (record {
            recorded = r;
            accepted = accepted;
            kept = refl;
            fresh = p.0;
            written = (
              row,
              refl,
              record {
                of_module = refl;
                of_question = refl;
                choice = refl;
                order = refl;
                numbered = refl;
                correct = refl;
                estimate = refl;
                difficulty = refl;
              },
            );
            one_more = refl;
            cleared = refl;
            same_place = refl;
            session = record {
              id = refl;
              candidate = refl;
              started = refl;
              expiry = refl;
              status = refl;
            };
            frame = refl;
            bank = quiet;
          })))

  -- Recording an answer writes all of it or no answer at all. When it returns, the engine accepted
  -- the answer, and the current module's place holds the state that the engine made of it; the
  -- question had no response before, and exactly one row is added, for this module and question, with
  -- what the candidate chose, the engine's verdict and the next number of the session; the session
  -- counts one answer more, has nothing on screen, and keeps its current module, its deadline and its
  -- status; of the bank, at most the difficulty and the counts of this question are others; and
  -- nothing else is written. When it throws, nothing is written but those statistics.
  pub apply_answer-IsRecorded :
      (state : SessionState R) (m : ModuleRunState R) (q : Question R) (answer : SubmittedAnswer)
      (served : ServedQuestion) (now : ℕ) (w : World R)
      → Run
          (IsRecorded state m q answer w)
          (Unwritten q w)
          (apply_answer state m q answer served now w)
  unfolding apply_answer
  apply_answer-IsRecorded state m q answer served now w =
      let result = record_answer m q answer (suc state.answered_total) in
      after_Run (insert_recorded state m q answer served now)
        (lift-Run {P = λ r v. (v ≡ w) × (result ≡ ok r)} result w (λ r e. (refl, e))
          (λ e h. record { frame = refl; bank = OnlyStatistics-same q.id w.bank }))
        (λ r v p.
          subst
            (λ z.
              Run (IsRecorded state m q answer w) (Unwritten q w)
                (insert_recorded state m q answer served now r z))
            (sym (p.0)) (insert_recorded-IsRecorded state m q answer served now r w (p.1)))
