-- ===== src/Session/Durable.antt =====
-- How the rows of a session and its live state in Redis hang together, whatever happens between.
pub mod Rebuilt
pub mod Passes
pub mod Rebuilding
pub mod Beginning
pub mod Entries
pub mod Entering
pub mod History
use adaptive_hire_exam_platf.Common.{
  ℕ, suc, ◌+◌, ◌≡◌, ◌≢◌, refl, sym, ap, ◌∙◌, Option, none, some, List, [], ◌∷◌, ◌++◌, Bool, true,
  false, not, length, length-append, arith, Bool-cases, inl, inr, subst,
}
use adaptive_hire_exam_platf.Failures.{Failure}
use adaptive_hire_exam_platf.Engine.Numbers.{Num}
use adaptive_hire_exam_platf.Engine.Types.{ModuleRunState}
use adaptive_hire_exam_platf.Engine.Questions.{Question}
use adaptive_hire_exam_platf.Engine.Run.{SubmittedAnswer}
use adaptive_hire_exam_platf.Session.State.{
  SessionState, ServedQuestion, SessionRow, SessionStatus, ResponseRow, is_finished, finished,
}
use adaptive_hire_exam_platf.Session.World.{World, M, save}
use adaptive_hire_exam_platf.Session.World.Runs.{Run, Run-imp}
use adaptive_hire_exam_platf.Session.Finish.{
  apply_answer, finalize, finalized, persist_all, submit_row, close_rows,
}
use adaptive_hire_exam_platf.Session.Finish.Closing.{
  close_rows-frame, persist_all-row, persist_all-responses,
}
use adaptive_hire_exam_platf.Session.Finish.Recording.{
  IsRecorded, Unwritten, SameSession, apply_answer-IsRecorded,
}
use adaptive_hire_exam_platf.Session.Runtime.{is_in_progress}
use adaptive_hire_exam_platf.Session.Advance.Shown.{Held}

pub Held-some : {A : Type 0} (P : A → Type 0) {a : Option A} → Held P a → a ≢ none
Held-some P {a = none} h e = h
Held-some P {a = some x} h e = cc

module _ {R : Type 0} where
  -- The rows are numbered without a gap, from the number after `n`.
  abbrev pub NumberedFrom : ℕ → List (ResponseRow R) → Type 0
  NumberedFrom n [] = Unit {0}
  NumberedFrom n (row ∷ rows) = (row.sequence_number ≡ suc n) × NumberedFrom (suc n) rows

  -- The live state is that of the session's row.
  pub record Agrees (state : SessionState R) (row : SessionRow) : Type 0 where
    pub id : state.session_id ≡ row.id
    pub candidate : state.candidate_id ≡ row.candidate_id
    pub started : state.started_at ≡ row.started_at
    pub expiry : state.expires_at ≡ row.expires_at
    pub open_while : is_finished state.status ≡ not (is_in_progress row.status)

  -- A live state that agrees with the rows.
  pub record IsLive (state : SessionState R) (responses : List (ResponseRow R))
      (row : Option SessionRow) : Type 0 where
    pub count : state.answered_total ≡ length responses
    pub matches : Held (Agrees state) row

  abbrev pub IsLiveIn : SessionState R → World R → Type 0
  IsLiveIn state w = IsLive state w.responses w.session_row × NumberedFrom 0 w.responses

  abbrev pub StoreAgrees :
      Option (SessionState R) → List (ResponseRow R) → Option SessionRow → Type 0
  StoreAgrees none responses row = Unit {0}
  StoreAgrees (some state) responses row = IsLive state responses row

  -- The responses are numbered without a gap; before the session has a row there is nothing of it;
  -- and what Redis holds agrees with the rows.
  pub record Durable (w : World R) : Type 0 where
    pub numbered : NumberedFrom 0 w.responses
    pub unstarted : w.session_row ≡ none → (w.store ≡ none) × (w.responses ≡ [])
    pub stored : StoreAgrees w.store w.responses w.session_row

  NumberedFrom-append :
      (n : ℕ) (rows : List (ResponseRow R)) (row : ResponseRow R)
      → NumberedFrom n rows
      → row.sequence_number ≡ suc (n + length rows)
      → NumberedFrom n (rows ++ row ∷ [])
  NumberedFrom-append n [] row h k = (omega (arith, k), tt)
  NumberedFrom-append n (r ∷ rows) row (first, h) k =
      (first, NumberedFrom-append (suc n) rows row h (omega (arith, k)))

  -- Saving a live state.
  pub save-Durable :
      (state : SessionState R) (w : World R) → IsLiveIn state w → Durable (save state w)
  save-Durable state w (live, numbered) = record {
    numbered = numbered;
    unstarted = λ gone. absurd (Held-some (Agrees state) live.matches gone);
    stored = live;
  }

  -- What leaves the store and the two tables alone.
  pub Durable-same :
      (w v : World R)
      → v.responses ≡ w.responses
      → v.session_row ≡ w.session_row
      → v.store ≡ w.store
      → Durable w
      → Durable v
  Durable-same w v r s t d = record {
    numbered = rw r d.numbered;
    unstarted = rw (r, s, t) d.unstarted;
    stored = rw (r, s, t) d.stored;
  }

  Agrees-after :
      (before after : SessionState R) (row : SessionRow)
      → SameSession before after
      → Agrees before row
      → Agrees after row
  Agrees-after before after row same a = record {
    id = same.id ∙ a.id;
    candidate = same.candidate ∙ a.candidate;
    started = same.started ∙ a.started;
    expiry = same.expiry ∙ a.expiry;
    open_while = ap is_finished same.status ∙ a.open_while;
  }

  pub Held-after :
      (before after : SessionState R) (row : Option SessionRow)
      → SameSession before after
      → Held (Agrees before) row
      → Held (Agrees after) row
  Held-after before after none same h = h
  Held-after before after (some row) same h = Agrees-after before after row same h

module _ {R : Type 0} ⦃num : Num R⦄ where
  Held-submitted :
      (state : SessionState R) (status : SessionStatus) (now : ℕ) (row : Option SessionRow)
      → is_in_progress status ≡ false
      → Held (Agrees state) row
      → Held (Agrees (finalized state now)) (submit_row status now row)
  Held-submitted state status now none over h = h
  Held-submitted state status now (some row) over h = record {
    id = h.id;
    candidate = h.candidate;
    started = h.started;
    expiry = h.expiry;
    open_while = rw over refl;
  }

  -- Recording an answer keeps the state in hand live; the store is behind until it is saved.
  pub apply_answer-IsLiveIn :
      (state : SessionState R) (m : ModuleRunState R) (q : Question R) (answer : SubmittedAnswer)
      (served : ServedQuestion) (now : ℕ) (w : World R)
      → IsLiveIn state w
      → Durable w
      → Run IsLiveIn (λ e v. Durable v) (apply_answer state m q answer served now w)
  apply_answer-IsLiveIn state m q answer served now w (live, numbered) d =
      Run-imp recorded unwritten (apply_answer-IsRecorded state m q answer served now w)
    where
      recorded :
          (after : SessionState R) (v : World R)
          → IsRecorded state m q answer w after v
          → IsLiveIn after v
      recorded after v r =
          let (row, grown, is_row) = r.written in
          let rows : v.session_row ≡ w.session_row = ap (λ (x : World R). x.session_row) r.frame in
          (
            record {
              count =
                  rw grown
                    (omega (arith, r.one_more, live.count, length-append w.responses (row ∷ [])));
              matches = rw rows (Held-after state after w.session_row r.session live.matches);
            },
            rw grown (
                NumberedFrom-append 0 w.responses row numbered
                  (omega (arith, is_row.numbered, r.one_more, live.count))),
          )

      unwritten : (e : Failure) (v : World R) → Unwritten q w e v → Durable v
      unwritten e v u =
          let same = u.frame in
          Durable-same w v (ap (λ (x : World R). x.responses) same)
            (ap (λ (x : World R). x.session_row) same) (ap (λ (x : World R). x.store) same) d

  -- Closing a live session.
  pub finalize-IsLiveIn :
      (state : SessionState R) (status : SessionStatus) (now : ℕ) (w : World R)
      → is_in_progress status ≡ false
      → IsLiveIn state w
      → Durable w
      → let (state', w') = finalize state status now w in IsLiveIn state' w' × Durable w'
  unfolding finalize
  finalize-IsLiveIn state status now w over (live, numbered) d =
      elim (Bool-cases (is_finished state.status)) [
        | inl ended ↦ rw ended ((live, numbered), d)
        | inr runs ↦ rw runs (
            let settled = finalized state now in
            let saved = save settled (persist_all settled.modules w) in
            let v = close_rows status now saved in
            let frame = close_rows-frame status now saved in
            let rows : v.responses ≡ w.responses =
              frame.4 ∙ persist_all-responses settled.modules w in
            let row : v.session_row ≡ submit_row status now w.session_row =
              frame.2 ∙ ap (submit_row status now) (persist_all-row settled.modules w) in
            let after : IsLive settled v.responses v.session_row = record {
              count = live.count ∙ sym (ap length rows);
              matches = rw row (Held-submitted state status now w.session_row over live.matches);
            } in
            let counted : NumberedFrom 0 v.responses = rw rows numbered in
            (
              (after, counted),
              Durable-same (save settled v) v refl refl frame.1
                  (save-Durable settled v (after, counted)),
            ))
      ]
