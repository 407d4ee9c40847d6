-- ===== src/Session/Durable/Rebuilding.antt =====
-- `rehydrate` of backend/src/sessions/sessions.service.ts, against the session's row and responses.
use adaptive_hire_exam_platf.Common.{
  ℕ, suc, ◌≡◌, refl, sym, ap, ◌∙◌, some, List, [], ◌∷◌, not, length, Option-cases, inl, inr, arith,
}
use adaptive_hire_exam_platf.Engine.Numbers.{Num}
use adaptive_hire_exam_platf.Engine.Types.{ModuleRunState, ModuleRunStatus}
use adaptive_hire_exam_platf.Session.State.{SessionRow, SessionStatus, ResponseRow, is_finished}
use adaptive_hire_exam_platf.Session.World.{World}
use adaptive_hire_exam_platf.Session.World.Runs.{Run, returns, throws}
use adaptive_hire_exam_platf.Session.Assessment.{Assessment, fresh_modules}
use adaptive_hire_exam_platf.Session.Rebuild.{
  insert_by_sequence, by_sequence, start_clocks, with_clock, run_status, rebuilt, replay_all,
  complete_finished, rehydrate,
}
use adaptive_hire_exam_platf.Session.Runtime.{is_in_progress}
use adaptive_hire_exam_platf.Session.Durable.{IsLive, IsLiveIn, Durable, NumberedFrom, save-Durable}

module _ {R : Type 0} where
  length-insert_by_sequence :
      (row : ResponseRow R) (rows : List (ResponseRow R))
      → length (insert_by_sequence row rows) ≡ suc (length rows)
  unfolding insert_by_sequence
  length-insert_by_sequence row [] = refl
  length-insert_by_sequence row (r ∷ rows) = ground (arith, length-insert_by_sequence row rows)

  length-by_sequence : (rows : List (ResponseRow R)) → length (by_sequence rows) ≡ length rows
  unfolding by_sequence
  length-by_sequence [] = refl
  length-by_sequence (row ∷ rows) =
      length-insert_by_sequence row (by_sequence rows) ∙ ap suc (length-by_sequence rows)

  with_clock-rows :
      (status : ModuleRunStatus) (m : ModuleRunState R) (w : World R)
      → ((with_clock status m w).responses ≡ w.responses)
        × ((with_clock status m w).session_row ≡ w.session_row)
  with_clock-rows ModuleRunStatus.pending m w = (refl, refl)
  with_clock-rows ModuleRunStatus.in_progress m w = (refl, refl)
  with_clock-rows ModuleRunStatus.completed m w = (refl, refl)

  start_clocks-rows :
      (ms : List (ModuleRunState R)) (w : World R)
      → ((start_clocks ms w).responses ≡ w.responses)
        × ((start_clocks ms w).session_row ≡ w.session_row)
  unfolding start_clocks
  start_clocks-rows [] w = (refl, refl)
  start_clocks-rows (m ∷ ms) w =
      let one = with_clock-rows m.status m w in
      let rest = start_clocks-rows ms (with_clock m.status m w) in (rest.0 ∙ one.0, rest.1 ∙ one.1)

run_status-open :
    (status : SessionStatus) → is_finished (run_status status) ≡ not (is_in_progress status)
run_status-open SessionStatus.in_progress = refl
run_status-open SessionStatus.completed = refl
run_status-open SessionStatus.auto_submitted = refl
run_status-open SessionStatus.abandoned = refl

module _ {R : Type 0} ⦃num : Num R⦄ where
  -- Rebuilding a lost session from its row gives a live state that is saved: the same candidate,
  -- start and deadline as the row, as open as the row, and as many answers as there are responses.
  -- When it fails, it changes nothing.
  pub rehydrate-IsLiveIn :
      (assessment : Assessment) (now : ℕ) (row : SessionRow) (w : World R)
      → w.session_row ≡ some row
      → Durable w
      → Run
          (λ state v. IsLiveIn state v × Durable v)
          (λ e v. v ≡ w)
          (rehydrate assessment now row w)
  unfolding rehydrate rebuilt
  rehydrate-IsLiveIn assessment now row w here d =
      elim (Option-cases (replay_all w.bank (by_sequence w.responses) (fresh_modules assessment))) [
        | inl broken ↦ rw (broken, rehydrate) (throws refl)
        | inr (replayed, ok) ↦
            let modules = complete_finished w.module_results replayed in
            let state = rebuilt assessment row (by_sequence w.responses) modules now in
            let same = start_clocks-rows modules w in
            let live : IsLive state (start_clocks modules w).responses
                (start_clocks modules w).session_row =
              record {
                count = length-by_sequence w.responses ∙ sym (ap length same.0);
                matches = rw (same.1 ∙ here) (record {
                  id = refl;
                  candidate = refl;
                  started = refl;
                  expiry = refl;
                  open_while = run_status-open row.status;
                });
              } in
            let numbered : NumberedFrom 0 (start_clocks modules w).responses =
              rw (same.0) d.numbered in
            rw (ok, rehydrate)
              (returns
                ((live, numbered), save-Durable state (start_clocks modules w) (live, numbered)))
      ]
