-- ===== src/Session/Finish/Closing.antt =====
-- What closing a session leaves behind.
use adaptive_hire_exam_platf.Common.{
  ℕ, ◌≡◌, ◌≢◌, refl, sym, Option, none, some, List, [], ◌∷◌, map, find, ap, All, arith, Bool-cases,
  inl, inr, ◌∙◌,
}
use adaptive_hire_exam_platf.Common.Equality.{◌==◌, nat_eq}
use adaptive_hire_exam_platf.Engine.Numbers.{Num}
use adaptive_hire_exam_platf.Engine.Types.{ModuleRunState, ModuleRunStatus, time_expired}
use adaptive_hire_exam_platf.Session.State.{
  SessionState, SessionStatus, InvitationStatus, ModuleResultRow, RunStatus, finished, is_finished,
}
use adaptive_hire_exam_platf.Session.World.{World, save, upsert_result}
use adaptive_hire_exam_platf.Session.Finish.{
  expire_by, submit_row, result_row, persist_module_result, persist_all, close_rows, finalized,
  finalize, expire_module, or_reason, close_module,
}

module _ {R : Type 0} where
  abbrev row_of : ℕ → List (ModuleResultRow R) → Option (ModuleResultRow R)
  row_of module_id = find (λ row. row.module_id == module_id)

  abbrev pub DistinctModules : List (ModuleRunState R) → Type 0
  DistinctModules [] = Unit {0}
  DistinctModules (m ∷ ms) =
      All (λ (x : ModuleRunState R). x.module_id ≢ m.module_id) ms × DistinctModules ms

  row_of-upsert_same :
      (row : ModuleResultRow R) (rows : List (ModuleResultRow R))
      → row_of row.module_id (upsert_result row rows) ≡ some row
  unfolding upsert_result
  row_of-upsert_same row [] = ground (arith, nat_eq.same_iff row.module_id row.module_id)
  row_of-upsert_same row (r ∷ rows) = ground (
    arith,
    row_of-upsert_same row rows,
    nat_eq.same_iff row.module_id row.module_id,
    nat_eq.same_iff r.module_id row.module_id,
  )

  row_of-upsert_other :
      (module_id : ℕ) (row : ModuleResultRow R) (rows : List (ModuleResultRow R))
      → row.module_id ≢ module_id
      → row_of module_id (upsert_result row rows) ≡ row_of module_id rows
  unfolding upsert_result
  row_of-upsert_other module_id row [] h = ground (arith, nat_eq.same_iff row.module_id module_id)
  row_of-upsert_other module_id row (r ∷ rows) h = ground (
    arith,
    row_of-upsert_other module_id row rows h,
    nat_eq.same_iff r.module_id module_id,
    nat_eq.same_iff row.module_id module_id,
    nat_eq.same_iff r.module_id row.module_id,
  )

module _ {R : Type 0} ⦃num : Num R⦄ where
  row_of-persist_other :
      (module_id : ℕ) (ms : List (ModuleRunState R)) (w : World R)
      → All (λ (x : ModuleRunState R). x.module_id ≢ module_id) ms
      → row_of module_id (persist_all ms w).module_results ≡ row_of module_id w.module_results
  unfolding persist_all persist_module_result result_row
  row_of-persist_other module_id [] w h = refl
  row_of-persist_other module_id (m ∷ ms) w (other, others) =
      row_of-persist_other module_id ms (persist_module_result m w) others
      ∙ row_of-upsert_other module_id (result_row m) w.module_results other

  persist_all-rows :
      (ms : List (ModuleRunState R)) (w : World R)
      → DistinctModules ms
      → All
          (λ (m : ModuleRunState R).
            row_of m.module_id (persist_all ms w).module_results ≡ some (result_row m))
          ms
  unfolding persist_all persist_module_result result_row
  persist_all-rows [] w d = tt
  persist_all-rows (m ∷ ms) w (other, d) = (
    row_of-persist_other m.module_id ms (persist_module_result m w) other
        ∙ row_of-upsert_same (result_row m) w.module_results,
    persist_all-rows ms (persist_module_result m w) d,
  )

module _ {R : Type 0} where
  -- A module that was running is completed, at this time, with the reason it had or "time expired";
  -- any other is as it was.
  abbrev pub Settled : ℕ → ModuleRunStatus → ModuleRunState R → ModuleRunState R → Type 0
  Settled now ModuleRunStatus.in_progress before after = after ≡ record before {
    status = ModuleRunStatus.completed;
    completed_at = some now;
    stop_reason = some (or_reason before.stop_reason time_expired);
  }
  Settled now _ before after = after ≡ before

  abbrev pub AllSettled : ℕ → List (ModuleRunState R) → List (ModuleRunState R) → Type 0
  AllSettled now [] [] = Unit {0}
  AllSettled now [] (y ∷ ys) = ⊥
  AllSettled now (x ∷ xs) [] = ⊥
  AllSettled now (x ∷ xs) (y ∷ ys) = Settled now x.status x y × AllSettled now xs ys

  expire_module-Settled :
      (now : ℕ) (m : ModuleRunState R) → Settled now m.status m (expire_module now m)
  unfolding expire_module close_module
  expire_module-Settled now m = by_status m.status
    where
      by_status : (status : ModuleRunStatus) → Settled now status m (expire_by status now m)
      by_status ModuleRunStatus.pending = refl
      by_status ModuleRunStatus.in_progress = refl
      by_status ModuleRunStatus.completed = refl

  map-AllSettled :
      (now : ℕ) (ms : List (ModuleRunState R)) → AllSettled now ms (map (expire_module now) ms)
  map-AllSettled now [] = tt
  map-AllSettled now (m ∷ ms) = (expire_module-Settled now m, map-AllSettled now ms)

  expire_module-id :
      (now : ℕ) (m : ModuleRunState R) → (expire_module now m).module_id ≡ m.module_id
  unfolding expire_module close_module
  expire_module-id now m = by_status m.status
    where
      by_status : (status : ModuleRunStatus) → (expire_by status now m).module_id ≡ m.module_id
      by_status ModuleRunStatus.pending = refl
      by_status ModuleRunStatus.in_progress = refl
      by_status ModuleRunStatus.completed = refl

  map-other :
      (now module_id : ℕ) (ms : List (ModuleRunState R))
      → All (λ (x : ModuleRunState R). x.module_id ≢ module_id) ms
      → All (λ (x : ModuleRunState R). x.module_id ≢ module_id) (map (expire_module now) ms)
  map-other now module_id [] h = tt
  map-other now module_id (m ∷ ms) (other, h) =
      (λ same. other (sym (expire_module-id now m) ∙ same), map-other now module_id ms h)

  map-DistinctModules :
      (now : ℕ) (ms : List (ModuleRunState R))
      → DistinctModules ms
      → DistinctModules (map (expire_module now) ms)
  map-DistinctModules now [] d = tt
  map-DistinctModules now (m ∷ ms) (other, d) = (
    rw (expire_module-id now m) (map-other now m.module_id ms other),
    map-DistinctModules now ms d,
  )

module _ {R : Type 0} ⦃num : Num R⦄ where
  -- What a closed session leaves in the store and in the database.
  pub record ClosedBy (before : SessionState R) (status : SessionStatus) (now : ℕ) (given : World R)
      (after : SessionState R) (w : World R) : Type 0 where
    pub ended : after.status ≡ finished
    pub cleared : after.served ≡ none
    pub settled : AllSettled now before.modules after.modules
    pub stored : w.store ≡ some after
    pub rows :
        All
          (λ (m : ModuleRunState R). row_of m.module_id w.module_results ≡ some (result_row m))
          after.modules
    pub kept : w.responses ≡ given.responses
    pub submitted : w.session_row ≡ submit_row status now given.session_row
    pub spent : w.invitation_status ≡ InvitationStatus.completed

  pub close_rows-frame :
      (status : SessionStatus) (now : ℕ) (w : World R)
      → ((close_rows status now w).module_results ≡ w.module_results)
        × ((close_rows status now w).store ≡ w.store)
        × ((close_rows status now w).session_row ≡ submit_row status now w.session_row)
        × ((close_rows status now w).invitation_status ≡ InvitationStatus.completed)
        × ((close_rows status now w).responses ≡ w.responses)
  unfolding close_rows
  close_rows-frame status now w = ground arith

  pub persist_all-row :
      (ms : List (ModuleRunState R)) (w : World R) → (persist_all ms w).session_row ≡ w.session_row
  unfolding persist_all persist_module_result
  persist_all-row [] w = refl
  persist_all-row (m ∷ ms) w = persist_all-row ms (persist_module_result m w)

  pub persist_all-responses :
      (ms : List (ModuleRunState R)) (w : World R) → (persist_all ms w).responses ≡ w.responses
  unfolding persist_all persist_module_result
  persist_all-responses [] w = refl
  persist_all-responses (m ∷ ms) w = persist_all-responses ms (persist_module_result m w)

  -- Closing a session that runs, whose modules have different ids: it ends with nothing on screen;
  -- exactly the running modules become completed, with the reason they had or "time expired"; the
  -- store holds the result; every module, reached or not, has its row in the results table; no
  -- response is added, for a question on screen either; the session's row has the given status and
  -- time; and the invitation is completed.
  pub finalize-ClosedBy :
      (state : SessionState R) (status : SessionStatus) (now : ℕ) (w : World R)
      → state.status ≡ RunStatus.in_progress
      → DistinctModules state.modules
      → let (state', w') = finalize state status now w in ClosedBy state status now w state' w'
  unfolding finalize
  finalize-ClosedBy state status now w running d =
      let settled = finalized state now in
      let saved = save settled (persist_all settled.modules w) in
      let frame = close_rows-frame status now saved in
      rw running (record {
        ended = refl;
        cleared = refl;
        settled = map-AllSettled now state.modules;
        stored = frame.1;
        rows =
            rw (frame.0)
              (persist_all-rows settled.modules w (map-DistinctModules now state.modules d));
        submitted = frame.2 ∙ ap (submit_row status now) (persist_all-row settled.modules w);
        kept = frame.4 ∙ persist_all-responses settled.modules w;
        spent = frame.3;
      })

  -- Closing twice is closing once: whatever the second caller's status and time, it changes
  -- neither the session nor anything outside it.
  pub finalize_twice :
      (state : SessionState R) (first second : SessionStatus) (now later : ℕ) (w : World R)
      → let (state', w') = finalize state first now w in
        finalize state' second later w' ≡ (state', w')
  unfolding finalize
  finalize_twice state first second now later w = elim (Bool-cases (is_finished state.status)) [
    | inl over ↦ rw over (rw over refl)
    | inr runs ↦ rw runs refl
  ]
