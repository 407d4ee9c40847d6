-- ===== src/Session/Durable/Rebuilt.antt =====
-- `rehydrate` of backend/src/sessions/sessions.service.ts: what a rebuilt session has of its responses.
use mathlib.Core.List.{Memᴰ}
use adaptive_hire_exam_platf.Common.{
  ℕ, suc, ◌≡◌, ◌≤◌, refl, subst, ap, ap₂, ◌∙◌, none, some, List, [], ◌∷◌, Option-cases, inl, inr,
  map, length, find, arith, leb, le→leb, true,
}
use adaptive_hire_exam_platf.Common.Equality.{◌==◌, nat_eq}
use adaptive_hire_exam_platf.Failures.{Failure, dangling_response}
use adaptive_hire_exam_platf.Engine.Numbers.{Num}
use adaptive_hire_exam_platf.Engine.Types.{ModuleRunConfig, ModuleRunState, ModuleRunStatus}
use adaptive_hire_exam_platf.Engine.Questions.{Question}
use adaptive_hire_exam_platf.Engine.Run.{create_module_state}
use adaptive_hire_exam_platf.Session.State.{SessionState, SessionRow, ResponseRow}
use adaptive_hire_exam_platf.Session.World.{World, done}
use adaptive_hire_exam_platf.Session.World.Runs.{Run, returns, throws, Run-done}
use adaptive_hire_exam_platf.Session.Assessment.{
  Assessment, AssessmentModule, run_config, fresh_modules,
}
use adaptive_hire_exam_platf.Session.Rebuild.{
  insert_by_sequence, by_sequence, start_clocks, with_clock, rebuilt, replay_all, complete_finished,
  rehydrate,
}
use adaptive_hire_exam_platf.Session.Rebuild.Progress.{
  told, told_after, responses_of, DistinctIds, ids_of,
}
use adaptive_hire_exam_platf.Session.Rebuild.Replayed.{
  complete_finished-told, restarts-told, replay_all-told, replay_all-none,
}
use adaptive_hire_exam_platf.Session.Durable.{IsLiveIn, Durable, NumberedFrom}
use adaptive_hire_exam_platf.Session.Durable.Rebuilding.{rehydrate-IsLiveIn}

module _ {R : Type 0} where
  insert_by_sequence-first :
      (row : ResponseRow R) (rows : List (ResponseRow R)) (n : ℕ)
      → row.sequence_number ≤ n
      → NumberedFrom n rows
      → insert_by_sequence row rows ≡ row ∷ rows
  unfolding insert_by_sequence
  insert_by_sequence-first row [] n h numbered = refl
  insert_by_sequence-first row (r ∷ rows) n h (next, numbered) =
      let first : leb row.sequence_number r.sequence_number ≡ true =
        le→leb row.sequence_number r.sequence_number (omega (arith, h, next)) in
      rw first refl

  -- Rows that are numbered without a gap are in the order of their numbers.
  by_sequence-numbered :
      (rows : List (ResponseRow R)) (n : ℕ) → NumberedFrom n rows → by_sequence rows ≡ rows
  unfolding by_sequence
  by_sequence-numbered [] n numbered = refl
  by_sequence-numbered (row ∷ rows) n (own, numbered) =
      ap (insert_by_sequence row) (by_sequence-numbered rows (suc n) numbered)
      ∙ insert_by_sequence-first row rows (suc n) (omega (arith, own)) numbered

  -- How far the responses say each module of the assessment is.
  abbrev pub told_by : Assessment → List (ResponseRow R) → List (ModuleRunConfig × ℕ × List ℕ)
  told_by assessment rows =
      map
        (λ (config : AssessmentModule). (
          run_config assessment config,
          length (responses_of config.module_id rows),
          map (λ (r : ResponseRow R). r.question_id) (responses_of config.module_id rows),
        ))
        assessment.modules

  -- The session that Redis lost, as its row, its assessment and its responses tell it.
  pub record IsRebuilt (assessment : Assessment) (row : SessionRow) (w : World R)
      (state : SessionState R) (v : World R) : Type 0 where
    pub live : IsLiveIn state v
    pub durable : Durable v
    pub stored : v.store ≡ some state
    pub off_screen : state.served ≡ none
    pub progress : map told state.modules ≡ told_by assessment w.responses
    pub frame : v ≡ record w { store = v.store; clocks = v.clocks }

  -- Nothing is written, and a response stands without its question.
  abbrev pub IsDangling : World R → Failure → World R → Type 0
  IsDangling w e v =
      (v ≡ w)
      × (e ≡ dangling_response)
      × ((r : ResponseRow R) × Memᴰ r w.responses
          × (find (λ (q : Question R). q.id == r.question_id) w.bank ≡ none))

  with_clock-frame :
      (status : ModuleRunStatus) (m : ModuleRunState R) (w : World R)
      → with_clock status m w ≡ record w { clocks = (with_clock status m w).clocks }
  with_clock-frame ModuleRunStatus.pending m w = refl
  with_clock-frame ModuleRunStatus.in_progress m w = refl
  with_clock-frame ModuleRunStatus.completed m w = refl

  start_clocks-frame :
      (ms : List (ModuleRunState R)) (w : World R)
      → start_clocks ms w ≡ record w { clocks = (start_clocks ms w).clocks }
  unfolding start_clocks
  start_clocks-frame [] w = refl
  start_clocks-frame (m ∷ ms) w =
      let v = with_clock m.status m w in
      start_clocks-frame ms v
      ∙ ap (λ (u : World R). record u { clocks = (start_clocks ms v).clocks })
          (with_clock-frame m.status m w)

fresh-ids :
    (R : Type 0) ⦃num : Num R⦄ (assessment : Assessment) (configs : List AssessmentModule)
    → map (λ (c : AssessmentModule). c.module_id) configs
      ≡ ids_of {R = R}
          (map (λ (c : AssessmentModule). create_module_state (run_config assessment c)) configs)
unfolding create_module_state run_config
fresh-ids R assessment [] = refl
fresh-ids R assessment (c ∷ configs) =
    ap (λ ids. c.module_id ∷ ids) (fresh-ids R assessment configs)

module _ {R : Type 0} ⦃num : Num R⦄ where
  fresh-told :
      (assessment : Assessment) (configs : List AssessmentModule) (rows : List (ResponseRow R))
      → map
          (told_after rows)
          (map (λ (c : AssessmentModule). create_module_state (run_config assessment c)) configs)
        ≡ map
            (λ (config : AssessmentModule). (
              run_config assessment config,
              length (responses_of config.module_id rows),
              map (λ (r : ResponseRow R). r.question_id) (responses_of config.module_id rows),
            ))
            configs
  unfolding create_module_state run_config
  fresh-told assessment [] rows = refl
  fresh-told assessment (c ∷ configs) rows =
      ap₂ (λ (x : ModuleRunConfig × ℕ × List ℕ) xs. x ∷ xs)
        (ap
          (λ (n : ℕ). (
            run_config assessment c,
            n,
            map (λ (r : ResponseRow R). r.question_id) (responses_of c.module_id rows),
          ))
          (omega arith))
        (fresh-told assessment configs rows)

  -- The modules that the rebuilding ends with.
  rebuilt-told :
      (assessment : Assessment) (now : ℕ) (row : SessionRow) (rows : List (ResponseRow R))
      (replayed : List (ModuleRunState R)) (w : World R)
      → DistinctIds (map (λ (c : AssessmentModule). c.module_id) assessment.modules)
      → replay_all w.bank rows (fresh_modules assessment) ≡ some replayed
      → map told
          (rebuilt assessment row rows (complete_finished w.module_results replayed) now).modules
        ≡ told_by assessment rows
  unfolding rebuilt fresh_modules
  rebuilt-told assessment now row rows replayed w distinct ok =
      restarts-told now (complete_finished w.module_results replayed)
      ∙ complete_finished-told w.module_results replayed
      ∙ replay_all-told w.bank rows (fresh_modules assessment) replayed
          (subst DistinctIds (fresh-ids R assessment assessment.modules) distinct) ok
      ∙ fresh-told assessment assessment.modules rows

  -- Rebuilding a lost session from its row, for an assessment that has each module once. When it
  -- returns, the state is saved and live: of the same candidate, start and deadline as the row, as
  -- open as the row, with as many answers as there are responses and nothing on screen; every module
  -- of the assessment is there, in its order, counts exactly the responses of that module and has seen
  -- exactly their questions, in the order they were answered; and no row is written. It throws only
  -- where a response's question is missing from the bank, with the error of a dangling response, and
  -- then writes nothing.
  pub rehydrate-IsRebuilt :
      (assessment : Assessment) (now : ℕ) (row : SessionRow) (w : World R)
      → w.session_row ≡ some row
      → Durable w
      → DistinctIds (map (λ (c : AssessmentModule). c.module_id) assessment.modules)
      → Run (IsRebuilt assessment row w) (IsDangling w) (rehydrate assessment now row w)
  unfolding rehydrate rebuilt
  rehydrate-IsRebuilt assessment now row w here d distinct =
      let ordered = by_sequence-numbered w.responses 0 d.numbered in
      elim (Option-cases (replay_all w.bank w.responses (fresh_modules assessment))) [
        | inl broken ↦
            let lost = replay_all-none w.bank w.responses (fresh_modules assessment) broken in
            rw (rehydrate, ordered, broken) (throws (refl, refl, lost))
        | inr (replayed, ok) ↦
            let modules = complete_finished w.module_results replayed in
            let state = rebuilt assessment row w.responses modules now in
            let v = record (start_clocks modules w) { store = some state } in
            let ends : rehydrate assessment now row w ≡ done state v =
              rw (rehydrate, ordered, ok, ordered) refl in
            let (live, durable) = Run-done (rehydrate-IsLiveIn assessment now row w here d) ends in
            rw ends (
              returns (record {
                live = live;
                durable = durable;
                stored = refl;
                off_screen = refl;
                progress = rebuilt-told assessment now row w.responses replayed w distinct ok;
                frame =
                    ap (λ (u : World R). record u { store = some state })
                      (start_clocks-frame modules w);
              }))
      ]
