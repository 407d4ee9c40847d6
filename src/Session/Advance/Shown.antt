-- ===== src/Session/Advance/Shown.antt =====
-- What `advance` returns agrees with the state that it leaves.
use adaptive_hire_exam_platf.Common.{
  ℕ, zero, suc, ◌+◌, ◌*◌, ◌≡◌, refl, sym, ◌∙◌, Option, none, some, List, [], ◌∷◌, true, leb, String,
  ◌++◌, length, get_elem?, set, find, map, ◌-◌, Option-cases, Bool-cases, inl, inr, arith,
}
use adaptive_hire_exam_platf.Common.Equality.{◌==◌, nat_eq, string_eq}
use adaptive_hire_exam_platf.Failures.{Failure}
use adaptive_hire_exam_platf.Engine.Numbers.{Num}
use adaptive_hire_exam_platf.Engine.Types.{ModuleRunState, ModuleRunStatus}
use adaptive_hire_exam_platf.Engine.Questions.{Question}
use adaptive_hire_exam_platf.Engine.Probe.{mark_served}
use adaptive_hire_exam_platf.Engine.Run.{
  NextStep, question, module_complete, next_step, mark_probe_served,
}
use adaptive_hire_exam_platf.Engine.Stopping.{reached}
use adaptive_hire_exam_platf.Session.State.{
  SessionState, ServedQuestion, RunStatus, finished, current_module, is_finished, SessionStatus,
}
use adaptive_hire_exam_platf.Session.Views.{
  SessionStep, module_intro, completed, to_question_step, to_question_view, ModuleView, SessionView,
  view_status, to_module_view, to_session_view,
}
use adaptive_hire_exam_platf.Session.Views
use adaptive_hire_exam_platf.Session.World.{World, Outcome, done, fail, load_served_question}
use adaptive_hire_exam_platf.Session.World.Runs.{Run, returns, throws, after_Run, Run-done}
use adaptive_hire_exam_platf.Session.Finish.{finalize, complete_module, on_screen}
use adaptive_hire_exam_platf.Session.Advance.{
  Clock, Remaining, Turn, stop, again, take_step, serve_or_step, module_turn, current_turn, turn,
  advance_from, advance, still_open, move_on, show_again, serving,
}

-- A value is there and has the property.
abbrev pub Held : {A : Type 0} → (A → Type 0) → Option A → Type 0
Held P none = ⊥
Held P (some a) = P a

abbrev Anyhow : {R : Type 0} → Failure → World R → Type 0
Anyhow e w = Unit {0}

abbrev Whatever : {R A : Type 0} → A → World R → Type 0
Whatever a w = Unit {0}

module _ {R : Type 0} where
  -- The question is the one that the state records as served in this module.
  abbrev pub IsServed : Option ServedQuestion → ℕ → ModuleRunState R → Type 0
  IsServed served question_id m =
      (m.status ≡ ModuleRunStatus.in_progress)
      × Held (λ (s : ServedQuestion). (s.question_id ≡ question_id) × (s.module_id ≡ m.module_id))
          served

  -- The view is that of this module.
  pub record ShowsModule (m : ModuleRunState R) (view : ModuleView) : Type 0 where
    pub module_id : view.module_id ≡ m.module_id
    pub name : view.name ≡ m.name
    pub slug : view.slug ≡ m.slug
    pub description : view.description ≡ m.description
    pub scoring_type : view.scoring_type ≡ m.scoring_type
    pub status : view.status ≡ m.status
    pub question_count : view.question_count ≡ m.question_count
    pub time_limit : view.time_limit_seconds ≡ m.time_limit_seconds
    pub answered : view.answered ≡ m.answered

  abbrev pub ShowsModules : List (ModuleRunState R) → List ModuleView → Type 0
  ShowsModules [] [] = Unit {0}
  ShowsModules (m ∷ ms) (view ∷ views) = ShowsModule m view × ShowsModules ms views
  ShowsModules _ _ = ⊥

  -- The view is that of this session, read at some moment.
  pub record ShowsSession (state : SessionState R) (view : SessionView) : Type 0 where
    pub session_id : view.session_id ≡ state.session_id
    pub assessment_id : view.assessment_id ≡ state.assessment_id
    pub title : view.assessment_title ≡ state.assessment_title
    pub status : view.status ≡ view_status state.status
    pub started : view.started_at ≡ state.started_at
    pub expiry : view.expires_at ≡ state.expires_at
    pub remaining : (now : ℕ) × (view.session_remaining_ms ≡ state.expires_at - now)
    pub modules : ShowsModules state.modules view.modules
    pub place : view.current_module_index ≡ state.current_module_index

  -- The end of a session is shown only once it is finished, an introduction only of a current module
  -- that has not begun, and a question only if it is on screen in the running current module; every
  -- view is that of the session and of that module, with their counts.
  abbrev pub IsShown : SessionStep → SessionState R → Type 0
  IsShown (completed view) state = (state.status ≡ finished) × ShowsSession state view
  IsShown (module_intro view intro) state =
      Held (λ (m : ModuleRunState R). (m.status ≡ ModuleRunStatus.pending) × ShowsModule m intro)
        (current_module state)
      × ShowsSession state view
  IsShown (Views.question view own q n answered count remaining) state =
      Held
        (λ (m : ModuleRunState R).
          IsServed state.served q.id m
          × ShowsModule m own
          × (answered ≡ m.answered)
          × (count ≡ m.question_count))
        (current_module state)
      × ShowsSession state view
      × (n ≡ suc state.answered_total)

  to_module_view-ShowsModule : (m : ModuleRunState R) → ShowsModule m (to_module_view m)
  unfolding to_module_view
  to_module_view-ShowsModule m = record {
    module_id = refl;
    name = refl;
    slug = refl;
    description = refl;
    scoring_type = refl;
    status = refl;
    question_count = refl;
    time_limit = refl;
    answered = refl;
  }

  map-ShowsModules : (ms : List (ModuleRunState R)) → ShowsModules ms (map to_module_view ms)
  map-ShowsModules [] = tt
  map-ShowsModules (m ∷ ms) = (to_module_view-ShowsModule m, map-ShowsModules ms)

  to_session_view-ShowsSession :
      (state : SessionState R) (now : ℕ) → ShowsSession state (to_session_view state none now)
  unfolding to_session_view
  to_session_view-ShowsSession state now = record {
    session_id = refl;
    assessment_id = refl;
    title = refl;
    status = refl;
    started = refl;
    expiry = refl;
    remaining = (now, refl);
    modules = map-ShowsModules state.modules;
    place = refl;
  }

  abbrev Ends : Turn R → World R → Type 0
  Ends (stop step state) w = IsShown step state
  Ends (again state) w = Unit {0}

  anyhow : {A : Type 0} (o : Outcome R A) → Run Whatever Anyhow o
  anyhow (done a w) = returns tt
  anyhow (fail e w) = throws tt

  mark_probe_served-module :
      (m : ModuleRunState R) (group : Option String)
      → ((mark_probe_served m group).module_id ≡ m.module_id)
        × ((mark_probe_served m group).status ≡ m.status)
  unfolding mark_probe_served mark_served
  mark_probe_served-module m group = ground arith

pub get_elem?-set :
    {A : Type 0} (xs : List A) (i : ℕ) (v : A) {x : A}
    → get_elem? xs i ≡ some x
    → get_elem? (set xs i v) i ≡ some v
get_elem?-set [] i v h = cc
get_elem?-set (x ∷ xs) zero v h = refl
get_elem?-set (x ∷ xs) (suc i) v h = get_elem?-set xs i v h

over_finished : (status : RunStatus) → is_finished status ≡ true → status ≡ finished
over_finished RunStatus.in_progress h = cc
over_finished finished h = refl

find-id :
    {R : Type 0} (id : ℕ) (bank : List (Question R)) {q : Question R}
    → find (λ (q : Question R). q.id == id) bank ≡ some q
    → q.id ≡ id
find-id id [] h = cc
find-id id (x ∷ bank) {q} h = elim (Bool-cases (x.id == id)) [
  | inl here ↦
      let found : some x ≡ some q = rw here at h in cc (found, (nat_eq.same_iff x.id id).0 here)
  | inr later ↦ find-id id bank (rw later at h)
]

module _ {R : Type 0} ⦃num : Num R⦄ where
  load_served_question-id :
      (id : ℕ) (w : World R) → Run (λ q v. q.id ≡ id) Anyhow (load_served_question id w)
  unfolding load_served_question
  load_served_question-id id w =
      elim (Option-cases (find (λ (q : Question R). q.id == id) w.bank)) [
        | inl gone ↦ rw (gone, load_served_question) (throws tt)
        | inr (q, found) ↦ rw (found, load_served_question) (returns (find-id id w.bank found))
      ]

  take_step-Ends :
      (remaining : Remaining) (clock : Clock) (state : SessionState R) (m : ModuleRunState R)
      (now : ℕ) (step : NextStep R) (w : World R)
      → current_module state ≡ some m
      → m.status ≡ ModuleRunStatus.in_progress
      → Run Ends Anyhow (take_step remaining clock state m now step w)
  unfolding to_question_step to_question_view
  take_step-Ends remaining clock state m now (module_complete reason) w h runs =
      after_Run move_on (anyhow (complete_module state m reason now w)) (λ after v p. returns tt)
  take_step-Ends remaining clock state m now (question q) w h runs =
      let seen : ModuleRunState R = record m {
        seen_question_ids = m.seen_question_ids ++ q.id ∷ [];
      } in
      let frame = mark_probe_served-module seen q.probe_group in
      let shown : ModuleRunState R = mark_probe_served seen q.probe_group in
      returns (
        rw (get_elem?-set state.modules state.current_module_index shown h)
            ((frame.1 ∙ runs, (refl, sym frame.0)), to_module_view-ShowsModule shown, refl, refl),
        to_session_view-ShowsSession (serving state m q now) clock.showing,
        refl,
      )

  finalize-finished :
      (state : SessionState R) (status : SessionStatus) (now : ℕ) (w : World R)
      → (finalize state status now w).0.status ≡ finished
  unfolding finalize
  finalize-finished state status now w = elim (Bool-cases (is_finished state.status)) [
    | inl over ↦ rw over (over_finished state.status over)
    | inr runs ↦ rw runs refl
  ]

  closed :
      (clock : Clock) (state : SessionState R) (status : SessionStatus) (w : World R)
      → let after = (finalize state status clock.closing w).0 in
        (after.status ≡ finished) × ShowsSession after (to_session_view after none clock.showing)
  closed clock state status w = (
    finalize-finished state status clock.closing w,
    to_session_view-ShowsSession (finalize state status clock.closing w).0 clock.showing,
  )

  serve_or_step-Ends :
      (remaining : Remaining) (clock : Clock) (select : ModuleRunState R → Option (Question R))
      (state : SessionState R) (m : ModuleRunState R) (now : ℕ) (screen : Option ServedQuestion)
      (w : World R)
      → current_module state ≡ some m
      → m.status ≡ ModuleRunStatus.in_progress
      → ((s : ServedQuestion)
          → screen ≡ some s
          → (state.served ≡ some s) × (s.module_id ≡ m.module_id))
      → Run Ends Anyhow (serve_or_step remaining clock select state m now screen w)
  unfolding to_question_step to_question_view
  serve_or_step-Ends remaining clock select state m now (some served) w h runs given =
      after_Run (show_again remaining clock state m) (load_served_question-id served.question_id w)
        (λ q v same.
          let on = given served refl in
          returns (
            rw (h, on.0) ((runs, (sym same, on.1)), to_module_view-ShowsModule m, refl, refl),
            to_session_view-ShowsSession state clock.showing,
            refl,
          ))
  serve_or_step-Ends remaining clock select state m now none w h runs given =
      take_step-Ends remaining clock state m now (next_step select m now) w h runs

  on_screen-served :
      (served : Option ServedQuestion) (m : ModuleRunState R) (now : ℕ) (s : ServedQuestion)
      → still_open (on_screen served m) m.deadline_at now ≡ some s
      → (served ≡ some s) × (s.module_id ≡ m.module_id)
  on_screen-served none m now s h = cc
  on_screen-served (some x) m now s h = elim (Bool-cases (x.module_id == m.module_id)) [
    | inr other ↦ cc (rw other at h)
    | inl here ↦ elim (Bool-cases (reached m.deadline_at now)) [
      | inl over ↦ cc (rw (here, over) at h)
      | inr open_still ↦
          let same : some x ≡ some s = rw (here, open_still) at h in
          (same, cc (same, (nat_eq.same_iff x.module_id m.module_id).0 here))
    ]
  ]

  module_turn-Ends :
      (remaining : Remaining) (clock : Clock) (select : ModuleRunState R → Option (Question R))
      (state : SessionState R) (m : ModuleRunState R) (now : ℕ) (status : ModuleRunStatus)
      (w : World R)
      → current_module state ≡ some m
      → m.status ≡ status
      → Run Ends Anyhow (module_turn remaining clock select state m now status w)
  module_turn-Ends remaining clock select state m now ModuleRunStatus.completed w h e = returns tt
  module_turn-Ends remaining clock select state m now ModuleRunStatus.pending w h e =
      returns
        (rw h (e, to_module_view-ShowsModule m), to_session_view-ShowsSession state clock.showing)
  module_turn-Ends remaining clock select state m now ModuleRunStatus.in_progress w h e =
      serve_or_step-Ends remaining clock select state m now
        (still_open (on_screen state.served m) m.deadline_at now) w h e
        (on_screen-served state.served m now)

  current_turn-Ends :
      (remaining : Remaining) (clock : Clock) (select : ModuleRunState R → Option (Question R))
      (state : SessionState R) (now : ℕ) (m : Option (ModuleRunState R)) (w : World R)
      → current_module state ≡ m
      → Run Ends Anyhow (current_turn remaining clock select state now m w)
  current_turn-Ends remaining clock select state now none w h =
      returns (closed clock state SessionStatus.completed w)
  current_turn-Ends remaining clock select state now (some m) w h =
      module_turn-Ends remaining clock select state m now m.status w h refl

  turn-Ends :
      (remaining : Remaining) (clock : Clock) (select : ModuleRunState R → Option (Question R))
      (now : ℕ) (state : SessionState R) (w : World R)
      → Run Ends Anyhow (turn remaining clock select now state w)
  unfolding turn
  turn-Ends remaining clock select now state w = elim (Bool-cases (leb state.expires_at now)) [
    | inl over ↦ rw over (returns (closed clock state SessionStatus.auto_submitted w))
    | inr runs ↦
        rw runs (current_turn-Ends remaining clock select state now (current_module state) w refl)
  ]

  abbrev Agrees : SessionStep × SessionState R → World R → Type 0
  Agrees (step, state) w = IsShown step state

  advance_from-Agrees :
      (remaining : Remaining) (clock : Clock) (select : ModuleRunState R → Option (Question R))
      (passes guard : ℕ) (state : SessionState R) (w : World R)
      → Run Agrees Anyhow (advance_from remaining clock select passes guard state w)
  unfolding advance_from
  advance_from-Agrees remaining clock select zero guard state w = throws tt
  advance_from-Agrees remaining clock select (suc passes) guard state w =
      after (advance_from-Agrees remaining clock select passes (suc guard))
        (turn-Ends remaining clock select (clock.pass guard) state w)
    where
      after :
          ((next : SessionState R) (v : World R)
            → Run Agrees Anyhow (advance_from remaining clock select passes (suc guard) next v))
          → {o : Outcome R (Turn R)} → Run Ends Anyhow o
          → Run Agrees Anyhow (elim o [
            | done (stop step state') w' ↦ done (step, state') w'
            | done (again state') w' ↦
                advance_from remaining clock select passes (suc guard) state' w'
            | fail e w' ↦ fail e w'
          ])
      after go (returns {a = stop step next} p) = returns p
      after go (returns {a = again next} {w = v} p) = go next v
      after go (throws e) = throws tt

  advance-Agrees :
      (remaining : Remaining) (clock : Clock) (select : ModuleRunState R → Option (Question R))
      (state : SessionState R) (w : World R)
      → Run Agrees Anyhow (advance remaining clock select state w)
  unfolding advance
  advance-Agrees remaining clock select state w = elim (Bool-cases (is_finished state.status)) [
    | inl over ↦ rw over (
        returns (over_finished state.status over, to_session_view-ShowsSession state clock.showing))
    | inr runs ↦
        rw runs
          (advance_from-Agrees remaining clock select (length state.modules * 2 + 3) 0 state w)
  ]

  -- Whatever `advance` returns is what the state that it leaves says: the end only of a finished
  -- session, the introduction only of a current module that has not begun, and a question only if it
  -- is the one recorded as served in the current module, which runs. The views beside it are those
  -- of this session, of all its modules and of the current module, with the counts of both and the
  -- next number of the session.
  pub advance-IsShown :
      (remaining : Remaining) (clock : Clock) (select : ModuleRunState R → Option (Question R))
      (state after : SessionState R) (step : SessionStep) (w v : World R)
      → advance remaining clock select state w ≡ done (step, after) v
      → IsShown step after
  advance-IsShown remaining clock select state after step w v h =
      Run-done (advance-Agrees remaining clock select state w) h
