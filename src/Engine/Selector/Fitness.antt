-- ===== src/Engine/Selector/Fitness.antt =====
-- What a selected question is.
use adaptive_hire_exam_platf.Common.{
  ℕ, ◌≡◌, ◌≢◌, refl, subst, Option, none, some, List, [], ◌∷◌, Bool, true, false, not, ◌&&◌, String,
  filter, find, All, All-imp, arith,
}
use adaptive_hire_exam_platf.Common.Equality.{◌==◌, nat_eq, string_eq, includes}
use adaptive_hire_exam_platf.Engine.Numbers.{Num}
use adaptive_hire_exam_platf.Engine.Types.{
  BehavioralPattern, ModuleRunState, ScoringType, objective, trait,
}
use adaptive_hire_exam_platf.Engine.Questions.{Question, McqQuestionDetails}
use adaptive_hire_exam_platf.Engine.Probe.{due_twin, blocked_groups}
use adaptive_hire_exam_platf.Engine.Probe.Blocking.{unblocked-due}
use adaptive_hire_exam_platf.Engine.Run.Answers.{Serveable}
use adaptive_hire_exam_platf.Engine.Bank.{StoredQuestion, is_active, is_null, visible_to_org}
use adaptive_hire_exam_platf.Engine.Selector.{
  is_behavioral, is_legacy, aims_at, least_used_pattern, Site, take, order_by, free_of,
  with_details, shortlist, passes, base_query, due_of, select_due_twin, row_of, select_objective,
  behavioral_query, pick_behavioral, legacy_query, pick_legacy, aimed, select_trait, select_by,
  select_id, select_probe_opener, select_row, load_by_id, join_row, used_less, select_next,
  least_covered_trait,
}
use adaptive_hire_exam_platf.Engine.Selector.Picking.{
  take-All, order_by-All, filter-All, pick_random-Ever, or_else-Ever, if-Ever, filter-passed,
  All-both, Ever,
}

module _ {R : Type 0} where
  abbrev pub row_with_id : ℕ → List (StoredQuestion R) → Option (StoredQuestion R)
  row_with_id id = find (λ (r : StoredQuestion R). r.id == id)

  -- No two rows have the same id.
  abbrev pub DistinctIds : List (StoredQuestion R) → Type 0
  DistinctIds [] = Unit {0}
  DistinctIds (q ∷ qs) = All (λ (r : StoredQuestion R). r.id ≢ q.id) qs × DistinctIds qs

  found_later :
      (q : StoredQuestion R) (qs rows : List (StoredQuestion R))
      → All (λ (r : StoredQuestion R). r.id ≢ q.id) rows
      → All (λ (r : StoredQuestion R). row_with_id r.id qs ≡ some r) rows
      → All (λ (r : StoredQuestion R). row_with_id r.id (q ∷ qs) ≡ some r) rows
  found_later q qs [] h k = tt
  found_later q qs (r ∷ rows) (other, h) (here, k) =
      (ground (arith, nat_eq.same_iff q.id r.id), found_later q qs rows h k)

  found_in :
      (bank : List (StoredQuestion R))
      → DistinctIds bank
      → All (λ (r : StoredQuestion R). row_with_id r.id bank ≡ some r) bank
  found_in [] d = tt
  found_in (q ∷ qs) (other, d) =
      (ground (arith, nat_eq.same_iff q.id q.id), found_later q qs qs other (found_in qs d))

module _ {R : Type 0} where
  free-Serveable :
      (state : ModuleRunState R) (group : Option String)
      → free_of (blocked_groups state) group ≡ true
      → Serveable state group
  free-Serveable state none h = tt
  free-Serveable state (some group) h = λ named opened.
      unblocked-due state group (λ empty. ground (arith, string_eq.same_iff group ""))
        (ground arith) opened

module _ {R : Type 0} ⦃num : Num R⦄ (bank : List (StoredQuestion R)) (in_pool : ℕ → ℕ → Bool)
    (draw : Site → ℕ → ℕ) (legacy_turn : Bool) (ids : DistinctIds bank) where
  -- The row passes the base query, and is the bank's row of its id.
  abbrev Fits : ModuleRunState R → StoredQuestion R → Type 0
  Fits state q =
      (passes bank in_pool draw legacy_turn state false q ≡ true) × (row_with_id q.id bank ≡ some q)

  passes-any :
      (state : ModuleRunState R) (probe_only : Bool) (q : StoredQuestion R)
      → passes bank in_pool draw legacy_turn state probe_only q ≡ true
      → passes bank in_pool draw legacy_turn state false q ≡ true
  unfolding passes
  passes-any state false q h = h
  passes-any state true q h = ground arith

  base_query-Fits :
      (state : ModuleRunState R) (probe_only : Bool)
      → All (Fits state) (base_query bank in_pool draw legacy_turn state probe_only)
  unfolding base_query
  base_query-Fits state probe_only =
      let test = passes bank in_pool draw legacy_turn state probe_only in
      All-imp _ (Fits state) (filter test bank) (λ q p. (passes-any state probe_only q p.0, p.1))
        (All-both (λ q. test q ≡ true) (λ q. row_with_id q.id bank ≡ some q) (filter test bank)
          (filter-passed test bank)
          (filter-All (λ q. row_with_id q.id bank ≡ some q) test bank (found_in bank ids)))

  select_due_twin-Fits :
      (state : ModuleRunState R)
      → Ever (Fits state) (select_due_twin bank in_pool draw legacy_turn state)
  unfolding select_due_twin
  select_due_twin-Fits state = by_group (due_twin state)
    where
      by_group :
          (due : Option String) → Ever (Fits state) (due_of bank in_pool draw legacy_turn state due)
      by_group none = tt
      by_group (some group) =
          pick_random-Ever (Fits state) (draw Site.twin) _
            (take-All (Fits state) 5 _ (filter-All (Fits state) _ _ (base_query-Fits state false)))

  abbrev FitsJoined : ModuleRunState R → StoredQuestion R × McqQuestionDetails R → Type 0
  FitsJoined state (q, details) = Fits state q

  join_row-Fits :
      (state : ModuleRunState R) (q : StoredQuestion R) (details : Option (McqQuestionDetails R))
      (rows : List (StoredQuestion R × McqQuestionDetails R))
      → Fits state q
      → All (FitsJoined state) rows
      → All (FitsJoined state) (join_row q details rows)
  join_row-Fits state q none rows p h = h
  join_row-Fits state q (some details) rows p h = (p, h)

  with_details-Fits :
      (state : ModuleRunState R) (rows : List (StoredQuestion R))
      → All (Fits state) rows
      → All (FitsJoined state) (with_details rows)
  with_details-Fits state [] h = tt
  with_details-Fits state (q ∷ qs) (p, h) =
      join_row-Fits state q q.mcq_details (with_details qs) p (with_details-Fits state qs h)

  row_of-Fits :
      (state : ModuleRunState R) (picked : Option (StoredQuestion R × McqQuestionDetails R))
      → Ever (FitsJoined state) picked
      → Ever (Fits state) (row_of bank in_pool draw legacy_turn picked)
  row_of-Fits state none h = tt
  row_of-Fits state (some p) h = h

  select_objective-Fits :
      (state : ModuleRunState R) (probe_only : Bool)
      → Ever (Fits state) (select_objective bank in_pool draw legacy_turn state probe_only)
  unfolding select_objective shortlist
  select_objective-Fits state probe_only = row_of-Fits state _ (
      pick_random-Ever (FitsJoined state) (draw (Site.closest probe_only)) _ (
        take-All (FitsJoined state) 5 _ (
          order_by-All (FitsJoined state) _ _
            (with_details-Fits state _ (base_query-Fits state probe_only)))))

  -- The rows that a filter, an order and a limit leave.
  query-Fits :
      (state : ModuleRunState R) (probe_only : Bool) (test : StoredQuestion R → Bool)
      → All (Fits state) (
          take 5 (
            order_by used_less
              (filter test (base_query bank in_pool draw legacy_turn state probe_only))))
  query-Fits state probe_only test = take-All (Fits state) 5 _ (
      order_by-All (Fits state) used_less _
        (filter-All (Fits state) test _ (base_query-Fits state probe_only)))

  behavioral_query-Fits :
      (state : ModuleRunState R) (aim : Option String) (pattern : Option BehavioralPattern)
      (probe_only : Bool)
      → All
          (Fits state)
          (behavioral_query bank in_pool draw legacy_turn state aim pattern probe_only)
  unfolding behavioral_query
  behavioral_query-Fits state aim pattern probe_only =
      query-Fits state probe_only
        (λ (q : StoredQuestion R). is_behavioral pattern q.personality_details && aims_at aim q)

  pick_behavioral-Fits :
      (state : ModuleRunState R) (aim : Option String) (probe_only : Bool)
      → Ever (Fits state) (pick_behavioral bank in_pool draw legacy_turn state aim probe_only)
  unfolding pick_behavioral
  pick_behavioral-Fits state aim probe_only =
      or_else-Ever (Fits state) _ _
        (pick_random-Ever (Fits state) (draw (Site.behavioral probe_only (not (is_null aim)) true))
          _ (behavioral_query-Fits state aim (some (least_used_pattern state)) probe_only))
        (pick_random-Ever (Fits state) (draw (Site.behavioral probe_only (not (is_null aim)) false))
          _ (behavioral_query-Fits state aim none probe_only))

  legacy_query-Fits :
      (state : ModuleRunState R) (aim : Option String)
      → All (Fits state) (legacy_query bank in_pool draw legacy_turn state aim)
  unfolding legacy_query
  legacy_query-Fits state aim =
      query-Fits state false
        (λ (q : StoredQuestion R). is_legacy q.personality_details && aims_at aim q)

  pick_legacy-Fits :
      (state : ModuleRunState R) (late : Bool)
      → Ever (Fits state) (pick_legacy bank in_pool draw legacy_turn state late)
  unfolding pick_legacy
  pick_legacy-Fits state late =
      or_else-Ever (Fits state) _ _
        (pick_random-Ever (Fits state) (draw (Site.legacy late true)) _
          (legacy_query-Fits state (least_covered_trait state)))
        (pick_random-Ever (Fits state) (draw (Site.legacy late false)) _
          (legacy_query-Fits state none))

  aimed-Fits :
      (state : ModuleRunState R) (probe_only : Bool) (aim : Option String)
      → Ever (Fits state) (aimed bank in_pool draw legacy_turn state probe_only aim)
  aimed-Fits state probe_only none = tt
  aimed-Fits state probe_only (some key) =
      if-Ever (Fits state) (key == "") none _ tt (pick_behavioral-Fits state (some key) probe_only)

  select_trait-Fits :
      (state : ModuleRunState R) (probe_only : Bool)
      → Ever (Fits state) (select_trait bank in_pool draw legacy_turn state probe_only)
  unfolding select_trait
  select_trait-Fits state probe_only =
      or_else-Ever (Fits state) _ _
        (if-Ever (Fits state) _ _ none (pick_legacy-Fits state false) tt)
        (or_else-Ever (Fits state) _ _ (aimed-Fits state probe_only (least_covered_trait state)) (
          or_else-Ever (Fits state) _ _ (pick_behavioral-Fits state none probe_only)
            (if-Ever (Fits state) probe_only none _ tt (pick_legacy-Fits state true))))

  select_id-Fits :
      (state : ModuleRunState R) (probe_only : Bool)
      → Ever (Fits state) (select_id bank in_pool draw legacy_turn state probe_only)
  unfolding select_id
  select_id-Fits state probe_only = by_type state.scoring_type
    where
      by_type :
          (scoring : ScoringType)
          → Ever (Fits state) (select_by bank in_pool draw legacy_turn scoring state probe_only)
      by_type objective = select_objective-Fits state probe_only
      by_type trait = select_trait-Fits state probe_only

  select_row-Fits :
      (state : ModuleRunState R)
      → Ever (Fits state) (select_row bank in_pool draw legacy_turn state)
  unfolding select_row select_probe_opener
  select_row-Fits state = or_else-Ever (Fits state) _ _ (select_due_twin-Fits state) (
      or_else-Ever (Fits state) _ _ (if-Ever (Fits state) _ _ none (select_id-Fits state true) tt)
        (select_id-Fits state false))

  -- A row of the bank that may be served to the module.
  pub record IsFit (state : ModuleRunState R) (q : Question R) : Type 0 where
    pub row : StoredQuestion R
    pub stored : row_with_id q.id bank ≡ some row
    pub same : row.question ≡ q
    pub own_module : q.module_id ≡ state.module_id
    pub reviewed : is_active row.status ≡ true
    pub seen_by_org : visible_to_org state.organisation_id bank row ≡ true
    pub real : row.is_sample ≡ false
    pub approved : state.pool_restricted ≡ true → in_pool state.assessment_id q.id ≡ true
    pub fresh : includes q.id state.seen_question_ids ≡ false
    pub unblocked : free_of (blocked_groups state) q.probe_group ≡ true

  row-IsFit :
      (state : ModuleRunState R) (row : StoredQuestion R)
      → Fits state row
      → IsFit state row.question
  unfolding passes
  row-IsFit state row (passed, found) = record {
    row = row;
    stored = found;
    same = refl;
    own_module = ground (arith, nat_eq.same_iff row.module_id state.module_id);
    reviewed = ground arith;
    seen_by_org = ground arith;
    real = ground arith;
    approved = ground arith;
    fresh = ground arith;
    unblocked = ground arith;
  }

  loaded-IsFit :
      (state : ModuleRunState R) (picked : Option (StoredQuestion R)) (q : Question R)
      → Ever (Fits state) picked
      → load_by_id bank in_pool draw legacy_turn picked ≡ some q
      → IsFit state q
  loaded-IsFit state none q h e = cc
  loaded-IsFit state (some row) q (passed, found) e =
      let loaded : some row.question ≡ some q = rw (found, load_by_id) at e in
      let same : row.question ≡ q = cc loaded in
      subst (IsFit state) same (row-IsFit state row (passed, found))

  -- Every question that the selector gives a module is the bank's row of its id, for this module,
  -- active, visible to the assessment's organisation, no practice question, in the assessment's
  -- pool where it has one, not yet seen in the module, and of no probe group or of one that is not
  -- blocked. The ids of the bank must be different.
  pub select_next-IsFit :
      (state : ModuleRunState R) (q : Question R)
      → select_next bank in_pool draw legacy_turn state ≡ some q
      → IsFit state q
  unfolding select_next
  select_next-IsFit state q e =
      loaded-IsFit state (select_row bank in_pool draw legacy_turn state) q (select_row-Fits state)
        e

  -- A question that the selector gives satisfies what recording its answer asks of it: its probe
  -- group has an open pair only if that pair's twin is due.
  pub select_next-Serveable :
      (state : ModuleRunState R) (q : Question R)
      → select_next bank in_pool draw legacy_turn state ≡ some q
      → Serveable state q.probe_group
  select_next-Serveable state q e =
      free-Serveable state q.probe_group (select_next-IsFit state q e).unblocked
