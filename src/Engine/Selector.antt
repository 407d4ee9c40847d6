-- ===== src/Engine/Selector.antt =====
-- backend/src/adaptive-engine/question-selector/question-selector.service.ts: which question a module
-- serves next. A query is a filter of the bank, an order and a limit; rows that an order ties keep
-- the bank's order, which the database may choose. `draw` is the random index among so many rows,
-- one for each place that draws, and `legacy_turn` the random turn for a legacy question.
pub mod Picking
pub mod Fitness
pub mod Serving
use adaptive_hire_exam_platf.Common.{
  ℕ, zero, suc, ◌+◌, Option, none, some, List, [], ◌∷◌, Bool, true, false, not, ◌&&◌, ◌||◌, String,
  ltb, leb, length, get_elem?, filter, any, find, map, if◌then◌else◌,
}
use adaptive_hire_exam_platf.Common.Equality.{◌==◌, nat_eq, string_eq, includes}
use adaptive_hire_exam_platf.Engine.Numbers.{Num, negate}
use adaptive_hire_exam_platf.Engine.Constants.{selector_shortlist_size}
use adaptive_hire_exam_platf.Engine.Dict.{lookup, entry_keys}
use adaptive_hire_exam_platf.Engine.Types.{
  ModuleRunState, ScoringType, objective, trait, BehavioralPattern, situational, forced_choice,
  trade_off, ranking,
}
use adaptive_hire_exam_platf.Engine.Questions.{
  Question, McqQuestionDetails, PersonalityQuestionDetails, PersonalityOption,
}
use adaptive_hire_exam_platf.Engine.Probe.{due_twin, blocked_groups, wants_new_pair}
use adaptive_hire_exam_platf.Engine.Estimator.Traits.{trait_confidence, trait_keys}
use adaptive_hire_exam_platf.Engine.Run.{pattern_eq}
use adaptive_hire_exam_platf.Engine.Bank.{
  StoredQuestion, is_active, is_null, visible_to_org, is_servable,
}

-- The places that draw at random.
pub data Site : Type 0 where
  twin : Site
  closest : (probe_only : Bool) → Site
  behavioral : (probe_only aimed preferred : Bool) → Site
  legacy : (late aimed : Bool) → Site

-- `LIMIT n`
abbrev pub take {ℓ} : {A : Type ℓ} → ℕ → List A → List A
take zero xs = []
take (suc n) [] = []
take (suc n) (x ∷ xs) = x ∷ take n xs

-- `ORDER BY`, where `before x y` says that `x` comes strictly first.
unfoldable pub insert_by {ℓ} : {A : Type ℓ} → (A → A → Bool) → A → List A → List A
insert_by before x [] = x ∷ []
insert_by before x (y ∷ ys) = if before y x then y ∷ insert_by before x ys else x ∷ y ∷ ys

unfoldable pub order_by {ℓ} : {A : Type ℓ} → (A → A → Bool) → List A → List A
unfolding insert_by
order_by before [] = []
order_by before (x ∷ xs) = insert_by before x (order_by before xs)

-- `rows[Math.floor(Math.random() * rows.length)]`
abbrev pub pick_random {ℓ} : {A : Type ℓ} → (ℕ → ℕ) → List A → Option A
pick_random draw [] = none
pick_random draw (x ∷ xs) = get_elem? (x ∷ xs) (draw (length (x ∷ xs)))

-- `a ?? b`, where `b` is only asked for when there is no `a`.
abbrev pub or_else {ℓ} : {A : Type ℓ} → Option A → Option A → Option A
or_else none b = b
or_else (some a) b = some a

abbrev pub free_of : List String → Option String → Bool
free_of blocked none = true
free_of blocked (some group) = not (includes group blocked)

abbrev pub is_group : String → Option String → Bool
is_group group none = false
is_group group (some own) = own == group

abbrev count_of : BehavioralPattern → List (BehavioralPattern × ℕ) → ℕ
count_of pattern [] = 0
count_of pattern ((p, n) ∷ counts) = if pattern_eq p pattern then n else count_of pattern counts

abbrev pub lowest_pattern :
    List (BehavioralPattern × ℕ) → BehavioralPattern → List BehavioralPattern → BehavioralPattern
lowest_pattern counts lowest [] = lowest
lowest_pattern counts lowest (pattern ∷ patterns) =
    lowest_pattern counts
      (if ltb (count_of pattern counts) (count_of lowest counts) then pattern else lowest) patterns

abbrev same_pattern : Option BehavioralPattern → Option BehavioralPattern → Bool
same_pattern none own = true
same_pattern (some wanted) none = false
same_pattern (some wanted) (some own) = pattern_eq own wanted

module _ {R : Type 0} where
  -- Ties keep the order of the catalogue.
  unfoldable pub least_used_pattern : ModuleRunState R → BehavioralPattern
  least_used_pattern state =
      lowest_pattern state.pattern_counts situational (forced_choice ∷ trade_off ∷ ranking ∷ [])

  abbrev pub mentions : String → Option (PersonalityQuestionDetails R) → Bool
  mentions key none = false
  mentions key (some details) =
      any (λ (o : PersonalityOption R). includes key (entry_keys o.trait_weights)) details.options

  abbrev pub aims_at : Option String → StoredQuestion R → Bool
  aims_at none q = true
  aims_at (some key) q = if key == "" then true else mentions key q.personality_details

  abbrev pub is_legacy : Option (PersonalityQuestionDetails R) → Bool
  is_legacy none = false
  is_legacy (some details) = is_null details.pattern

  abbrev pub is_behavioral : Option BehavioralPattern → Option (PersonalityQuestionDetails R) → Bool
  is_behavioral wanted none = false
  is_behavioral wanted (some details) =
      not (is_null details.pattern) && same_pattern wanted details.pattern

  abbrev times_used : Option (PersonalityQuestionDetails R) → ℕ
  times_used none = 0
  times_used (some details) = details.times_used

  abbrev pub used_less : StoredQuestion R → StoredQuestion R → Bool
  used_less p q = ltb (times_used p.personality_details) (times_used q.personality_details)

module _ {R : Type 0} ⦃num : Num R⦄ where
  abbrev lowest_trait : ModuleRunState R → String → R → List String → String
  lowest_trait state lowest confidence [] = lowest
  lowest_trait state lowest confidence (key ∷ keys) =
      let own : R = trait_confidence (lookup key state.trait_tallies) in
      let less : Bool = num.lt own confidence in
      lowest_trait state (if less then key else lowest) (if less then own else confidence) keys

  abbrev lowest_of : ModuleRunState R → List String → Option String
  lowest_of state [] = none
  lowest_of state (key ∷ keys) = some (lowest_trait state key num.infinity (key ∷ keys))

  unfoldable pub least_covered_trait : ModuleRunState R → Option String
  unfolding trait_confidence lookup
  least_covered_trait state = lowest_of state (trait_keys state)

  -- `ABS(d."difficultyScore" - :ability)`
  unfoldable pub distance_to : R → McqQuestionDetails R → R
  unfolding negate
  distance_to ability details =
      let gap : R = num.minus details.difficulty_score ability in
      if num.lt gap (num.of_ℕ 0) then negate gap else gap

  abbrev pub closer_details : R → McqQuestionDetails R → McqQuestionDetails R → Bool
  closer_details ability a b =
      num.lt (distance_to ability a) (distance_to ability b)
      || (not (num.lt (distance_to ability b) (distance_to ability a))
          && ltb a.times_used b.times_used)

  -- The rows of the join with `mcq_question_details`.
  abbrev pub join_row :
      StoredQuestion R
      → Option (McqQuestionDetails R)
      → List (StoredQuestion R × McqQuestionDetails R)
      → List (StoredQuestion R × McqQuestionDetails R)
  join_row q none rows = rows
  join_row q (some details) rows = (q, details) ∷ rows

  abbrev pub with_details : List (StoredQuestion R) → List (StoredQuestion R × McqQuestionDetails R)
  with_details [] = []
  with_details (q ∷ qs) = join_row q q.mcq_details (with_details qs)

  abbrev pub closer :
      R → StoredQuestion R × McqQuestionDetails R → StoredQuestion R × McqQuestionDetails R → Bool
  closer ability (p, a) (q, b) = closer_details ability a b

  -- The five rows that an objective module draws from.
  unfoldable pub shortlist :
      R → List (StoredQuestion R) → List (StoredQuestion R × McqQuestionDetails R)
  unfolding order_by distance_to
  shortlist ability rows =
      take selector_shortlist_size (order_by (closer (num.round ability)) (with_details rows))

module _ {R : Type 0} ⦃num : Num R⦄ (bank : List (StoredQuestion R)) (in_pool : ℕ → ℕ → Bool)
    (draw : Site → ℕ → ℕ) (legacy_turn : Bool) where
  unfoldable pub passes : ModuleRunState R → Bool → StoredQuestion R → Bool
  unfolding visible_to_org includes blocked_groups
  passes state probe_only q =
      q.module_id == state.module_id
      && (is_active q.status
          && (visible_to_org state.organisation_id bank q
              && (is_servable q
                  && ((if state.pool_restricted then in_pool state.assessment_id q.id else true)
                      && ((if probe_only then not (is_null q.probe_group) else true)
                          && (not (includes q.id state.seen_question_ids)
                              && free_of (blocked_groups state) q.probe_group))))))

  unfoldable pub base_query : ModuleRunState R → Bool → List (StoredQuestion R)
  unfolding passes
  base_query state probe_only = filter (passes state probe_only) bank

  abbrev pub due_query : ModuleRunState R → String → List (StoredQuestion R)
  due_query state group =
      take selector_shortlist_size
        (filter (λ (q : StoredQuestion R). is_group group q.probe_group) (base_query state false))

  abbrev pub due_of : ModuleRunState R → Option String → Option (StoredQuestion R)
  due_of state none = none
  due_of state (some group) = pick_random (draw twin) (due_query state group)

  unfoldable pub select_due_twin : ModuleRunState R → Option (StoredQuestion R)
  unfolding due_twin base_query
  select_due_twin state = due_of state (due_twin state)

  abbrev pub row_of : Option (StoredQuestion R × McqQuestionDetails R) → Option (StoredQuestion R)
  row_of none = none
  row_of (some (q, details)) = some q

  unfoldable pub select_objective : ModuleRunState R → Bool → Option (StoredQuestion R)
  unfolding base_query shortlist
  select_objective state probe_only = row_of (
      pick_random (draw (closest probe_only))
        (shortlist state.ability (base_query state probe_only)))

  unfoldable pub behavioral_query :
      ModuleRunState R → Option String → Option BehavioralPattern → Bool → List (StoredQuestion R)
  unfolding base_query order_by
  behavioral_query state aim pattern probe_only = take selector_shortlist_size (
      order_by used_less (
        filter
          (λ (q : StoredQuestion R). is_behavioral pattern q.personality_details && aims_at aim q)
          (base_query state probe_only)))

  unfoldable pub pick_behavioral :
      ModuleRunState R → Option String → Bool → Option (StoredQuestion R)
  unfolding behavioral_query least_used_pattern
  pick_behavioral state aim probe_only =
      or_else
        (pick_random (draw (behavioral probe_only (not (is_null aim)) true))
          (behavioral_query state aim (some (least_used_pattern state)) probe_only))
        (pick_random (draw (behavioral probe_only (not (is_null aim)) false))
          (behavioral_query state aim none probe_only))

  unfoldable pub legacy_query : ModuleRunState R → Option String → List (StoredQuestion R)
  unfolding base_query order_by
  legacy_query state aim = take selector_shortlist_size (
      order_by used_less (
        filter (λ (q : StoredQuestion R). is_legacy q.personality_details && aims_at aim q)
          (base_query state false)))

  unfoldable pub pick_legacy : ModuleRunState R → Bool → Option (StoredQuestion R)
  unfolding legacy_query least_covered_trait
  pick_legacy state late =
      or_else
        (pick_random (draw (legacy late true)) (legacy_query state (least_covered_trait state)))
        (pick_random (draw (legacy late false)) (legacy_query state none))

  abbrev pub aimed : ModuleRunState R → Bool → Option String → Option (StoredQuestion R)
  aimed state probe_only none = none
  aimed state probe_only (some key) =
      if key == "" then none else pick_behavioral state (some key) probe_only

  unfoldable pub select_trait : ModuleRunState R → Bool → Option (StoredQuestion R)
  unfolding pick_legacy pick_behavioral least_covered_trait
  select_trait state probe_only =
      or_else (if not probe_only && legacy_turn then pick_legacy state false else none) (
        or_else (aimed state probe_only (least_covered_trait state)) (
          or_else (pick_behavioral state none probe_only)
            (if probe_only then none else pick_legacy state true)))

  abbrev pub select_by : ScoringType → ModuleRunState R → Bool → Option (StoredQuestion R)
  select_by objective state probe_only = select_objective state probe_only
  select_by trait state probe_only = select_trait state probe_only

  unfoldable pub select_id : ModuleRunState R → Bool → Option (StoredQuestion R)
  unfolding select_objective select_trait
  select_id state probe_only = select_by state.scoring_type state probe_only

  unfoldable pub select_probe_opener : ModuleRunState R → Option (StoredQuestion R)
  unfolding wants_new_pair select_id
  select_probe_opener state = if wants_new_pair state then select_id state true else none

  -- The row whose id is selected.
  unfoldable pub select_row : ModuleRunState R → Option (StoredQuestion R)
  unfolding select_due_twin select_probe_opener select_id
  select_row state =
      or_else (select_due_twin state) (or_else (select_probe_opener state) (select_id state false))

  -- `findOne({ where: { id } })`
  abbrev pub load_by_id : Option (StoredQuestion R) → Option (Question R)
  load_by_id none = none
  load_by_id (some q) = elim (find (λ (r : StoredQuestion R). r.id == q.id) bank) [
    | none ↦ none
    | some r ↦ some r.question
  ]

  unfoldable pub select_next : ModuleRunState R → Option (Question R)
  unfolding select_row
  select_next state = load_by_id (select_row state)
