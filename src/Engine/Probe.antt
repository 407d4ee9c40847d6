-- ===== src/Engine/Probe.antt =====
-- backend/src/adaptive-engine/consistency-probe/consistency-probe.service.ts: repeat probes.
-- A method that mutates the module state returns the new state.
pub mod Comparison
pub mod Blocking
pub mod Pairs
use adaptive_hire_exam_platf.Common.{
  ℕ, ◌+◌, ◌-◌, List, [], ◌∷◌, ◌++◌, map, Option, none, some, Bool, true, false, not, ◌&&◌, String,
  leb, ltb, if◌then◌else◌, any, filter, length,
}
use adaptive_hire_exam_platf.Common.Equality.{◌==◌, string_eq, includes, delete, distinct}
use adaptive_hire_exam_platf.Engine.Numbers.{Num, round2}
use adaptive_hire_exam_platf.Engine.Constants.{probe_gap_questions, probe_max_pairs}
use adaptive_hire_exam_platf.Engine.Dict.{Dict}
use adaptive_hire_exam_platf.Engine.Types.{
  ModuleRunState, ProbePair, ProbeSignature, unanswered, outcome, weights, ProbeResults,
  ScoringType, objective, trait,
}
use Comparison.{Compared, compare, mean}

abbrev pub is_none {ℓ} : {A : Type ℓ} → Option A → Bool
is_none none = true
is_none (some a) = false

-- `value === true`
abbrev pub is_true : Option Bool → Bool
is_true none = false
is_true (some b) = b

-- `due ?? ''`
abbrev pub group_or_empty : Option String → String
group_or_empty none = ""
group_or_empty (some g) = g

-- Mutates the element that `find` returns.
unfoldable pub update_first {ℓ} : {A : Type ℓ} → (A → Bool) → (A → A) → List A → List A
update_first test f [] = []
update_first test f (x ∷ xs) = if test x then f x ∷ xs else x ∷ update_first test f xs

module _ {R : Type 0} where
  abbrev pub is_unanswered : ProbeSignature R → Bool
  is_unanswered unanswered = true
  is_unanswered (outcome is_correct) = false
  is_unanswered (weights ws) = false

  -- `pair.secondQuestionId === null`
  abbrev pub is_open : ProbePair R → Bool
  is_open pair = is_none pair.second_question_id

  abbrev pub is_due : ℕ → ProbePair R → Bool
  is_due answered pair = leb (pair.asked_at_answered + probe_gap_questions) answered

  -- The loop of `dueTwin`.
  unfoldable pub due_in : ℕ → List (ProbePair R) → Option String
  due_in answered [] = none
  due_in answered (pair ∷ pairs) =
      if is_open pair && is_due answered pair then some pair.group else due_in answered pairs

  unfoldable pub due_twin : ModuleRunState R → Option String
  unfolding due_in
  due_twin state = due_in state.answered state.probes

  -- `new Set([...servedProbeGroups, ...probes.map((pair) => pair.group)])`
  unfoldable pub touched_groups : ModuleRunState R → List String
  unfolding distinct
  touched_groups state =
      distinct (state.served_probe_groups ++ map (λ pair. pair.group) state.probes)

  unfoldable pub blocked_groups : ModuleRunState R → List String
  unfolding due_twin touched_groups delete
  blocked_groups state = delete (group_or_empty (due_twin state)) (touched_groups state)

  unfoldable pub mark_served : ModuleRunState R → String → ModuleRunState R
  unfolding includes
  mark_served state group =
      if includes group state.served_probe_groups
      then state
      else record state { served_probe_groups = state.served_probe_groups ++ group ∷ [] }

  unfoldable pub can_open_pair : ModuleRunState R → Bool
  can_open_pair state =
      if leb probe_max_pairs (length state.probes)
      then false
      else ltb (state.answered + probe_gap_questions) state.question_count

  unfoldable pub wants_new_pair : ModuleRunState R → Bool
  unfolding can_open_pair
  wants_new_pair state = if not (can_open_pair state) then false else not (any is_open state.probes)

  abbrev pub opening : ModuleRunState R → String → ℕ → ℕ → ProbeSignature R → ProbePair R
  opening state group question_id sequence_number signature = record {
    group = group;
    first_question_id = question_id;
    first_sequence = sequence_number;
    first = signature;
    asked_at_answered = state.answered;
    second_question_id = none;
    second_sequence = none;
    second = none;
    agreement = none;
    flipped = none;
    divergent_traits = [];
  }

  -- `pair.group === group && pair.secondQuestionId === null`
  abbrev pub is_open_for : String → ProbePair R → Bool
  is_open_for group pair = pair.group == group && is_open pair

module _ {R : Type 0} ⦃num : Num R⦄ where
  unfoldable pub close : ℕ → ℕ → ProbeSignature R → ProbePair R → ProbePair R
  unfolding compare
  close question_id sequence_number signature pair = record pair {
    second_question_id = some question_id;
    second_sequence = some sequence_number;
    second = some signature;
    agreement = compared.agreement;
    flipped = compared.flipped;
    divergent_traits = compared.divergent_traits;
  }
    where
      compared : Compared R
      compared = compare pair.first signature

  -- `record`
  unfoldable pub record_probe :
      ModuleRunState R → String → ℕ → ℕ → ProbeSignature R → ModuleRunState R
  unfolding close update_first can_open_pair
  record_probe state group question_id sequence_number signature =
      if any (is_open_for group) state.probes
      then record state {
        probes =
            update_first (is_open_for group) (close question_id sequence_number signature)
              state.probes;
      }
      else if is_unanswered signature
      then state
      else if can_open_pair state
      then record state {
        probes = state.probes ++ opening state group question_id sequence_number signature ∷ [];
      }
      else state

  abbrev measured_with : Option R → List R → List R
  measured_with none rs = rs
  measured_with (some r) rs = r ∷ rs

  -- The agreements of the pairs that closed comparably.
  unfoldable pub measured : List (ProbePair R) → List R
  measured [] = []
  measured (pair ∷ pairs) = measured_with pair.agreement (measured pairs)

  unfoldable pub results : ModuleRunState R → Option (ProbeResults R)
  unfolding measured mean round2
  results state = elim state.probes [
    | [] ↦ none
    | _ ∷ _ ↦ some (record {
      pairs = state.probes;
      agreement = elim (measured state.probes) [
        | [] ↦ none
        | r ∷ rs ↦ some (round2 (mean (r ∷ rs)))
      ];
      resolved = length (measured state.probes);
      unresolved = length state.probes - length (measured state.probes);
    })
  ]

module _ {R : Type 0} where
  unfoldable pub signature : ScoringType → Option Bool → Dict R → Bool → ProbeSignature R
  signature scoring_type is_correct trait_weights false = unanswered
  signature objective is_correct trait_weights true = outcome (is_true is_correct)
  signature trait is_correct trait_weights true = weights trait_weights
