-- ===== src/Engine/Probe/Blocking.antt =====
-- Which probe groups may be served, and when a twin is due.
use adaptive_hire_exam_platf.Common.{
  ℕ, ◌+◌, ◌≤◌, ◌<◌, ◌≡◌, ◌≢◌, ◌↔◌, List, [], ◌∷◌, ◌++◌, map, some, true, false, ◌&&◌, String, arith,
  Bool-cases, inl, inr, ◌⊎◌, any, ◌+◌,
}
use adaptive_hire_exam_platf.Common.Equality.{
  string_eq, includes, includes-delete, includes-distinct, includes-append,
}
use adaptive_hire_exam_platf.Engine.Constants.{probe_gap_questions}
use adaptive_hire_exam_platf.Engine.Types.{ModuleRunState, ProbePair}
use adaptive_hire_exam_platf.Engine.Probe.{
  due_in, due_twin, touched_groups, blocked_groups, is_open, is_open_for, is_due, group_or_empty,
}

module _ {R : Type 0} where
  -- The oldest open pair whose gap has passed: every pair before it is closed or still in its gap.
  pub data IsDue (answered : ℕ) (group : String) : List (ProbePair R) → Type 0 where
    here :
        {pair : ProbePair R} {pairs : List (ProbePair R)}
        → pair.group ≡ group
        → is_open pair ≡ true
        → pair.asked_at_answered + probe_gap_questions ≤ answered
        → IsDue answered group (pair ∷ pairs)
    later :
        {pair : ProbePair R} {pairs : List (ProbePair R)}
        → (is_open pair ≡ true → answered < pair.asked_at_answered + probe_gap_questions)
        → IsDue answered group pairs
        → IsDue answered group (pair ∷ pairs)

  due_in-IsDue :
      (answered : ℕ) (group : String) (pairs : List (ProbePair R))
      → due_in answered pairs ≡ some group
      → IsDue answered group pairs
  unfolding due_in
  due_in-IsDue answered group [] h = cc
  due_in-IsDue answered group (pair ∷ pairs) h =
      elim (Bool-cases (is_open pair && is_due answered pair)) [
        | inl due ↦ here (ground arith) (ground arith) (ground arith)
        | inr wait ↦ later (ground arith) (due_in-IsDue answered group pairs (ground arith))
      ]

  due_in_complete :
      {answered : ℕ} {group : String} {pairs : List (ProbePair R)}
      → IsDue answered group pairs
      → due_in answered pairs ≡ some group
  unfolding due_in
  due_in_complete (here e o g) = ground arith
  due_in_complete (later w d) = ground (arith, due_in_complete d)

  -- `dueTwin` returns a group exactly if that is the group of the first pair, in the order of
  -- opening, that is open and was asked at least eight answers ago.
  pub due_twin_iff :
      (state : ModuleRunState R) (group : String)
      → (due_twin state ≡ some group) ↔ IsDue state.answered group state.probes
  unfolding due_twin
  due_twin_iff state group = (due_in-IsDue state.answered group state.probes, due_in_complete)

  -- A group is blocked exactly if the module has touched it (served a question of it, or opened a
  -- pair for it) and it is not the group whose twin is due. The empty text is no group.
  pub blocked_groups_iff :
      (state : ModuleRunState R) (group : String)
      → group ≢ ""
      → (includes group (blocked_groups state) ≡ true) ↔ (
          ((includes group state.served_probe_groups ≡ true)
            ⊎ (includes group (map (λ pair. pair.group) state.probes) ≡ true))
          × (due_twin state ≢ some group))
  unfolding blocked_groups touched_groups
  blocked_groups_iff state group named = ground (
    arith,
    includes-delete group (group_or_empty (due_twin state)) (touched_groups state),
    includes-distinct group (state.served_probe_groups ++ map (λ pair. pair.group) state.probes),
    includes-append group state.served_probe_groups (map (λ pair. pair.group) state.probes),
    string_eq.same_iff (group_or_empty (due_twin state)) group,
  )

  includes-any_open :
      (group : String) (pairs : List (ProbePair R))
      → any (is_open_for group) pairs ≡ true
      → includes group (map (λ pair. pair.group) pairs) ≡ true
  unfolding includes
  includes-any_open group [] h = h
  includes-any_open group (pair ∷ pairs) h = ground (
    arith,
    includes-any_open group pairs,
    string_eq.same_iff pair.group group,
    string_eq.same_iff group pair.group,
  )

  -- If a group, other than the empty text, is not blocked and has an open pair, its twin is due.
  pub unblocked-due :
      (state : ModuleRunState R) (group : String)
      → group ≢ ""
      → includes group (blocked_groups state) ≡ false
      → any (is_open_for group) state.probes ≡ true
      → due_twin state ≡ some group
  unfolding blocked_groups touched_groups
  unblocked-due state group named free opened = ground (
    arith,
    includes-any_open group state.probes opened,
    includes-delete group (group_or_empty (due_twin state)) (touched_groups state),
    includes-distinct group (state.served_probe_groups ++ map (λ pair. pair.group) state.probes),
    includes-append group state.served_probe_groups (map (λ pair. pair.group) state.probes),
    string_eq.same_iff (group_or_empty (due_twin state)) group,
  )
