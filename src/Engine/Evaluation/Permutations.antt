-- ===== src/Engine/Evaluation/Permutations.antt =====
-- `permutations` of backend/src/adaptive-engine/evaluation/evaluation.service.ts.
use adaptive_hire_exam_platf.Common.{
  ℕ, zero, suc, List, [], ◌∷◌, ◌++◌, map, length, leb, if◌then◌else◌,
}

module _ {A : Type 0} where
  abbrev pub put_back : A → A × List A → A × List A
  put_back x (y, rest) = (y, x ∷ rest)

  -- `items[i]` with `[...items.slice(0, i), ...items.slice(i + 1)]`, for each `i` in turn.
  unfoldable pub picks : List A → List (A × List A)
  picks [] = []
  picks (x ∷ xs) = (x, xs) ∷ map (put_back x) (picks xs)

  -- The loops of one call, where `recur` is the recursive call.
  unfoldable pub prefix_all : (List A → List (List A)) → List (A × List A) → List (List A)
  prefix_all recur [] = []
  prefix_all recur ((x, rest) ∷ more) =
      map (λ others. x ∷ others) (recur rest) ++ prefix_all recur more

  unfoldable pub permutations_within : ℕ → List A → List (List A)
  unfolding picks prefix_all
  permutations_within zero items = items ∷ []
  permutations_within (suc fuel) items =
      if leb (length items) 1
      then items ∷ []
      else prefix_all (permutations_within fuel) (picks items)

  -- Each level of the recursion drops one item, so the number of items is enough fuel.
  unfoldable pub permutations : List A → List (List A)
  unfolding permutations_within
  permutations items = permutations_within (length items) items
