-- ===== src/Engine/Dict.antt =====
-- JavaScript objects used as maps: association lists in insertion order.
use adaptive_hire_exam_platf.Common.{List, [], ◌∷◌, map, Option, none, some, String, if◌then◌else◌}
use adaptive_hire_exam_platf.Common.Equality.{◌==◌, string_eq}

-- A JavaScript object used as a map.
abbrev pub Dict {ℓ} : Type ℓ → Type ℓ
Dict V = List (String × V)

unfoldable pub lookup {ℓ} : {V : Type ℓ} → String → Dict V → Option V
lookup k [] = none
lookup k ((j, v) ∷ dict) = if j == k then some v else lookup k dict

-- `(dict[key] ??= start)`, and then the entry is changed in place.
unfoldable pub update_entry {ℓ} : {V : Type ℓ} → String → V → (V → V) → Dict V → Dict V
update_entry key start f [] = (key, f start) ∷ []
update_entry key start f ((k, v) ∷ dict) =
    if k == key then (k, f v) ∷ dict else (k, v) ∷ update_entry key start f dict

abbrev pub entry_keys {ℓ} : {V : Type ℓ} → Dict V → List String
entry_keys dict = map (λ entry. entry.0) dict

-- `dict[key] = value`
abbrev pub set_entry {ℓ} : {V : Type ℓ} → String → V → Dict V → Dict V
set_entry key value = update_entry key value (λ _. value)

abbrev pub entry_values {ℓ} : {V : Type ℓ} → Dict V → List V
entry_values dict = map (λ entry. entry.1) dict
