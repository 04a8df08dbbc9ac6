-- ===== src/Status.antt =====
-- `updateCondition` and the condition that `UpdateStatus` writes (internal/utils/common_utils.go).
pub mod Laws
use osko.Prelude.{ℕ, String, Bool, Option, none, some, List, [], ◌∷◌, ◌++◌, ◌==◌, if◌then◌else◌}
use osko.Api.Meta.{Condition}

-- The first condition of a type.
unfoldable pub find_condition : String → List Condition → Option Condition
find_condition type [] = none
find_condition type (c ∷ cs) = if c.type == type then some c else find_condition type cs

-- The conditions of the other types.
unfoldable pub other_conditions : String → List Condition → List Condition
other_conditions type [] = []
other_conditions type (c ∷ cs) =
    let rest = other_conditions type cs in if c.type == type then rest else c ∷ rest

replace_condition : ℕ → List Condition → Condition → List Condition
replace_condition now conditions new =
    other_conditions new.type conditions ++ record new { last_transition_time = now } ∷ []

-- `now` is time.Now().
unfoldable pub update_condition : ℕ → List Condition → Condition → List Condition
unfolding replace_condition
update_condition now conditions new = elim (find_condition new.type conditions) [
  | some existing ↦
      (if existing.status == new.status then conditions else replace_condition now conditions new)
  | none ↦ replace_condition now conditions new
]

-- The condition that `UpdateStatus` builds from its arguments.
unfoldable pub new_condition : ℕ → String → String → String → Condition
new_condition now condition_type status message = record {
  type = condition_type;
  status = status;
  reason = status;
  message = message;
  last_transition_time = now;
}
