-- ===== src/Examples/Conditions.antt =====
-- Conditions of a resource.
use osko.Prelude.{String, refl, List, [], ◌∷◌}
use osko.Api.Meta.{Condition}
use osko.Status.{update_condition, find_condition}
use osko.Status.Laws.{OnePerType, update_condition-OnePerType}

abbrev condition : String → String → Condition
condition type status = record {
  type = type;
  status = status;
  reason = status;
  message = "";
  last_transition_time = 1;
}

abbrev before : List Condition
before = condition "Ready" "False" ∷ condition "Synced" "True" ∷ []

update_condition-OnePerType_example :
    OnePerType (update_condition 7 before (condition "Ready" "True"))
unfolding find_condition
update_condition-OnePerType_example =
    update_condition-OnePerType 7 before (condition "Ready" "True") (refl, (refl, tt))
