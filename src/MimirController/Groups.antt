-- ===== src/MimirController/Groups.antt =====
-- The three calls of Mimir's ruler in internal/helpers/mimirtool_helper.go, which nothing calls.
use osko.Prelude.{String, Bool, Option, some, none, ◌⊎◌, inl, inr, if◌then◌else◌}
use osko.Errors.{GoError}
use osko.Api.Monitoring.{PrometheusRule}
use osko.MimirController.Ruler.{MimirOperator, RulerGroup, mimir_rule_namespace}

-- A pointer to a group, nil where the client has answered an error.
abbrev without_error : {A : Type 0} → GoError ⊎ A → Option A
without_error (inl e) = none
without_error (inr a) = some a

module _ (M : MimirOperator) where
  abbrev Group : Type 0
  Group = RulerGroup M.operator.runtime.Duration

  -- GetMimirRuleGroup, with GetRuleGroup of the client
  unfoldable pub get_mimir_rule_group :
      (M.Handle
        → String
        → String
        → M.operator.client.State
        → (GoError ⊎ Group) × M.operator.client.State)
      → M.Handle
      → PrometheusRule
      → M.operator.client.State
      → Option Group × M.operator.client.State
  get_mimir_rule_group get handle rule s =
      let (r, t) = get handle mimir_rule_namespace rule.meta.name s in (without_error r, t)

  -- DeleteMimirRuleGroup
  unfoldable pub delete_mimir_rule_group :
      M.Handle → Group → M.operator.client.State → Option GoError × M.operator.client.State
  delete_mimir_rule_group handle group s =
      M.delete_rule_group handle mimir_rule_namespace group.name s

  -- UpdateMimirRuleGroup, with the comparison of two groups. It takes the existing group away, and
  -- does not make the desired one.
  unfoldable pub update_mimir_rule_group :
      (Group → Group → Bool)
      → M.Handle
      → Group
      → Group
      → M.operator.client.State
      → Option GoError × M.operator.client.State
  update_mimir_rule_group equal handle existing desired s =
      let deleted = delete_mimir_rule_group handle existing s in
      if equal existing desired then (none, s) else deleted
