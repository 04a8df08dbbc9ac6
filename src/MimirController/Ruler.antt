-- ===== src/MimirController/Ruler.antt =====
-- The client of Mimir's ruler, and the calls of the reconciler that put a rule group there and
-- take it away.
use osko.Prelude.{String, Option, some, none, ◌⊎◌, inl, inr, List, [], ◌∷◌, ◌==◌, if◌then◌else◌}
use osko.Map.{Map}
use osko.Errors.{GoError, Result}
use osko.Api.Osko.{ConnectionDetails, MimirRuleNode, MimirRuleGroup}
use osko.Cluster.{Operator}

-- yaml.Node of gopkg.in/yaml.v3, with its kind and value.
pub data YamlNode : Type 0 where
  no_node : YamlNode
  scalar : String → YamlNode

-- rulefmt.RuleNode of Prometheus
pub record RuleNode (D : Type 0) : Type 0 where
  pub record_node : YamlNode
  pub alert : YamlNode
  pub expr : YamlNode
  pub for_duration : D
  pub labels : Map String

-- rwrulefmt.RuleGroup of Mimir
pub record RulerGroup (D : Type 0) : Type 0 where
  pub name : String
  pub rules : List (RuleNode D)
  pub source_tenants : List String

-- The reconciler of MimirRules: an operator, with Mimir's state as a part of the state that the
-- calls move.
pub record MimirOperator : Type 1 where
  pub operator : Operator
  pub Handle : Type 0
  -- mimirclient.New, of an address and a tenant
  pub new_client : String → String → Result Handle
  -- CreateRuleGroup and DeleteRuleGroup of a client, in a namespace
  pub create_rule_group :
      Handle
      → String
      → RulerGroup operator.runtime.Duration
      → operator.client.State
      → Option GoError × operator.client.State
  pub delete_rule_group :
      Handle → String → String → operator.client.State → Option GoError × operator.client.State
  -- model.ParseDuration of github.com/prometheus/common
  pub parse_model_duration : String → GoError ⊎ operator.runtime.Duration
  pub requeue_after_period : operator.runtime.Duration

abbrev pub mimir_rule_namespace : String
mimir_rule_namespace = "osko"

module _ (M : MimirOperator) where
  -- newMimirClient, with NewMimirClient of mimirtool_helper.go.
  unfoldable pub new_mimir_client : ConnectionDetails → Result M.Handle
  new_mimir_client details = M.new_client details.address details.target_tenant

  abbrev alert_node :
      MimirRuleNode → M.operator.runtime.Duration → RuleNode M.operator.runtime.Duration
  alert_node r d = record {
    record_node = no_node;
    alert = scalar r.alert;
    expr = scalar r.expr;
    for_duration = d;
    labels = r.labels;
  }

  -- The alert with its duration, unless the duration is refused.
  timed_node :
      MimirRuleNode
      → GoError ⊎ M.operator.runtime.Duration
      → Option (RuleNode M.operator.runtime.Duration)
  timed_node r (inl e) = none
  timed_node r (inr d) = some (alert_node r d)

  -- One round of the loop; `none` is the return on a duration that is refused. A duration that is
  -- not set is the zero duration.
  unfoldable pub ruler_node : MimirRuleNode → Option (RuleNode M.operator.runtime.Duration)
  unfolding timed_node
  ruler_node r =
      if r.alert == ""
      then some (record {
        record_node = scalar r.record_name;
        alert = no_node;
        expr = scalar r.expr;
        for_duration = M.operator.runtime.seconds 0;
        labels = r.labels;
      })
      else elim r.for_duration [
        | some d ↦ timed_node r (M.parse_model_duration d)
        | none ↦ some (alert_node r (M.operator.runtime.seconds 0))
      ]

  both_nodes :
      Option (RuleNode M.operator.runtime.Duration)
      → Option (List (RuleNode M.operator.runtime.Duration))
      → Option (List (RuleNode M.operator.runtime.Duration))
  both_nodes (some n) (some ns) = some (n ∷ ns)
  both_nodes _ _ = none

  unfoldable pub ruler_nodes :
      List MimirRuleNode → Option (List (RuleNode M.operator.runtime.Duration))
  unfolding both_nodes
  ruler_nodes [] = some []
  ruler_nodes (r ∷ rules) = both_nodes (ruler_node r) (ruler_nodes rules)

  -- createMimirRuleGroupAPI. A duration that is refused ends it without a call and without an
  -- error.
  unfoldable pub create_mimir_rule_group_api :
      M.Handle → MimirRuleGroup → M.operator.client.State → Option GoError × M.operator.client.State
  create_mimir_rule_group_api handle group s = elim (ruler_nodes group.rules) [
    | none ↦ (none, s)
    | some nodes ↦
        M.create_rule_group handle mimir_rule_namespace
          (record { name = group.name; rules = nodes; source_tenants = group.source_tenants }) s
  ]

  -- deleteMimirRuleGroupAPI
  unfoldable pub delete_mimir_rule_group_api :
      M.Handle → String → M.operator.client.State → Option GoError × M.operator.client.State
  delete_mimir_rule_group_api handle name s = M.delete_rule_group handle mimir_rule_namespace name s
