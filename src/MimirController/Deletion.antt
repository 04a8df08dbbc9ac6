-- ===== src/MimirController/Deletion.antt =====
-- A MimirRule that is being deleted: its groups are taken from Mimir, and then the finalizers from
-- it and from its PrometheusRule.
pub mod Tenancy
use osko.Prelude.{String, some, none, List, if◌then◌else◌}
use osko.Api.Meta.{ObjectMeta, NamespacedName}
use osko.Api.Monitoring.{PrometheusRule}
use osko.Api.Osko.{MimirRule, MimirRuleGroup}
use osko.Cluster.Steps.{◌>>=◌, ◌>>◌, pure, finished}
use osko.MimirController.Ruler.{MimirOperator, delete_mimir_rule_group_api}
use osko.Cluster.Retry.{retry, or_transient, remove_finalizer}
use osko.MimirController.Retry.{Act, ruler_calls}

abbrev pub mimir_rule_finalizer : String
mimir_rule_finalizer = "finalizer.osko.dev/mimir"

abbrev pub prometheus_rule_finalizer : String
prometheus_rule_finalizer = "finalizer.osko.dev/prometheusrule"

abbrev pub mimir_with_meta : MimirRule → ObjectMeta → MimirRule
mimir_with_meta m meta = record m { meta = meta }

abbrev pub rule_with_meta : PrometheusRule → ObjectMeta → PrometheusRule
rule_with_meta r meta = record r { meta = meta }

abbrev pub rule_key : PrometheusRule → NamespacedName
rule_key r = record { name = r.meta.name; namespace = r.meta.namespace }

module _ (M : MimirOperator) where
  unfoldable pub delete_groups : M.Handle → List MimirRuleGroup → Act M (Unit {0})
  delete_groups handle groups =
      ruler_calls M (λ g. delete_mimir_rule_group_api M handle g.name) groups

  unfoldable pub release_mimir_rule : NamespacedName → MimirRule → Act M (Unit {0})
  release_mimir_rule req mimir =
      if M.operator.util.contains_finalizer mimir.meta mimir_rule_finalizer
      then (do
        r ←
            retry M.operator
              (remove_finalizer M.operator.client.mimir_rules (λ m. m.meta) mimir_with_meta
                M.operator.util.remove_finalizer mimir_rule_finalizer req)
              mimir
        or_transient r
        pure tt)
      else pure tt

  unfoldable pub release_prometheus_rule : PrometheusRule → Act M (Unit {0})
  release_prometheus_rule rule =
      if M.operator.util.contains_finalizer rule.meta prometheus_rule_finalizer
      then (do
        r ←
            retry M.operator
              (remove_finalizer M.operator.client.prometheus_rules (λ m. m.meta) rule_with_meta
                M.operator.util.remove_finalizer prometheus_rule_finalizer (rule_key rule))
              rule
        or_transient r
        pure tt)
      else pure tt

  -- The finalizers are taken off.
  unfoldable pub release : NamespacedName → PrometheusRule → MimirRule → Act M (Unit {0})
  release req rule mimir = do release_mimir_rule req mimir; release_prometheus_rule rule; finished

  -- The path of a MimirRule that is marked for deletion.
  unfoldable pub clean_up :
      M.Handle
      → NamespacedName
      → PrometheusRule
      → MimirRule
      → List MimirRuleGroup
      → Act M (Unit {0})
  clean_up handle req rule mimir groups = do delete_groups handle groups; release req rule mimir

  unfoldable pub handle_deletion :
      M.Handle
      → NamespacedName
      → PrometheusRule
      → MimirRule
      → List MimirRuleGroup
      → Act M (Unit {0})
  handle_deletion handle req rule mimir groups = elim mimir.meta.deletion_timestamp [
    | some t ↦ clean_up handle req rule mimir groups
    | none ↦ pure tt
  ]
