-- ===== src/MimirController.antt =====
-- internal/controller/osko/mimirrule_controller.go: the reconciler that uploads the groups of a
-- PrometheusRule to Mimir's ruler.
pub mod Ruler
pub mod Groups
pub mod Equal
pub mod Retry
pub mod Deletion
pub mod Upload
pub mod Create
pub mod Laws
pub mod Uploaded
pub mod Held
pub mod Tenancy
pub mod Returns
pub mod Namesakes
use osko.Prelude.{Option, some, none, Bool, true, false, if◌then◌else◌}
use osko.Errors.{GoError, Result, api}
use osko.Api.Meta.{NamespacedName}
use osko.Api.Monitoring.{PrometheusRule}
use osko.Api.Osko.{MimirRule, MimirRuleGroup}
use osko.Cluster.{Reply, found, failed}
use osko.Cluster.Steps.{
  Step, ◌>>=◌, ◌>>◌, call, pure, fail_transient, finished, tested, is_not_found,
}
use osko.Mimir.{new_mimir_rule_groups}
use osko.MimirController.Ruler.{MimirOperator, new_mimir_client}
use osko.MimirController.Retry.{Act}
use osko.MimirController.Deletion.{handle_deletion}
use osko.MimirController.Upload.{failed_step, upload}
use osko.MimirController.Create.{create_missing_mimir_rule}

module _ (M : MimirOperator) where
  got : {A : Type 0} → Reply A → Act M A
  got (found a) = pure a
  got (failed e) = if is_not_found e then finished else fail_transient (some (api e))

  unfoldable pub get_mimir_prometheus_rule : NamespacedName → Act M PrometheusRule
  unfolding got
  get_mimir_prometheus_rule req = do r ← call (M.operator.client.prometheus_rules.get req); got r

  unfoldable pub get_uploaded_rule : NamespacedName → Act M MimirRule
  unfolding got
  get_uploaded_rule req = do r ← call (M.operator.client.mimir_rules.get req); got r

  -- Reconcile. `err` is nil where it is tested for IsNotFound, since every error has returned
  -- before.
  unfoldable pub reconcile_mimir_rule : NamespacedName → Act M (Unit {0})
  reconcile_mimir_rule req = do
    rule ← get_mimir_prometheus_rule req
    mimir ← get_uploaded_rule req
    c ← tested (new_mimir_client M mimir.spec.connection_details)
    handle ← failed_step M c
    g ← tested (new_mimir_rule_groups M.operator.runtime rule mimir.spec.connection_details)
    groups ← failed_step M g
    handle_deletion M handle req rule mimir groups
    create_missing_mimir_rule M req none rule mimir
    upload M handle req rule mimir groups
