-- ===== src/PrometheusRuleController.antt =====
-- internal/controller/monitoring.coreos.com/prometheusrule_controller.go: the reconciler of a
-- PrometheusRule, from its steps.
pub mod Equal
pub mod Fetch
pub mod Update
pub mod Laws
pub mod Tenancy
pub mod Unmade
pub mod Inline
use osko.Prelude.{Option}
use osko.Errors.{ApiError}
use osko.Api.Meta.{NamespacedName}
use osko.Api.OpenSlo.{Slo, Sli}
use osko.Api.Monitoring.{PrometheusRule}
use osko.Cluster.{Operator}
use osko.Cluster.Steps.{◌>>=◌, ◌>>◌}
use osko.SloController.Fetch.{Act}
use Fetch.{fetch_rule, fetch_owner, check_managed, fetch_sli}
use Update.{create_missing, update_rule}

module _ (O : Operator) where
  -- From the SLI on.
  unfoldable pub build_rule :
      NamespacedName → PrometheusRule → Slo → Option ApiError × Sli → Act O (Unit {0})
  build_rule req rule slo (err, sli) = do
    kept ← create_missing O req err rule slo sli
    update_rule O req kept sli

  -- From the owner on.
  unfoldable pub reconcile_rule :
      NamespacedName → Option ApiError × PrometheusRule → Act O (Unit {0})
  reconcile_rule req (err, rule) = do
    slo ← fetch_owner O req rule.meta.owner_references
    check_managed O rule slo
    sli ← fetch_sli O err slo
    build_rule req rule slo sli

  -- Reconcile
  unfoldable pub reconcile_prometheus_rule : NamespacedName → Act O (Unit {0})
  reconcile_prometheus_rule req = do rule ← fetch_rule O req; reconcile_rule req rule
