-- ===== src/SloController.antt =====
-- internal/controller/openslo/slo_controller.go: the reconciler of an SLO, from its steps.
pub mod Fetch
pub mod Indicator
pub mod Rule
pub mod Mimir
pub mod Alerting
pub mod Laws
pub mod Dependencies
pub mod Safety
pub mod Returns
pub mod Tenancy
pub mod Watch
pub mod Phases
pub mod Converges
use osko.Prelude.{Option, some}
use osko.Errors.{api}
use osko.Api.Meta.{NamespacedName}
use osko.Api.OpenSlo.{Slo, Sli}
use osko.Api.Monitoring.{PrometheusRule}
use osko.Api.Osko.{Datasource}
use osko.Cluster.{Reply, found, failed, Operator, Outcome}
use osko.Cluster.Steps.{World, Step, ◌>>=◌, ◌>>◌, fail_transient, finished}
use Fetch.{Act, get_slo, handle_deletion, ensure_finalizer, get_datasource, update_slo_status}
use Indicator.{get_sli}
use Rule.{get_prometheus_rule}
use Mimir.{get_mimir_rule}
use Alerting.{magic_alerting}

module _ (O : Operator) where
  completed : Reply Slo → Act O (Unit {0})
  completed (failed e) = fail_transient (some (api e))
  completed (found slo) = finished

  unfoldable pub complete : Slo → Act O (Unit {0})
  unfolding completed
  complete slo = do r ← update_slo_status O slo "Ready" "True" "PrometheusRule created"; completed r

  -- From the SLI on.
  unfoldable pub reconcile_rules : Slo → Datasource → Sli → Act O (Unit {0})
  reconcile_rules slo ds sli = do
    rule ← get_prometheus_rule O slo sli
    get_mimir_rule O slo rule ds
    magic_alerting O slo ds
    complete slo

  -- From the datasource on, of an SLO that has the finalizer.
  unfoldable pub reconcile_live : Slo → Act O (Unit {0})
  reconcile_live slo = do ds ← get_datasource O slo; sli ← get_sli O slo; reconcile_rules slo ds sli

  -- Reconcile. It always ends by a return or a fault: `next` is left by no path.
  unfoldable pub reconcile : NamespacedName → Act O (Unit {0})
  reconcile req = do
    slo ← get_slo O req
    live ← handle_deletion O slo
    kept ← ensure_finalizer O live
    reconcile_live kept
