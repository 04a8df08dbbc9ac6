-- ===== src/SliController.antt =====
-- internal/controller/openslo: sli_controller.go, the reconciler of an SLI, which only looks
-- whether it is there, and the reconcilers of alert policies, conditions and notification targets.
pub mod Tenancy
pub mod Returns
use osko.Prelude.{if◌then◌else◌, some}
use osko.Errors.{api}
use osko.Api.Meta.{NamespacedName}
use osko.Api.OpenSlo.{Sli}
use osko.Cluster.{Reply, found, failed, Operator}
use osko.Cluster.Steps.{◌>>=◌, call, fail_transient, finished, is_not_found}
use osko.SloController.Fetch.{Act}

module _ (O : Operator) where
  sli_reply : Reply Sli → Act O (Unit {0})
  sli_reply (found sli) = finished
  sli_reply (failed e) = if is_not_found e then finished else fail_transient (some (api e))

  -- Reconcile
  unfoldable pub reconcile_sli : NamespacedName → Act O (Unit {0})
  unfolding sli_reply
  reconcile_sli req = do r ← call (O.client.slis.get req); sli_reply r

  -- The three Reconcile functions that do nothing yet.
  unfoldable pub reconcile_alert_policy : NamespacedName → Act O (Unit {0})
  reconcile_alert_policy req = finished

  unfoldable pub reconcile_alert_condition : NamespacedName → Act O (Unit {0})
  reconcile_alert_condition req = finished

  unfoldable pub reconcile_alert_notification_target : NamespacedName → Act O (Unit {0})
  reconcile_alert_notification_target req = finished
