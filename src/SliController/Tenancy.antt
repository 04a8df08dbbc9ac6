-- ===== src/SliController/Tenancy.antt =====
-- The reconcilers of SLIs and of the alert resources write nothing.
use osko.Prelude.{String}
use osko.Api.Meta.{NamespacedName}
use osko.Api.OpenSlo.{Sli}
use osko.Cluster.{Reply, found, failed, Operator}
use osko.Cluster.Steps.{is_not_found}
use osko.Cluster.Tenancy.{Keeps, Keeps-finish, Keeps-bind, Keeps-if, get-Keeps, Any, Tenancy}
use osko.SliController.{
  sli_reply, reconcile_sli, reconcile_alert_policy, reconcile_alert_condition,
  reconcile_alert_notification_target,
}

module _ {O : Operator} {P : O.client.State → Type 0} {Here : String → Type 0}
    (T : Tenancy O P Here) where
  sli_reply-Keeps : (r : Reply Sli) → Keeps P Any (sli_reply O r)
  unfolding sli_reply
  sli_reply-Keeps (found sli) = Keeps-finish _
  sli_reply-Keeps (failed e) = Keeps-if (is_not_found e) (Keeps-finish _) (Keeps-finish _)

  pub reconcile_sli-Keeps :
      (req : NamespacedName) → Here req.namespace → Keeps P Any (reconcile_sli O req)
  unfolding reconcile_sli
  reconcile_sli-Keeps req here = Keeps-bind (get-Keeps T.slis req here) λ r h. sli_reply-Keeps r

module _ (O : Operator) {P : O.client.State → Type 0} (req : NamespacedName) where
  pub reconcile_alert_policy-Keeps : Keeps P Any (reconcile_alert_policy O req)
  unfolding reconcile_alert_policy
  reconcile_alert_policy-Keeps = Keeps-finish _

  pub reconcile_alert_condition-Keeps : Keeps P Any (reconcile_alert_condition O req)
  unfolding reconcile_alert_condition
  reconcile_alert_condition-Keeps = Keeps-finish _

  pub reconcile_alert_notification_target-Keeps :
      Keeps P Any (reconcile_alert_notification_target O req)
  unfolding reconcile_alert_notification_target
  reconcile_alert_notification_target-Keeps = Keeps-finish _
