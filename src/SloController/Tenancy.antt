-- ===== src/SloController/Tenancy.antt =====
-- The reconciler of an SLO stays in the namespace of its request.
use osko.Prelude.{String}
use osko.Api.Meta.{NamespacedName}
use osko.Api.OpenSlo.{Slo, Sli}
use osko.Api.Osko.{Datasource}
use osko.Cluster.{Reply, found, failed, Operator}
use osko.Cluster.Tenancy.{Keeps, Keeps-finish, Keeps-bind, Any, Tenancy}
use osko.SloController.Fetch.Tenancy.{
  In, update_slo_status-Keeps, get_slo-Keeps, handle_deletion-Keeps, ensure_finalizer-Keeps,
  get_datasource-Keeps,
}
use osko.SloController.Indicator.Tenancy.{get_sli-Keeps}
use osko.SloController.Rule.Tenancy.{get_prometheus_rule-Keeps}
use osko.SloController.Mimir.Tenancy.{get_mimir_rule-Keeps}
use osko.SloController.Alerting.Tenancy.{magic_alerting-Keeps}
use osko.SloController.{completed, complete, reconcile_rules, reconcile_live, reconcile}

module _ {O : Operator} {P : O.client.State → Type 0} {Here : String → Type 0}
    (T : Tenancy O P Here) where
  completed-Keeps : (r : Reply Slo) → Keeps P Any (completed O r)
  unfolding completed
  completed-Keeps (found slo) = Keeps-finish _
  completed-Keeps (failed e) = Keeps-finish _

  complete-Keeps : (slo : Slo) → In T slo → Keeps P Any (complete O slo)
  unfolding complete
  complete-Keeps slo here =
      Keeps-bind (update_slo_status-Keeps T slo _ _ _ here) λ r h. completed-Keeps r

  reconcile_rules-Keeps :
      (slo : Slo) (ds : Datasource) (sli : Sli)
      → In T slo
      → Keeps P Any (reconcile_rules O slo ds sli)
  unfolding reconcile_rules
  reconcile_rules-Keeps slo ds sli here =
      Keeps-bind (get_prometheus_rule-Keeps T slo sli here) λ rule there.
        Keeps-bind (get_mimir_rule-Keeps T slo rule ds here there)
          λ _ _. Keeps-bind (magic_alerting-Keeps T slo ds here) λ _ _. complete-Keeps slo here

  -- Where all that is done in the namespaces `Here` keeps a property of the server, and the request
  -- is for one of them: the call of the reconciler of SLOs keeps it.
  pub reconcile-Keeps : (req : NamespacedName) → Here req.namespace → Keeps P Any (reconcile O req)
  unfolding reconcile reconcile_live
  reconcile-Keeps req here = Keeps-bind (get_slo-Keeps T req here) λ slo h.
      Keeps-bind (handle_deletion-Keeps T slo h) λ live i.
        Keeps-bind (ensure_finalizer-Keeps T live i) λ kept j.
          Keeps-bind (get_datasource-Keeps T kept j)
            λ ds _. Keeps-bind (get_sli-Keeps T kept j) λ sli _. reconcile_rules-Keeps kept ds sli j
