-- ===== src/AlertManagerController/Tenancy.antt =====
-- The reconciler of AlertManagerConfigs stays in the namespace of its request.
use osko.Prelude.{String}
use osko.Map.{lookup}
use osko.Api.Meta.{NamespacedName}
use osko.Api.Osko.{AlertManagerConfig}
use osko.Cluster.Tenancy.{Keeps, Keeps-bind, Any, moved}
use osko.AlertManagerController.Alertmanager.{AlertOperator}
use osko.AlertManagerController.Alertmanager.Tenancy.{AlertTenancy, OnServer, AmcIn}
use osko.AlertManagerController.Deletion.Tenancy.{fetch_amc-Keeps, hold_amc-Keeps, delete_amc-Keeps}
use osko.AlertManagerController.Configure.{with_secret_namespace}
use osko.AlertManagerController.Configure.Tenancy.{
  namespace-with_secret_namespace, fetch_datasource-Keeps, fetch_secret-Keeps, read_entry-Keeps,
  configure-Keeps,
}
use osko.AlertManagerController.{reconcile_configured, reconcile_amc}

module _ {A : AlertOperator} {P : A.operator.client.State → Type 0} {Here : String → Type 0}
    (T : AlertTenancy A P Here) where
  reconcile_configured-Keeps :
      (req : NamespacedName) (amc : AlertManagerConfig)
      → AmcIn T amc
      → Keeps (OnServer T) Any (reconcile_configured A req amc)
  unfolding reconcile_configured
  reconcile_configured-Keeps req amc here =
      let named = with_secret_namespace req.namespace amc in
      let also : AmcIn T named =
        moved Here (namespace-with_secret_namespace req.namespace amc) here in
      Keeps-bind (fetch_datasource-Keeps T amc here) λ ds _.
        Keeps-bind (fetch_secret-Keeps T named also) λ secret _.
          Keeps-bind
            (read_entry-Keeps T named (lookup "alertmanager.yaml" secret.data_entries) also)
            λ text _. configure-Keeps T named ds text also

  pub reconcile_amc-Keeps :
      (req : NamespacedName) → Here req.namespace → Keeps (OnServer T) Any (reconcile_amc A req)
  unfolding reconcile_amc
  reconcile_amc-Keeps req asked = Keeps-bind (fetch_amc-Keeps T req asked) λ amc h.
      Keeps-bind (hold_amc-Keeps T amc h) λ held i.
        Keeps-bind (delete_amc-Keeps T held i) λ live k. reconcile_configured-Keeps req live k
