-- ===== src/AlertManagerController.antt =====
-- internal/controller/osko/alertmanagerconfig_controller.go: the reconciler of an
-- AlertManagerConfig, from its steps, and the mapping of a secret's events.
pub mod Alertmanager
pub mod Deletion
pub mod Configure
pub mod Laws
pub mod Returns
pub mod Tenancy
use osko.Prelude.{List, [], ◌∷◌}
use osko.Map.{lookup}
use osko.Api.Meta.{ObjectMeta, NamespacedName}
use osko.Api.Osko.{AlertManagerConfig}
use osko.Cluster.{Reply, found, failed}
use osko.Cluster.Steps.{◌>>=◌, ◌>>◌}
use Alertmanager.{AlertOperator, Act}
use Deletion.{fetch_amc, hold_amc, delete_amc}
use Configure.{
  with_secret_namespace, secret_key, fetch_datasource, fetch_secret, read_entry, configure,
}

module _ (A : AlertOperator) where
  -- From the datasource on.
  unfoldable pub reconcile_configured : NamespacedName → AlertManagerConfig → Act A (Unit {0})
  reconcile_configured req amc = do
    ds ← fetch_datasource A amc
    let named = with_secret_namespace req.namespace amc
    secret ← fetch_secret A named
    text ← read_entry A named (lookup "alertmanager.yaml" secret.data_entries)
    configure A named ds text

  -- Reconcile
  unfoldable pub reconcile_amc : NamespacedName → Act A (Unit {0})
  reconcile_amc req = do
    amc ← fetch_amc A req
    held ← hold_amc A amc
    live ← delete_amc A held
    reconcile_configured req live

  requests_for : ObjectMeta → Reply AlertManagerConfig → List NamespacedName
  requests_for secret (failed e) = []
  requests_for secret (found amc) = secret_key (with_secret_namespace secret.namespace amc) ∷ []

  -- findObjectsForSecret, of a secret's metadata: the keys that are to be reconciled.
  unfoldable pub find_objects_for_secret :
      ObjectMeta → A.operator.client.State → List NamespacedName × A.operator.client.State
  unfolding requests_for
  find_objects_for_secret secret s =
      let (r, t) =
        A.operator.client.alert_manager_configs.get
          (record { name = secret.name; namespace = secret.namespace }) s in
      (requests_for secret r, t)
