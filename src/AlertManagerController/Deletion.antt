-- ===== src/AlertManagerController/Deletion.antt =====
-- The first steps of the reconciler of AlertManagerConfigs: the object, its finalizer, and its
-- deletion with the configuration in Mimir.
pub mod Tenancy
use osko.Prelude.{String, Option, some, none, ◌⊎◌, inl, inr, ◌==◌, if◌then◌else◌}
use osko.Map.{get}
use osko.Errors.{GoError, api}
use osko.Api.Meta.{NamespacedName}
use osko.Api.Osko.{AlertManagerConfig, Datasource}
use osko.Cluster.{Reply, found, failed}
use osko.Cluster.Steps.{
  pure, ◌>>=◌, ◌>>◌, call, fail_transient, finished, tested, is_not_found, next,
}
use osko.SloController.Fetch.{datasource_ref}
use osko.AlertManagerController.Alertmanager.{
  AlertOperator, Act, on_server, new_mimir_client, keep_client, kept_client,
}

abbrev pub alertmanager_config_finalizer : String
alertmanager_config_finalizer = "alertmanagerconfig.osko.dev/finalizer"

module _ (A : AlertOperator) where
  fetched : Reply AlertManagerConfig → Act A AlertManagerConfig
  fetched (found amc) = pure amc
  fetched (failed e) = if is_not_found e then finished else fail_transient (some (api e))

  unfoldable pub fetch_amc : NamespacedName → Act A AlertManagerConfig
  unfolding fetched
  fetch_amc req = do
    r ← call (on_server (A.operator.client.alert_manager_configs.get req))
    fetched r

  written : Reply AlertManagerConfig → Act A AlertManagerConfig
  written (found amc) = pure amc
  written (failed e) = fail_transient (some (api e))

  -- Also an object that is being deleted gets the finalizer.
  unfoldable pub hold_amc : AlertManagerConfig → Act A AlertManagerConfig
  unfolding written
  hold_amc amc =
      if A.operator.util.contains_finalizer amc.meta alertmanager_config_finalizer
      then pure amc
      else (do
        r ← call (
            on_server (
              A.operator.client.alert_manager_configs.update (record amc {
                meta = A.operator.util.add_finalizer amc.meta alertmanager_config_finalizer;
              })))
        written r)

  made_client : GoError ⊎ A.Handle → Act A (Unit {0})
  made_client (inl e) = pure tt
  made_client (inr handle) = keep_client A (some handle)

  client_of : Reply Datasource → Act A (Unit {0})
  unfolding made_client
  client_of (failed e) = pure tt
  client_of (found ds) = do
    r ← tested (new_mimir_client A ds.spec.connection_details)
    made_client r

  -- A client for the clean-up: the one that is kept, or one for the datasource.
  unfoldable pub find_client : AlertManagerConfig → Option A.Handle → Act A (Unit {0})
  unfolding client_of
  find_client amc (some handle) = pure tt
  find_client amc none =
      let ref = get datasource_ref amc.meta.annotations in
      if ref == "" then pure tt else (do
        r ← call (
            on_server (
              A.operator.client.datasources.get
                (record { name = ref; namespace = amc.meta.namespace })))
        client_of r)

  -- deleteAlertmanagerConfigAPI, if there is a client. Its error is logged.
  unfoldable pub delete_alertmanager_config_api : Option A.Handle → Act A (Unit {0})
  delete_alertmanager_config_api none w = (next tt, w)
  delete_alertmanager_config_api (some handle) w =
      let (e, m) = on_server (A.delete_config handle) w.cluster in
      (next tt, record w { cluster = m })

  released : Reply AlertManagerConfig → Act A AlertManagerConfig
  released (found amc) = finished
  released (failed e) = fail_transient (some (api e))

  unfoldable pub release_amc : AlertManagerConfig → Act A AlertManagerConfig
  unfolding released
  release_amc amc = do
    r ← call (
        on_server (
          A.operator.client.alert_manager_configs.update (record amc {
            meta = A.operator.util.remove_finalizer amc.meta alertmanager_config_finalizer;
          })))
    released r

  unfoldable pub clean_up : AlertManagerConfig → Act A AlertManagerConfig
  clean_up amc = do
    before ← kept_client A
    find_client amc before
    client ← kept_client A
    delete_alertmanager_config_api client
    release_amc amc

  unfoldable pub delete_amc : AlertManagerConfig → Act A AlertManagerConfig
  delete_amc amc = elim amc.meta.deletion_timestamp [
    | none ↦ pure amc
    | some t ↦
        (if A.operator.util.contains_finalizer amc.meta alertmanager_config_finalizer
          then clean_up amc
          else finished)
  ]
