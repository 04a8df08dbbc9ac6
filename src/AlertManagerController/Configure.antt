-- ===== src/AlertManagerController/Configure.antt =====
-- The last steps of the reconciler of AlertManagerConfigs: the datasource, the secret, and the
-- configuration that is sent to Mimir.
pub mod Tenancy
use osko.Prelude.{String, Option, some, none, ◌⊎◌, inl, inr, ◌==◌, if◌then◌else◌}
use osko.Map.{get}
use osko.Errors.{ApiError, GoError, api, dependency_not_ready}
use osko.Api.Meta.{NamespacedName}
use osko.Api.Osko.{AlertManagerConfig, Datasource}
use osko.Cluster.{Reply, found, failed, returned_error, reconcile}
use osko.Cluster.Steps.{
  pure, finish, ◌>>=◌, ◌>>◌, call, fail, fail_transient, finished, tested, is_not_found,
  event_unguarded,
}
use osko.SloController.Fetch.{datasource_ref}
use osko.AlertManagerController.Alertmanager.{
  AlertOperator, Secret, Act, on_server, new_mimir_client, keep_client, write_amc_status,
  update_amc_status, amc_event,
}

-- The namespace of the secret, which is that of the request where it is not set.
unfoldable pub with_secret_namespace : String → AlertManagerConfig → AlertManagerConfig
with_secret_namespace namespace amc =
    if amc.spec.secret_ref.namespace == ""
    then record amc {
      spec = record amc.spec { secret_ref = record amc.spec.secret_ref { namespace = namespace } };
    }
    else amc

abbrev pub secret_key : AlertManagerConfig → NamespacedName
secret_key amc = record {
  name = amc.spec.secret_ref.name;
  namespace = amc.spec.secret_ref.namespace;
}

module _ (A : AlertOperator) where
  report : AlertManagerConfig → String → String → String → Act A (Unit {0})
  report amc kind reason message =
      event_unguarded A.operator.has_recorder (amc_event amc kind reason message)

  no_datasource : ApiError → Reply AlertManagerConfig → Act A Datasource
  no_datasource e (failed f) = fail_transient (some (api f))
  no_datasource e (found amc) =
      finish (returned_error (reconcile (dependency_not_ready (some (api e)))))

  datasource_fetched : AlertManagerConfig → Reply Datasource → Act A Datasource
  unfolding report no_datasource
  datasource_fetched amc (found ds) = pure ds
  datasource_fetched amc (failed e) =
      if is_not_found e
      then (do
        report amc "Warning" "datasourceRef" "errDatasourceRef"
        r ← write_amc_status A amc
        no_datasource e r)
      else fail_transient (some (api e))

  unfoldable pub fetch_datasource : AlertManagerConfig → Act A Datasource
  unfolding datasource_fetched
  fetch_datasource amc = do
    r ← call (
        on_server (
          A.operator.client.datasources.get (record {
            name = get datasource_ref amc.meta.annotations;
            namespace = amc.meta.namespace;
          })))
    datasource_fetched amc r

  no_secret : Reply AlertManagerConfig → Act A Secret
  unfolding report
  no_secret (failed e) = fail_transient (some (api e))
  no_secret (found amc) = do
    report amc "Warning" "SecretNotFound" "Secret from secretRef not found"
    finished

  secret_fetched : AlertManagerConfig → Reply Secret → Act A Secret
  unfolding no_secret
  secret_fetched amc (found secret) = pure secret
  secret_fetched amc (failed e) =
      if is_not_found e
      then (do
        r ← update_amc_status A amc "Ready" "False" "Secret from secretRef not found"
        no_secret r)
      else fail_transient (some (api e))

  unfoldable pub fetch_secret : AlertManagerConfig → Act A Secret
  unfolding secret_fetched
  fetch_secret amc = do r ← call (on_server (A.get_secret (secret_key amc))); secret_fetched amc r

  no_entry : Reply AlertManagerConfig → Act A String
  unfolding report
  no_entry (failed e) = fail (api e)
  no_entry (found amc) = do
    report amc "Warning" "KeyNotFound" "alertmanager.yaml key not found in secret"
    finished

  unfoldable pub read_entry : AlertManagerConfig → Option String → Act A String
  unfolding no_entry
  read_entry amc (some text) = pure text
  read_entry amc none = do
    r ← update_amc_status A amc "Ready" "False" "alertmanager.yaml key not found in secret"
    no_entry r

  new_client : GoError ⊎ A.Handle → Act A A.Handle
  new_client (inr handle) = do keep_client A (some handle); pure handle
  new_client (inl e) = do keep_client A none; fail e

  created : Option GoError → Act A (Unit {0})
  created (some e) = fail e
  created none = pure tt

  closed : Reply AlertManagerConfig → Act A (Unit {0})
  closed (found amc) = finished
  closed (failed e) = fail (api e)

  -- CreateAlertmanagerConfig
  unfoldable pub send_config : A.Handle → String → Act A (Unit {0})
  unfolding created
  send_config handle text w =
      let (e, m) = on_server (A.create_config handle text) w.cluster in
      created e (record w { cluster = m })

  unfoldable pub configure : AlertManagerConfig → Datasource → String → Act A (Unit {0})
  unfolding new_client report closed
  configure amc ds text = do
    c ← tested (new_mimir_client A ds.spec.connection_details)
    handle ← new_client c
    send_config handle text
    report amc "Normal" "AlertManagerConfigCreated" "AlertManagerConfig created successfully"
    r ← update_amc_status A amc "Ready" "True" "PrometheusRule created"
    closed r
