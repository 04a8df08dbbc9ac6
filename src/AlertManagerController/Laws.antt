-- ===== src/AlertManagerController/Laws.antt =====
-- What the reconciler of AlertManagerConfigs sends to Mimir and takes away there.
use osko.Prelude.{◌≡◌, ◌*◌, String, true, ℕ, some, none, [], ◌∷◌, arith, ◌++◌}
use osko.Map.{get, lookup}
use osko.Errors.{ok, api, transient, second}
use osko.Api.Meta.{NamespacedName}
use osko.Api.Osko.{AlertManagerConfig, Datasource}
use osko.Cluster.{Reply, found, failed, Outcome, returned, returned_error, plain, reconcile, done}
use osko.Cluster.Steps.{World, stop}
use osko.SloController.Fetch.{datasource_ref}
use osko.Status.{update_condition, new_condition}
use osko.AlertManagerController.Alertmanager.{
  AlertOperator, Secret, State, new_mimir_client, update_amc_status, amc_event,
}
use osko.AlertManagerController.Deletion.{
  fetch_amc, hold_amc, delete_amc, clean_up, find_client, delete_alertmanager_config_api,
  release_amc, alertmanager_config_finalizer,
}
use osko.AlertManagerController.Configure.{
  with_secret_namespace, secret_key, fetch_datasource, fetch_secret, read_entry, configure,
  send_config,
}
use osko.AlertManagerController.{reconcile_configured, reconcile_amc}

-- The AlertManagerConfig as `UpdateStatus` writes it where the configuration is in Mimir.
abbrev pub ready_amc : ℕ → AlertManagerConfig → AlertManagerConfig
ready_amc now amc = record amc {
  status = record amc.status {
    conditions =
        update_condition now amc.status.conditions
          (new_condition now "Ready" "True" "PrometheusRule created");
    ready = "True";
  };
}

-- What is returned after the last status update, and after the one that takes the finalizer off.
abbrev pub after_ready : {D : Type 0} → Reply AlertManagerConfig → Outcome D
after_ready (found amc) = returned done
after_ready (failed e) = returned_error (plain (api e))

abbrev pub after_release : {D : Type 0} → Reply AlertManagerConfig → Outcome D
after_release (found amc) = returned done
after_release (failed e) = returned_error (reconcile (transient (some (api e)) (5 * second)))

module _ (A : AlertOperator) where
  -- Where an AlertManagerConfig has the finalizer and is being deleted, and the reconciler keeps a
  -- client: the client deletes the configuration of its own tenant, whatever datasource the object
  -- names, and the object is written without the finalizer, whatever Mimir answers.
  pub delete_amc-of_kept_client :
      (amc : AlertManagerConfig) (w : World (State A)) (handle : A.Handle) (t : ℕ)
      → amc.meta.deletion_timestamp ≡ some t
      → A.operator.util.contains_finalizer amc.meta alertmanager_config_finalizer ≡ true
      → w.cluster.mimir_client ≡ some handle
      → let r =
          A.operator.client.alert_manager_configs.update
            (record amc {
              meta = A.operator.util.remove_finalizer amc.meta alertmanager_config_finalizer;
            })
            (A.delete_config handle w.cluster.server).1 in
        delete_amc A amc w ≡ (
          stop (after_release r.0),
          record w { cluster = record { server = r.1; mimir_client = some handle } },
        )
  unfolding delete_amc clean_up find_client delete_alertmanager_config_api release_amc
  delete_amc-of_kept_client amc w handle t dying holds kept = ground (arith, dying, holds, kept)

  configure-client :
      (amc : AlertManagerConfig) (ds : Datasource) (text : String) (w : World (State A))
      (handle : A.Handle)
      → new_mimir_client A ds.spec.connection_details ≡ ok handle
      → (configure A amc ds text w).1.cluster.mimir_client ≡ some handle
  unfolding configure send_config update_amc_status
  configure-client amc ds text w handle made = ground (arith, made)

  -- After a call that has sent a configuration with the client of one datasource, a call that
  -- deletes another AlertManagerConfig deletes with that client, whatever datasource that one
  -- names: the configuration of the first tenant is taken away.
  pub delete_amc-of_configured :
      (amc other : AlertManagerConfig) (ds : Datasource) (text : String) (w : World (State A))
      (handle : A.Handle) (t : ℕ)
      → new_mimir_client A ds.spec.connection_details ≡ ok handle
      → other.meta.deletion_timestamp ≡ some t
      → A.operator.util.contains_finalizer other.meta alertmanager_config_finalizer ≡ true
      → let v = (configure A amc ds text w).1 in
        let r =
          A.operator.client.alert_manager_configs.update
            (record other {
              meta = A.operator.util.remove_finalizer other.meta alertmanager_config_finalizer;
            })
            (A.delete_config handle v.cluster.server).1 in
        delete_amc A other v ≡ (
          stop (after_release r.0),
          record v { cluster = record { server = r.1; mimir_client = some handle } },
        )
  delete_amc-of_configured amc other ds text w handle t made dying holds =
      delete_amc-of_kept_client other (configure A amc ds text w).1 handle t dying holds
        (configure-client amc ds text w handle made)

  -- Where an AlertManagerConfig that lives and has the finalizer, its datasource and its secret are found, the secret has an entry alertmanager.yaml, a client is made and Mimir accepts the text: the call has sent that text with the client of the datasource's tenant, keeps the client, and writes the status. It ends without an error, or with that of the status update.
  pub reconcile_amc_sends :
      (req : NamespacedName) (w : World (State A)) (amc : AlertManagerConfig) (ds : Datasource)
      (secret : Secret) (text : String) (handle : A.Handle) (s1 s2 s3 s4 : A.operator.client.State)
      → A.operator.has_recorder ≡ true
      → A.operator.client.alert_manager_configs.get req w.cluster.server ≡ (found amc, s1)
      → A.operator.util.contains_finalizer amc.meta alertmanager_config_finalizer ≡ true
      → amc.meta.deletion_timestamp ≡ none
      → A.operator.client.datasources.get
          (record {
            name = get datasource_ref amc.meta.annotations;
            namespace = amc.meta.namespace;
          })
          s1
        ≡ (found ds, s2)
      → let named = with_secret_namespace req.namespace amc in
        A.get_secret (secret_key named) s2 ≡ (found secret, s3)
        → lookup "alertmanager.yaml" secret.data_entries ≡ some text
        → new_mimir_client A ds.spec.connection_details ≡ ok handle
        → A.create_config handle text s3 ≡ (none, s4)
        → let r =
            A.operator.client.alert_manager_configs.update_status
              (ready_amc (A.operator.client.now s4) named)
              s4 in
          reconcile_amc A req w ≡ (
            stop (after_ready r.0),
            record {
              cluster = record { server = r.1; mimir_client = some handle };
              events =
                  w.events
                  ++ amc_event named "Normal" "AlertManagerConfigCreated"
                      "AlertManagerConfig created successfully"
                    ∷ [];
            },
          )
  unfolding reconcile_amc fetch_amc hold_amc delete_amc reconcile_configured fetch_datasource
      fetch_secret read_entry configure send_config update_amc_status
  reconcile_amc_sends req w amc ds secret text handle s1 s2 s3 s4 recorded h held live got_ds
        got_secret entry made sent =
      ground (arith, recorded, h, held, live, got_ds, got_secret, entry, made, sent)
