-- ===== src/AlertManagerController/Returns.antt =====
-- Every call of the reconciler of AlertManagerConfigs returns.
use osko.Prelude.{◌≡◌, ◌≢◌, String, true, Option, some, none, arith}
use osko.Map.{lookup}
use osko.Errors.{panic}
use osko.Api.Meta.{NamespacedName}
use osko.Api.Osko.{AlertManagerConfig, Datasource, ConnectionDetails}
use osko.Cluster.{Outcome, panicked}
use osko.Cluster.Steps.{World, stop, ◌>>=◌, ◌>>◌}
use osko.Cluster.Safety.{Any, Never, Safe, Safe-bind, returned-Safe}
use osko.AlertManagerController.Alertmanager.{
  AlertOperator, State, new_mimir_client, update_amc_status, kept_client,
}
use osko.AlertManagerController.Deletion.{
  fetch_amc, hold_amc, delete_amc, clean_up, find_client, delete_alertmanager_config_api,
  release_amc,
}
use osko.AlertManagerController.Configure.{
  with_secret_namespace, fetch_datasource, fetch_secret, read_entry, configure, send_config,
}
use osko.AlertManagerController.{reconcile_configured, reconcile_amc}

module _ (A : AlertOperator) where
  fetch_amc-Safe : (req : NamespacedName) (w : World (State A)) → Safe Any (fetch_amc A req w).0
  unfolding fetch_amc
  fetch_amc-Safe req w = ground arith

  hold_amc-Safe : (amc : AlertManagerConfig) (w : World (State A)) → Safe Any (hold_amc A amc w).0
  unfolding hold_amc
  hold_amc-Safe amc w = ground arith

  delete_and_release-Safe :
      (amc : AlertManagerConfig) (client : Option A.Handle) (w : World (State A))
      → Safe Any ((delete_alertmanager_config_api A client >> release_amc A amc) w).0
  unfolding delete_alertmanager_config_api release_amc
  delete_and_release-Safe amc none w = ground arith
  delete_and_release-Safe amc (some handle) w = ground arith

  module _ (calm : (details : ConnectionDetails) → new_mimir_client A details ≢ panic) where
    find_client-Safe :
        (amc : AlertManagerConfig) (client : Option A.Handle) (w : World (State A))
        → Safe Any (find_client A amc client w).0
    unfolding find_client
    find_client-Safe amc (some handle) w = tt
    find_client-Safe amc none w = grind (arith, calm)

    clean_up-Safe : (amc : AlertManagerConfig) (w : World (State A)) → Safe Any (clean_up A amc w).0
    unfolding clean_up
    clean_up-Safe amc w =
        Safe-bind Any Any (find_client A amc w.cluster.mimir_client)
          (λ _. kept_client A >>= λ c. delete_alertmanager_config_api A c >> release_amc A amc) w
          (find_client-Safe amc w.cluster.mimir_client w)
          λ _ v h. delete_and_release-Safe amc v.cluster.mimir_client v

    module _ (recorded : A.operator.has_recorder ≡ true) where
      fetch_datasource-Safe :
          (amc : AlertManagerConfig) (w : World (State A)) → Safe Any (fetch_datasource A amc w).0
      unfolding fetch_datasource
      fetch_datasource-Safe amc w = rw recorded (ground arith)

      fetch_secret-Safe :
          (amc : AlertManagerConfig) (w : World (State A)) → Safe Any (fetch_secret A amc w).0
      unfolding fetch_secret update_amc_status
      fetch_secret-Safe amc w = rw recorded (ground arith)

      read_entry-Safe :
          (amc : AlertManagerConfig) (entry : Option String) (w : World (State A))
          → Safe Any (read_entry A amc entry w).0
      unfolding read_entry update_amc_status
      read_entry-Safe amc (some text) w = tt
      read_entry-Safe amc none w = rw recorded (ground arith)

      configure-Safe :
          (amc : AlertManagerConfig) (ds : Datasource) (text : String) (w : World (State A))
          → Safe Never (configure A amc ds text w).0
      unfolding configure send_config update_amc_status
      configure-Safe amc ds text w = rw recorded (ground (arith, calm ds.spec.connection_details))

      configured-Safe :
          (req : NamespacedName) (amc : AlertManagerConfig) (w : World (State A))
          → Safe Never (reconcile_configured A req amc w).0
      unfolding reconcile_configured
      configured-Safe req amc w =
          let named = with_secret_namespace req.namespace amc in
          Safe-bind Any Never (fetch_datasource A amc)
            (λ ds. fetch_secret A named >>= λ secret.
              read_entry A named (lookup "alertmanager.yaml" secret.data_entries)
              >>= configure A named ds)
            w (fetch_datasource-Safe amc w)
            λ ds v h.
              Safe-bind Any Never (fetch_secret A named)
                (λ secret.
                  read_entry A named (lookup "alertmanager.yaml" secret.data_entries)
                  >>= configure A named ds)
                v (fetch_secret-Safe named v)
                λ secret u i.
                  Safe-bind Any Never
                    (read_entry A named (lookup "alertmanager.yaml" secret.data_entries))
                    (configure A named ds) u
                    (read_entry-Safe named (lookup "alertmanager.yaml" secret.data_entries) u)
                    λ text x j. configure-Safe named ds text x

      delete_amc-Safe :
          (amc : AlertManagerConfig) (w : World (State A)) → Safe Any (delete_amc A amc w).0
      unfolding delete_amc
      delete_amc-Safe amc w = grind (arith, clean_up-Safe amc w)

      -- Where the reconciler has a recorder and the making of a client does not fault, every call of
      -- the reconciler of AlertManagerConfigs ends with a result or an error, whatever the server
      -- and Mimir answer.
      pub reconcile_amc-returned :
          (req : NamespacedName) (w : World (State A))
          → (o : Outcome A.operator.runtime.Duration) × ((reconcile_amc A req w).0 ≡ stop o)
            × (o ≢ panicked)
      reconcile_amc-returned req w = returned-Safe (reconcile_amc A req w).0 (
          unfold reconcile_amc in
          Safe-bind Any Never (fetch_amc A req)
            (λ amc. hold_amc A amc >>= λ held. delete_amc A held >>= reconcile_configured A req) w
            (fetch_amc-Safe req w)
            λ amc v h.
              Safe-bind Any Never (hold_amc A amc)
                (λ held. delete_amc A held >>= reconcile_configured A req) v (hold_amc-Safe amc v)
                λ held u i.
                  Safe-bind Any Never (delete_amc A held) (reconcile_configured A req) u
                    (delete_amc-Safe held u) λ live x j. configured-Safe req live x)
