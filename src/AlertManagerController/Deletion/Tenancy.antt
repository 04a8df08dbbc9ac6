-- ===== src/AlertManagerController/Deletion/Tenancy.antt =====
-- The first steps of the reconciler of AlertManagerConfigs stay in the namespace of the request.
use osko.Prelude.{String, ℕ, Option, some, none, ◌⊎◌, inl, inr, ◌==◌}
use osko.Map.{get}
use osko.Errors.{GoError}
use osko.Api.Meta.{NamespacedName}
use osko.Api.Osko.{AlertManagerConfig, Datasource}
use osko.Cluster.{Reply, found, failed}
use osko.Cluster.Steps.{is_not_found}
use osko.Cluster.Tenancy.{
  Keeps, Keeps-pure, Keeps-finish, Keeps-bind, Keeps-then, Keeps-if, Keeps-tested, Answered, Any,
  moved,
}
use osko.SloController.Fetch.{datasource_ref}
use osko.AlertManagerController.Alertmanager.{AlertOperator, new_mimir_client}
use osko.AlertManagerController.Alertmanager.Tenancy.{
  AlertTenancy, OnServer, AmcIn, on_server-Keeps, kept_client-Keeps, keep_client-Keeps,
}
use osko.AlertManagerController.Deletion.{
  alertmanager_config_finalizer, fetched, fetch_amc, written, hold_amc, made_client, client_of,
  find_client, delete_alertmanager_config_api, released, release_amc, clean_up, delete_amc,
}

module _ {A : AlertOperator} {P : A.operator.client.State → Type 0} {Here : String → Type 0}
    (T : AlertTenancy A P Here) where
  fetched-Keeps :
      (r : Reply AlertManagerConfig)
      → Answered (AmcIn T) r
      → Keeps (OnServer T) (AmcIn T) (fetched A r)
  unfolding fetched
  fetched-Keeps (found amc) here = Keeps-pure amc here
  fetched-Keeps (failed e) h = Keeps-if (is_not_found e) (Keeps-finish _) (Keeps-finish _)

  pub fetch_amc-Keeps :
      (req : NamespacedName) → Here req.namespace → Keeps (OnServer T) (AmcIn T) (fetch_amc A req)
  unfolding fetch_amc
  fetch_amc-Keeps req asked =
      Keeps-bind (on_server-Keeps T _ λ s p. T.kubernetes.alert_manager_configs.got req s asked p)
        λ r h. fetched-Keeps r h

  written-Keeps :
      (r : Reply AlertManagerConfig)
      → Answered (AmcIn T) r
      → Keeps (OnServer T) (AmcIn T) (written A r)
  unfolding written
  written-Keeps (found amc) here = Keeps-pure amc here
  written-Keeps (failed e) h = Keeps-finish _

  pub hold_amc-Keeps :
      (amc : AlertManagerConfig) → AmcIn T amc → Keeps (OnServer T) (AmcIn T) (hold_amc A amc)
  unfolding hold_amc
  hold_amc-Keeps amc here =
      Keeps-if (A.operator.util.contains_finalizer amc.meta alertmanager_config_finalizer)
        (Keeps-pure amc here)
        (Keeps-bind
          (on_server-Keeps T
            (A.operator.client.alert_manager_configs.update (record amc {
              meta = A.operator.util.add_finalizer amc.meta alertmanager_config_finalizer;
            }))
            λ s p.
              T.kubernetes.alert_manager_configs.updated _ s
                (moved Here (T.kubernetes.add_finalizer amc.meta _) here) p)
          λ r h. written-Keeps r h)

  made_client-Keeps : (r : GoError ⊎ A.Handle) → Keeps (OnServer T) Any (made_client A r)
  unfolding made_client
  made_client-Keeps (inl e) = Keeps-pure _ tt
  made_client-Keeps (inr handle) = keep_client-Keeps T (some handle)

  client_of-Keeps : (r : Reply Datasource) → Keeps (OnServer T) Any (client_of A r)
  unfolding client_of
  client_of-Keeps (failed e) = Keeps-pure _ tt
  client_of-Keeps (found ds) =
      Keeps-bind (Keeps-tested {Q = Any} (new_mimir_client A ds.spec.connection_details) λ a e. tt)
        λ r h. made_client-Keeps r

  find_client-Keeps :
      (amc : AlertManagerConfig) (client : Option A.Handle)
      → AmcIn T amc
      → Keeps (OnServer T) Any (find_client A amc client)
  unfolding find_client
  find_client-Keeps amc (some handle) here = Keeps-pure _ tt
  find_client-Keeps amc none here =
      let ref = get datasource_ref amc.meta.annotations in
      Keeps-if (ref == "") (Keeps-pure _ tt) (
        Keeps-bind
          (on_server-Keeps T
            (A.operator.client.datasources.get
              (record { name = ref; namespace = amc.meta.namespace }))
            λ s p. T.kubernetes.datasources.got _ s here p)
          λ r h. client_of-Keeps r)

  delete_api-Keeps :
      (client : Option A.Handle) → Keeps (OnServer T) Any (delete_alertmanager_config_api A client)
  unfolding delete_alertmanager_config_api
  delete_api-Keeps none = record { at = λ w p. (p, tt) }
  delete_api-Keeps (some handle) = record {
    at = λ w p. (T.delete_config handle w.cluster.server p, tt);
  }

  released-Keeps : (r : Reply AlertManagerConfig) → Keeps (OnServer T) (AmcIn T) (released A r)
  unfolding released
  released-Keeps (found amc) = Keeps-finish _
  released-Keeps (failed e) = Keeps-finish _

  release_amc-Keeps :
      (amc : AlertManagerConfig) → AmcIn T amc → Keeps (OnServer T) (AmcIn T) (release_amc A amc)
  unfolding release_amc
  release_amc-Keeps amc here =
      Keeps-bind
        (on_server-Keeps T
          (A.operator.client.alert_manager_configs.update (record amc {
            meta = A.operator.util.remove_finalizer amc.meta alertmanager_config_finalizer;
          }))
          λ s p.
            T.kubernetes.alert_manager_configs.updated _ s
              (moved Here (T.kubernetes.remove_finalizer amc.meta _) here) p)
        λ r h. released-Keeps r

  clean_up-Keeps :
      (amc : AlertManagerConfig) → AmcIn T amc → Keeps (OnServer T) (AmcIn T) (clean_up A amc)
  unfolding clean_up
  clean_up-Keeps amc here = Keeps-bind (kept_client-Keeps T) λ before _.
      Keeps-then (find_client-Keeps amc before here) (
        Keeps-bind (kept_client-Keeps T)
          λ client _. Keeps-then (delete_api-Keeps client) (release_amc-Keeps amc here))

  pub delete_amc-Keeps :
      (amc : AlertManagerConfig) → AmcIn T amc → Keeps (OnServer T) (AmcIn T) (delete_amc A amc)
  unfolding delete_amc
  delete_amc-Keeps amc here = by_time amc.meta.deletion_timestamp
    where
      by_time :
          (t : Option ℕ)
          → Keeps
              (OnServer T)
              (AmcIn T)
              (delete_amc A (record amc { meta = record amc.meta { deletion_timestamp = t } }))
      by_time none = Keeps-pure _ here
      by_time (some t) =
          Keeps-if (A.operator.util.contains_finalizer _ alertmanager_config_finalizer)
            (clean_up-Keeps _ here) (Keeps-finish _)
