-- ===== src/SloController/Dependencies.antt =====
-- What `Reconcile` does where the datasource or the SLI of an SLO is missing.
use osko.Prelude.{String, ◌≡◌, true, some, none, arith, ◌++◌, [], ◌∷◌}
use osko.Errors.{ApiError, ReconcileError, api, dependency_not_ready, transient}
use osko.Map.{get}
use osko.Api.Meta.{NamespacedName}
use osko.Api.OpenSlo.{Slo}
use osko.Api.Osko.{Datasource}
use osko.Cluster.{
  Reply, found, failed, Operator, Outcome, returned_error, reconcile as reconcile_error,
}
use osko.Cluster.Steps.{World, stop, is_not_found}
use osko.Status.{update_condition, new_condition}
use osko.SloController.Fetch.{
  get_slo, handle_deletion, ensure_finalizer, get_datasource, update_slo_status, slo_finalizer,
  datasource_ref, slo_event,
}
use osko.SloController.Indicator.{get_sli}
use osko.SloController.{reconcile, reconcile_live}

-- The error of a status update, if it failed, and else the given one.
abbrev pub or_status_error : {D A : Type 0} → ReconcileError → Reply A → Outcome D
or_status_error e (found a) = returned_error (reconcile_error e)
or_status_error e (failed f) =
    returned_error (reconcile_error (transient (some (api f)) 5_000_000_000))

module _ (O : Operator) (req : NamespacedName) (w : World O.client.State) (slo : Slo)
    (s s' : O.client.State) where
  -- Where there is a recorder, the SLO is found, lives and has the finalizer, but the Get of its
  -- datasource answers NotFound: the call emits a warning, sets Ready to "False" in the status, and
  -- asks to be called again since a dependency is not ready, with the error of the Get; or it
  -- returns the error of the status update.
  pub reconcile_of_missing_datasource :
      (m : ApiError)
      → O.has_recorder ≡ true
      → O.client.slos.get req w.cluster ≡ (found slo, s)
      → slo.meta.deletion_timestamp ≡ none
      → O.util.contains_finalizer slo.meta slo_finalizer ≡ true
      → O.client.datasources.get
          (record {
            name = get datasource_ref slo.meta.annotations;
            namespace = slo.meta.namespace;
          })
          s
        ≡ (failed m, s')
      → is_not_found m ≡ true
      → let r =
          O.client.slos.update_status
            (record slo { status = record slo.status { ready = "False" } })
            s' in
        reconcile O req w ≡ (
          stop (or_status_error (dependency_not_ready (some (api m))) r.0),
          record {
            cluster = r.1;
            events =
                w.events
                ++ slo_event slo "Warning" "datasourceRef"
                    "Unable to get Datasource. Check if the referenced datasource exists."
                  ∷ [];
          },
        )
  unfolding reconcile reconcile_live get_slo handle_deletion ensure_finalizer get_datasource
  reconcile_of_missing_datasource m recorded got live kept missing gone =
      ground (arith, recorded, got, live, kept, missing, gone)

  -- Where the SLO is found, lives and has the finalizer, its datasource is found, and the Get
  -- of the SLI that it names answers NotFound: the call reports this in the condition `Ready`, and asks to be called
  -- again since a dependency is not ready, but without any error that says so; or it returns the
  -- error of the status update.
  pub reconcile_of_missing_sli :
      (t : O.client.State) (ref : String) (ds : Datasource) (m : ApiError)
      → O.client.slos.get req w.cluster ≡ (found slo, s)
      → slo.meta.deletion_timestamp ≡ none
      → O.util.contains_finalizer slo.meta slo_finalizer ≡ true
      → O.client.datasources.get
          (record {
            name = get datasource_ref slo.meta.annotations;
            namespace = slo.meta.namespace;
          })
          s
        ≡ (found ds, t)
      → slo.spec.indicator_ref ≡ some ref
      → O.client.slis.get (record { name = ref; namespace = slo.meta.namespace }) t ≡ (failed m, s')
      → is_not_found m ≡ true
      → let now = O.client.now s' in
        let r =
          O.client.slos.update_status
            (record slo {
              status = record slo.status {
                conditions =
                    update_condition now slo.status.conditions
                      (new_condition now "Ready" "False" "SLI Object not found");
                ready = "False";
              };
            })
            s' in
        reconcile O req w
        ≡ (stop (or_status_error (dependency_not_ready none) r.0), record w { cluster = r.1 })
  unfolding reconcile reconcile_live get_slo handle_deletion ensure_finalizer get_datasource get_sli
      update_slo_status
  reconcile_of_missing_sli t ref ds m got live kept at names missing gone =
      ground (arith, got, live, kept, at, names, missing, gone)
