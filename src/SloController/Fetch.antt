-- ===== src/SloController/Fetch.antt =====
-- The first steps of `Reconcile`: the SLO, its deletion, its finalizer and its datasource.
pub mod Tenancy
use osko.Prelude.{String, Option, some, none, if◌then◌else◌}
use osko.Map.{get}
use osko.Errors.{ApiError, GoError, api, dependency_not_ready}
use osko.Api.Meta.{NamespacedName}
use osko.Api.OpenSlo.{Slo}
use osko.Api.Osko.{Datasource}
use osko.Cluster.{
  Reply, found, failed, Operator, Event, returned, returned_error, requeue, reconcile,
}
use osko.Cluster.Steps.{
  Step, pure, finish, ◌>>=◌, ◌>>◌, call, fail_transient, fail, finished, event, is_not_found,
}
use osko.Status.{update_condition, new_condition}

abbrev pub slo_finalizer : String
slo_finalizer = "finalizer.slo.osko.dev"

abbrev pub datasource_ref : String
datasource_ref = "osko.dev/datasourceRef"

-- The event of an SLO.
abbrev pub slo_event : Slo → String → String → String → Event
slo_event slo kind reason message = record {
  regarding = slo.meta.name;
  kind = kind;
  reason = reason;
  message = message;
}

module _ (O : Operator) where
  abbrev pub Act : Type 0 → Type 0
  Act = Step O.runtime.Duration O.client.State

  -- utils.UpdateStatus on an SLO: the condition, `Ready`, and the status update.
  unfoldable pub update_slo_status : Slo → String → String → String → Act (Reply Slo)
  update_slo_status slo condition_type status message w =
      let now = O.client.now w.cluster in
      call
        (O.client.slos.update_status (record slo {
          status = record slo.status {
            conditions =
                update_condition now slo.status.conditions
                  (new_condition now condition_type status message);
            ready = status;
          };
        }))
        w

  get_slo_reply : Reply Slo → Act Slo
  get_slo_reply (found slo) = pure slo
  get_slo_reply (failed e) = if is_not_found e then finished else fail_transient (some (api e))

  unfoldable pub get_slo : NamespacedName → Act Slo
  unfolding get_slo_reply
  get_slo req = do slo ← call (O.client.slos.get req); get_slo_reply slo

  -- cleanupSLOResources: owned resources are left to the garbage collection.
  pub cleanup_slo_resources : Slo → Act (Option GoError)
  cleanup_slo_resources slo = pure none

  removed_reply : Reply Slo → Act Slo
  removed_reply (found slo) = finished
  removed_reply (failed e) = fail (api e)

  cleaned : Slo → Option GoError → Act Slo
  unfolding removed_reply
  cleaned slo (some e) = fail e
  cleaned slo none = do
    let m = O.util.remove_finalizer slo.meta slo_finalizer
    r ← call (O.client.slos.update (record slo { meta = m }))
    removed_reply r

  -- An SLO that is being deleted is handled here, and the call ends.
  unfoldable pub handle_deletion : Slo → Act Slo
  unfolding cleanup_slo_resources cleaned
  handle_deletion slo = elim slo.meta.deletion_timestamp [
    | none ↦ pure slo
    | some t ↦
        (if O.util.contains_finalizer slo.meta slo_finalizer
          then (do e ← cleanup_slo_resources slo; cleaned slo e)
          else finished)
  ]

  added_reply : Reply Slo → Act Slo
  added_reply (found slo) = finish (returned requeue)
  added_reply (failed e) = fail (api e)

  unfoldable pub ensure_finalizer : Slo → Act Slo
  unfolding added_reply
  ensure_finalizer slo = if O.util.contains_finalizer slo.meta slo_finalizer then pure slo else (do
    let m = O.util.add_finalizer slo.meta slo_finalizer
    r ← call (O.client.slos.update (record slo { meta = m }))
    added_reply r)

  missing_datasource : ApiError → Reply Slo → Act Datasource
  missing_datasource e (found slo) =
      finish (returned_error (reconcile (dependency_not_ready (some (api e)))))
  missing_datasource e (failed f) = fail_transient (some (api f))

  datasource_reply : Slo → Reply Datasource → Act Datasource
  unfolding missing_datasource
  datasource_reply slo (found ds) = pure ds
  datasource_reply slo (failed e) =
      if is_not_found e
      then (do
        event O.has_recorder (
            slo_event slo "Warning" "datasourceRef"
              "Unable to get Datasource. Check if the referenced datasource exists.")
        r ← call (
            O.client.slos.update_status
              (record slo { status = record slo.status { ready = "False" } }))
        missing_datasource e r)
      else fail_transient (some (api e))

  unfoldable pub get_datasource : Slo → Act Datasource
  unfolding datasource_reply
  get_datasource slo = do
    ds ← call (
        O.client.datasources.get (record {
          name = get datasource_ref slo.meta.annotations;
          namespace = slo.meta.namespace;
        }))
    datasource_reply slo ds
