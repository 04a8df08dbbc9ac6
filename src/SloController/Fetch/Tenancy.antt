-- ===== src/SloController/Fetch/Tenancy.antt =====
-- The first steps of the reconciler of an SLO stay in the SLO's namespace.
use osko.Prelude.{ℕ, Option, String, some, none}
use osko.Errors.{ApiError}
use osko.Api.Meta.{NamespacedName}
use osko.Api.OpenSlo.{Slo}
use osko.Api.Osko.{Datasource}
use osko.Cluster.{Reply, found, failed, Operator}
use osko.Cluster.Steps.{is_not_found}
use osko.Cluster.Tenancy.{
  Keeps, Keeps-pure, Keeps-finish, Keeps-bind, Keeps-if, Keeps-event, Keeps-then, get-Keeps,
  update-Keeps, update_status-Keeps, Answered, moved, Any, Tenancy,
}
use osko.SloController.Fetch.{
  slo_finalizer, get_slo, get_slo_reply, handle_deletion, cleaned, cleanup_slo_resources,
  removed_reply, ensure_finalizer, added_reply, get_datasource, datasource_reply,
  missing_datasource, update_slo_status,
}

module _ {O : Operator} {P : O.client.State → Type 0} {Here : String → Type 0}
    (T : Tenancy O P Here) where
  abbrev pub In : Slo → Type 0
  In slo = Here slo.meta.namespace

  pub update_slo_status-Keeps :
      (slo : Slo) (condition_type status message : String)
      → In slo
      → Keeps P (Answered In) (update_slo_status O slo condition_type status message)
  unfolding update_slo_status
  update_slo_status-Keeps slo condition_type status message here = record {
    at = λ w p. T.slos.status_updated _ w.cluster here p;
  }

  get_slo_reply-Keeps : (r : Reply Slo) → Answered In r → Keeps P In (get_slo_reply O r)
  unfolding get_slo_reply
  get_slo_reply-Keeps (found slo) here = Keeps-pure slo here
  get_slo_reply-Keeps (failed e) h = Keeps-if (is_not_found e) (Keeps-finish _) (Keeps-finish _)

  pub get_slo-Keeps : (req : NamespacedName) → Here req.namespace → Keeps P In (get_slo O req)
  unfolding get_slo
  get_slo-Keeps req here = Keeps-bind (get-Keeps T.slos req here) get_slo_reply-Keeps

  removed_reply-Keeps : (r : Reply Slo) → Keeps P In (removed_reply O r)
  unfolding removed_reply
  removed_reply-Keeps (found slo) = Keeps-finish _
  removed_reply-Keeps (failed e) = Keeps-finish _

  pub handle_deletion-Keeps : (slo : Slo) → In slo → Keeps P In (handle_deletion O slo)
  unfolding handle_deletion cleaned cleanup_slo_resources
  handle_deletion-Keeps slo here = by_time slo.meta.deletion_timestamp
    where
      by_time :
          (t : Option ℕ)
          → Keeps P In
              (handle_deletion O (record slo { meta = record slo.meta { deletion_timestamp = t } }))
      by_time none = Keeps-pure _ here
      by_time (some t) =
          Keeps-if (O.util.contains_finalizer _ slo_finalizer)
            (Keeps-bind
              (update-Keeps T.slos _ (moved Here (T.remove_finalizer _ slo_finalizer) here))
              λ r h. removed_reply-Keeps r)
            (Keeps-finish _)

  added_reply-Keeps : (r : Reply Slo) → Keeps P In (added_reply O r)
  unfolding added_reply
  added_reply-Keeps (found slo) = Keeps-finish _
  added_reply-Keeps (failed e) = Keeps-finish _

  pub ensure_finalizer-Keeps : (slo : Slo) → In slo → Keeps P In (ensure_finalizer O slo)
  unfolding ensure_finalizer
  ensure_finalizer-Keeps slo here =
      Keeps-if (O.util.contains_finalizer slo.meta slo_finalizer) (Keeps-pure slo here) (
        Keeps-bind
          (update-Keeps T.slos (record slo { meta = O.util.add_finalizer slo.meta slo_finalizer })
            (moved Here (T.add_finalizer slo.meta slo_finalizer) here))
          λ r h. added_reply-Keeps r)

  missing_datasource-Keeps : (e : ApiError) (r : Reply Slo) → Keeps P Any (missing_datasource O e r)
  unfolding missing_datasource
  missing_datasource-Keeps e (found slo) = Keeps-finish _
  missing_datasource-Keeps e (failed f) = Keeps-finish _

  datasource_reply-Keeps :
      (slo : Slo) (r : Reply Datasource) → In slo → Keeps P Any (datasource_reply O slo r)
  unfolding datasource_reply
  datasource_reply-Keeps slo (found ds) here = Keeps-pure ds tt
  datasource_reply-Keeps slo (failed e) here =
      Keeps-if (is_not_found e)
        (Keeps-then (Keeps-event O.has_recorder _)
          (Keeps-bind (update_status-Keeps T.slos _ here) λ r h. missing_datasource-Keeps e r))
        (Keeps-finish _)

  pub get_datasource-Keeps : (slo : Slo) → In slo → Keeps P Any (get_datasource O slo)
  unfolding get_datasource
  get_datasource-Keeps slo here =
      Keeps-bind (get-Keeps T.datasources _ here) λ r h. datasource_reply-Keeps slo r here
