-- ===== src/AlertManagerController/Configure/Tenancy.antt =====
-- The last steps of the reconciler of AlertManagerConfigs write the object only.
use osko.Prelude.{String, Option, some, none, ◌⊎◌, inl, inr, ◌≡◌, arith}
use osko.Errors.{ApiError, GoError}
use osko.Api.Osko.{AlertManagerConfig, Datasource}
use osko.Cluster.{Reply, found, failed}
use osko.Cluster.Steps.{is_not_found}
use osko.Cluster.Tenancy.{
  Keeps, Keeps-pure, Keeps-finish, Keeps-bind, Keeps-then, Keeps-if, Keeps-tested,
  Keeps-event_unguarded, Answered, Any,
}
use osko.AlertManagerController.Alertmanager.{AlertOperator, Secret, new_mimir_client}
use osko.AlertManagerController.Alertmanager.Tenancy.{
  AlertTenancy, OnServer, AmcIn, on_server-Keeps, keep_client-Keeps, write_amc_status-Keeps,
  update_amc_status-Keeps,
}
use osko.AlertManagerController.Configure.{
  with_secret_namespace, secret_key, report, no_datasource, datasource_fetched, fetch_datasource,
  no_secret, secret_fetched, fetch_secret, no_entry, read_entry, new_client, created, closed,
  send_config, configure,
}

-- The secret's namespace is filled in, and the object stays in its own.
pub namespace-with_secret_namespace :
    (n : String) (amc : AlertManagerConfig)
    → (with_secret_namespace n amc).meta.namespace ≡ amc.meta.namespace
unfolding with_secret_namespace
namespace-with_secret_namespace n amc = ground arith

module _ {A : AlertOperator} {P : A.operator.client.State → Type 0} {Here : String → Type 0}
    (T : AlertTenancy A P Here) where
  report-Keeps :
      (amc : AlertManagerConfig) (kind reason message : String)
      → Keeps (OnServer T) Any (report A amc kind reason message)
  unfolding report
  report-Keeps amc kind reason message = Keeps-event_unguarded A.operator.has_recorder _

  no_datasource-Keeps :
      (e : ApiError) (r : Reply AlertManagerConfig) → Keeps (OnServer T) Any (no_datasource A e r)
  unfolding no_datasource
  no_datasource-Keeps e (failed f) = Keeps-finish _
  no_datasource-Keeps e (found amc) = Keeps-finish _

  datasource_fetched-Keeps :
      (amc : AlertManagerConfig) (r : Reply Datasource)
      → AmcIn T amc
      → Keeps (OnServer T) Any (datasource_fetched A amc r)
  unfolding datasource_fetched
  datasource_fetched-Keeps amc (found ds) here = Keeps-pure _ tt
  datasource_fetched-Keeps amc (failed e) here =
      Keeps-if (is_not_found e)
        (Keeps-then (report-Keeps amc _ _ _)
          (Keeps-bind (write_amc_status-Keeps T amc here) λ r h. no_datasource-Keeps e r))
        (Keeps-finish _)

  pub fetch_datasource-Keeps :
      (amc : AlertManagerConfig) → AmcIn T amc → Keeps (OnServer T) Any (fetch_datasource A amc)
  unfolding fetch_datasource
  fetch_datasource-Keeps amc here =
      Keeps-bind (on_server-Keeps T _ λ s p. T.kubernetes.datasources.got _ s here p)
        λ r h. datasource_fetched-Keeps amc r here

  no_secret-Keeps : (r : Reply AlertManagerConfig) → Keeps (OnServer T) Any (no_secret A r)
  unfolding no_secret
  no_secret-Keeps (failed e) = Keeps-finish _
  no_secret-Keeps (found amc) = Keeps-then (report-Keeps amc _ _ _) (Keeps-finish _)

  secret_fetched-Keeps :
      (amc : AlertManagerConfig) (r : Reply Secret)
      → AmcIn T amc
      → Keeps (OnServer T) Any (secret_fetched A amc r)
  unfolding secret_fetched
  secret_fetched-Keeps amc (found secret) here = Keeps-pure _ tt
  secret_fetched-Keeps amc (failed e) here =
      Keeps-if (is_not_found e)
        (Keeps-bind (update_amc_status-Keeps T amc _ _ _ here) λ r h. no_secret-Keeps r)
        (Keeps-finish _)

  answered-Any : {B : Type 0} (r : Reply B) → Answered Any r
  answered-Any (found b) = tt
  answered-Any (failed e) = tt

  pub fetch_secret-Keeps :
      (amc : AlertManagerConfig) → AmcIn T amc → Keeps (OnServer T) Any (fetch_secret A amc)
  unfolding fetch_secret
  fetch_secret-Keeps amc here =
      Keeps-bind
        (on_server-Keeps T {Q = Any} (A.get_secret (secret_key amc))
          λ s p. (T.get_secret _ s p, answered-Any (A.get_secret (secret_key amc) s).0))
        λ r h. secret_fetched-Keeps amc r here

  no_entry-Keeps : (r : Reply AlertManagerConfig) → Keeps (OnServer T) Any (no_entry A r)
  unfolding no_entry
  no_entry-Keeps (failed e) = Keeps-finish _
  no_entry-Keeps (found amc) = Keeps-then (report-Keeps amc _ _ _) (Keeps-finish _)

  pub read_entry-Keeps :
      (amc : AlertManagerConfig) (entry : Option String)
      → AmcIn T amc
      → Keeps (OnServer T) Any (read_entry A amc entry)
  unfolding read_entry
  read_entry-Keeps amc (some text) here = Keeps-pure _ tt
  read_entry-Keeps amc none here =
      Keeps-bind (update_amc_status-Keeps T amc _ _ _ here) λ r h. no_entry-Keeps r

  new_client-Keeps : (r : GoError ⊎ A.Handle) → Keeps (OnServer T) Any (new_client A r)
  unfolding new_client
  new_client-Keeps (inr handle) = Keeps-then (keep_client-Keeps T (some handle)) (Keeps-pure _ tt)
  new_client-Keeps (inl e) = Keeps-then (keep_client-Keeps T none) (Keeps-finish _)

  created-Keeps : (e : Option GoError) → Keeps (OnServer T) Any (created A e)
  unfolding created
  created-Keeps none = Keeps-pure _ tt
  created-Keeps (some e) = Keeps-finish _

  closed-Keeps : (r : Reply AlertManagerConfig) → Keeps (OnServer T) Any (closed A r)
  unfolding closed
  closed-Keeps (found amc) = Keeps-finish _
  closed-Keeps (failed e) = Keeps-finish _

  send_config-Keeps :
      (handle : A.Handle) (text : String) → Keeps (OnServer T) Any (send_config A handle text)
  unfolding send_config
  send_config-Keeps handle text = record {
    at = λ w p.
        (created-Keeps (A.create_config handle text w.cluster.server).0).at _
          (T.create_config handle text w.cluster.server p);
  }

  pub configure-Keeps :
      (amc : AlertManagerConfig) (ds : Datasource) (text : String)
      → AmcIn T amc
      → Keeps (OnServer T) Any (configure A amc ds text)
  unfolding configure
  configure-Keeps amc ds text here =
      Keeps-bind (Keeps-tested {Q = Any} (new_mimir_client A ds.spec.connection_details) λ a e. tt)
        λ c _. Keeps-bind (new_client-Keeps c) λ handle _.
          Keeps-then (send_config-Keeps handle text) (
            Keeps-then (report-Keeps amc _ _ _)
              (Keeps-bind (update_amc_status-Keeps T amc _ _ _ here) λ r h. closed-Keeps r))
