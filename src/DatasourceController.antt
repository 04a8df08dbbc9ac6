-- ===== src/DatasourceController.antt =====
-- internal/controller/openslo/datasource_controller.go: the reconciler of a Datasource, which tries
-- the connection to a Mimir datasource.
pub mod Laws
pub mod Tenancy
pub mod Returns
pub mod Transport
use osko.Prelude.{
  String, ◌<>◌, Bool, true, false, not, Option, some, none, ◌⊎◌, inl, inr, ◌==◌, if◌then◌else◌,
}
use osko.Errors.{GoError, api, text, go_error_text}
use osko.Api.Meta.{NamespacedName}
use osko.Api.Osko.{Datasource}
use osko.Cluster.{Reply, found, failed, Operator, Event}
use osko.Cluster.Steps.{
  Flow, next, World, Step, ◌>>=◌, ◌>>◌, pure, call, fail_transient, finished, event_unguarded,
  is_not_found,
}

-- The reconciler, with the client of a Prometheus API.
pub record DatasourceOperator : Type 1 where
  pub operator : Operator
  pub Handle : Type 0
  -- api.NewClient of an address, with a transport that adds the header X-Scope-OrgId of a tenant
  pub new_api_client : String → String → GoError ⊎ Handle
  -- Query(ctx, query, time.Now()), and the text of its result
  pub query : Handle → String → operator.client.State → (GoError ⊎ String) × operator.client.State

abbrev pub datasource_event : Datasource → String → String → String → Event
datasource_event ds kind reason message = record {
  regarding = ds.meta.name;
  kind = kind;
  reason = reason;
  message = message;
}

module _ (K : DatasourceOperator) where
  abbrev pub Act : Type 0 → Type 0
  Act = Step K.operator.runtime.Duration K.operator.client.State

  emit : Datasource → String → String → String → Act (Unit {0})
  emit ds kind reason message =
      event_unguarded K.operator.has_recorder (datasource_event ds kind reason message)

  -- What the query answered.
  queried : Datasource → String → GoError ⊎ String → Act (Option GoError)
  unfolding emit go_error_text
  queried ds address (inl e) = do
    emit ds "Warning" "DatasourceConnectionFailed"
        ("API query failed to address: " <> (address <> (" with error: " <> go_error_text e)))
    pure (some e)
  queried ds address (inr result) = do
    emit ds "Normal" "DatasourceConnected" ("Datasource successfully connected - " <> result)
    pure none

  run_query : K.Handle → Act (GoError ⊎ String)
  run_query handle w =
      let (r, s) = K.query handle "up" w.cluster in (next r, record w { cluster = s })

  connected_client : Datasource → String → GoError ⊎ K.Handle → Act (Option GoError)
  unfolding emit queried run_query
  connected_client ds address (inl e) = do
    emit ds "Warning" "DatasourceConnectionFailed" "Datasource connection failed"
    pure (some e)
  connected_client ds address (inr handle) = do r ← run_query handle; queried ds address r

  unfoldable pub connect_datasource : Datasource → Act (Option GoError)
  unfolding connected_client
  connect_datasource ds =
      let address = ds.spec.connection_details.address <> "/prometheus" in
      if not (ds.spec.type == "mimir")
      then pure (some (text ("unsupported datasource type: " <> ds.spec.type)))
      else connected_client ds address
          (K.new_api_client address ds.spec.connection_details.target_tenant)

  connection : Option GoError → Act (Unit {0})
  connection none = pure tt
  connection (some e) = fail_transient (some e)

  -- The switch on the type. Any other type does nothing.
  unfoldable pub try_datasource : Datasource → Act (Unit {0})
  unfolding connection emit
  try_datasource ds =
      if ds.spec.type == "mimir"
      then (do e ← connect_datasource ds; connection e)
      else if ds.spec.type == "cortex"
      then emit ds "Warning" "NotImplemented" "Cortex support is not implemented yet"
      else pure tt

  datasource_found : Reply Datasource → Act (Unit {0})
  unfolding emit
  datasource_found (found ds) = do
    try_datasource ds
    emit ds "Normal" "DatasourceReconciled" "Datasource reconciled"
    finished
  datasource_found (failed e) = if is_not_found e then finished else fail_transient (some (api e))

  unfoldable pub reconcile_datasource : NamespacedName → Act (Unit {0})
  unfolding datasource_found
  reconcile_datasource req = do r ← call (K.operator.client.datasources.get req); datasource_found r
