-- ===== src/DatasourceController/Tenancy.antt =====
-- The reconciler of Datasources writes nothing.
use osko.Prelude.{String, not, ◌==◌, Option, some, none, ◌⊎◌, inl, inr}
use osko.Errors.{GoError}
use osko.Api.Meta.{NamespacedName}
use osko.Api.Osko.{Datasource}
use osko.Cluster.{Reply, found, failed}
use osko.Cluster.Steps.{is_not_found}
use osko.Cluster.Tenancy.{
  Keeps, Keeps-pure, Keeps-finish, Keeps-bind, Keeps-then, Keeps-if, Keeps-event_unguarded,
  get-Keeps, Any, Tenancy,
}
use osko.DatasourceController.{
  DatasourceOperator, emit, queried, run_query, connected_client, connect_datasource, connection,
  try_datasource, datasource_found, reconcile_datasource,
}

-- A reconciler of Datasources whose server keeps `P` in what is done in the namespaces `Here`, and
-- in a query.
pub record DatasourceTenancy (K : DatasourceOperator) (P : K.operator.client.State → Type 0)
    (Here : String → Type 0) : Type 1 where
  pub kubernetes : Tenancy K.operator P Here
  pub query :
      (handle : K.Handle) (text : String) (s : K.operator.client.State)
      → P s
      → P (K.query handle text s).1

module _ {K : DatasourceOperator} {P : K.operator.client.State → Type 0} {Here : String → Type 0}
    (T : DatasourceTenancy K P Here) where
  emit-Keeps :
      (ds : Datasource) (kind reason message : String) → Keeps P Any (emit K ds kind reason message)
  unfolding emit
  emit-Keeps ds kind reason message = Keeps-event_unguarded K.operator.has_recorder _

  queried-Keeps :
      (ds : Datasource) (address : String) (r : GoError ⊎ String)
      → Keeps P Any (queried K ds address r)
  unfolding queried
  queried-Keeps ds address (inl e) = Keeps-then (emit-Keeps ds _ _ _) (Keeps-pure _ tt)
  queried-Keeps ds address (inr result) = Keeps-then (emit-Keeps ds _ _ _) (Keeps-pure _ tt)

  run_query-Keeps : (handle : K.Handle) → Keeps P Any (run_query K handle)
  unfolding run_query
  run_query-Keeps handle = record { at = λ w p. (T.query handle _ w.cluster p, tt) }

  connected_client-Keeps :
      (ds : Datasource) (address : String) (c : GoError ⊎ K.Handle)
      → Keeps P Any (connected_client K ds address c)
  unfolding connected_client
  connected_client-Keeps ds address (inl e) = Keeps-then (emit-Keeps ds _ _ _) (Keeps-pure _ tt)
  connected_client-Keeps ds address (inr handle) =
      Keeps-bind (run_query-Keeps handle) λ r h. queried-Keeps ds address r

  connect_datasource-Keeps : (ds : Datasource) → Keeps P Any (connect_datasource K ds)
  unfolding connect_datasource
  connect_datasource-Keeps ds =
      Keeps-if (not (ds.spec.type == "mimir")) (Keeps-pure _ tt) (connected_client-Keeps ds _ _)

  connection-Keeps : (e : Option GoError) → Keeps P Any (connection K e)
  unfolding connection
  connection-Keeps none = Keeps-pure _ tt
  connection-Keeps (some e) = Keeps-finish _

  try_datasource-Keeps : (ds : Datasource) → Keeps P Any (try_datasource K ds)
  unfolding try_datasource
  try_datasource-Keeps ds =
      Keeps-if (ds.spec.type == "mimir")
        (Keeps-bind (connect_datasource-Keeps ds) λ e h. connection-Keeps e)
        (Keeps-if (ds.spec.type == "cortex") (emit-Keeps ds _ _ _) (Keeps-pure _ tt))

  datasource_found-Keeps : (r : Reply Datasource) → Keeps P Any (datasource_found K r)
  unfolding datasource_found
  datasource_found-Keeps (found ds) =
      Keeps-then (try_datasource-Keeps ds) (Keeps-then (emit-Keeps ds _ _ _) (Keeps-finish _))
  datasource_found-Keeps (failed e) = Keeps-if (is_not_found e) (Keeps-finish _) (Keeps-finish _)

  pub reconcile_datasource-Keeps :
      (req : NamespacedName) → Here req.namespace → Keeps P Any (reconcile_datasource K req)
  unfolding reconcile_datasource
  reconcile_datasource-Keeps req here =
      Keeps-bind (get-Keeps T.kubernetes.datasources req here) λ r h. datasource_found-Keeps r
