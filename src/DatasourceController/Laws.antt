-- ===== src/DatasourceController/Laws.antt =====
-- What the reconciler of a Datasource reports.
use mathlib.Core.List.{append_assoc}
use osko.Prelude.{String, ◌<>◌, ◌≡◌, true, some, ◌⊎◌, inl, inr, List, [], ◌∷◌, ◌++◌, arith, eq_iff}
use osko.Errors.{GoError, go_error_text, transient}
use osko.Api.Meta.{NamespacedName}
use osko.Api.Osko.{Datasource}
use osko.Cluster.{found, Outcome, returned, returned_error, done, reconcile, Event}
use osko.Cluster.Steps.{stop, World}
use osko.DatasourceController.{
  DatasourceOperator, datasource_event, connect_datasource, try_datasource, reconcile_datasource,
}

-- What is reported of the answer to the query.
abbrev pub reported : Datasource → String → GoError ⊎ String → List Event
reported ds address (inr result) =
    datasource_event ds "Normal" "DatasourceConnected"
      ("Datasource successfully connected - " <> result)
    ∷ datasource_event ds "Normal" "DatasourceReconciled" "Datasource reconciled"
    ∷ []
reported ds address (inl e) =
    datasource_event ds "Warning" "DatasourceConnectionFailed"
      ("API query failed to address: " <> (address <> (" with error: " <> go_error_text e)))
    ∷ []

abbrev pub ended : {D : Type 0} → GoError ⊎ String → Outcome D
ended (inr result) = returned done
ended (inl e) = returned_error (reconcile (transient (some e) 5_000_000_000))

abbrev pub prometheus_address : Datasource → String
prometheus_address ds = ds.spec.connection_details.address <> "/prometheus"

module _ (K : DatasourceOperator) (req : NamespacedName) (w : World K.operator.client.State)
    (ds : Datasource) (s : K.operator.client.State) where
  -- Where there is a recorder, and a Datasource of the type `mimir` is found for which a client is
  -- made: the call queries `up` at the address with `/prometheus`, for the tenant. On an answer it
  -- reports the connection and ends; on an error it reports that, and asks to be called again.
  pub reconcile_mimir_datasource :
      (handle : K.Handle)
      → K.operator.has_recorder ≡ true
      → K.operator.client.datasources.get req w.cluster ≡ (found ds, s)
      → ds.spec.type ≡ "mimir"
      → K.new_api_client (prometheus_address ds) ds.spec.connection_details.target_tenant
        ≡ inr handle
      → let q = K.query handle "up" s in
        reconcile_datasource K req w ≡ (
          stop (ended q.0),
          record { cluster = q.1; events = w.events ++ reported ds (prometheus_address ds) q.0 },
        )
  unfolding reconcile_datasource try_datasource connect_datasource
  reconcile_mimir_datasource handle recorded got mimir made = grind (
    arith,
    recorded,
    got,
    mimir,
    made,
    eq_iff ds.spec.type "mimir",
    λ (x y : Event). append_assoc w.events (x ∷ []) (y ∷ []),
  )
