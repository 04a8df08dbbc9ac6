-- ===== src/DatasourceController/Returns.antt =====
-- Every call of the reconciler of Datasources returns.
use osko.Prelude.{◌≡◌, ◌≢◌, true, arith}
use osko.Api.Meta.{NamespacedName}
use osko.Cluster.{Outcome, panicked}
use osko.Cluster.Steps.{World, stop}
use osko.Cluster.Safety.{Never, Calm, returned-Safe}
use osko.DatasourceController.{
  DatasourceOperator, connect_datasource, try_datasource, reconcile_datasource,
}

module _ (K : DatasourceOperator) (recorded : K.operator.has_recorder ≡ true) where
  reconcile-Calm : (req : NamespacedName) → Calm Never (reconcile_datasource K req)
  unfolding reconcile_datasource try_datasource connect_datasource
  reconcile-Calm req = record { at = λ w. rw recorded (ground arith) }

  pub reconcile_datasource-returned :
      (req : NamespacedName) (w : World K.operator.client.State)
      → (o : Outcome K.operator.runtime.Duration) × ((reconcile_datasource K req w).0 ≡ stop o)
        × (o ≢ panicked)
  reconcile_datasource-returned req w =
      returned-Safe (reconcile_datasource K req w).0 ((reconcile-Calm req).at w)
