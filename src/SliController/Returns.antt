-- ===== src/SliController/Returns.antt =====
-- Every call of the reconciler of SLIs returns.
use osko.Prelude.{arith}
use osko.Api.Meta.{NamespacedName}
use osko.Cluster.{Operator}
use osko.Cluster.Safety.{Never, Calm}
use osko.SliController.{reconcile_sli}

module _ (O : Operator) where
  pub reconcile_sli-Calm : (req : NamespacedName) → Calm Never (reconcile_sli O req)
  unfolding reconcile_sli
  reconcile_sli-Calm req = record { at = λ w. ground arith }
