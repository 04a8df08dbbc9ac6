-- ===== src/MimirController/Retry.antt =====
-- The steps of the reconciler of MimirRules: the ready status, and the calls of Mimir's client.
pub mod Tenancy
use osko.Prelude.{Option, some, none, List, [], ◌∷◌}
use osko.Errors.{ApiError, GoError}
use osko.Api.Meta.{NamespacedName}
use osko.Api.Osko.{MimirRule}
use osko.Cluster.{Access}
use osko.Cluster.Steps.{Step, ◌>>◌, pure, fail_transient}
use osko.Cluster.Retry.{write_status}
use osko.MimirController.Ruler.{MimirOperator}

abbrev pub Act : MimirOperator → Type 0 → Type 0
Act M = Step M.operator.runtime.Duration M.operator.client.State

-- Get, Ready = "True", Status().Update
unfoldable pub set_ready :
    {S : Type 0} (kind : Access S MimirRule)
    → NamespacedName
    → MimirRule
    → S
    → (Option ApiError × MimirRule) × S
set_ready kind = write_status kind (λ m. record m { status = record m.status { ready = "True" } })

module _ (M : MimirOperator) where
  ruler_reply : Option GoError → Act M (Unit {0})
  ruler_reply none = pure tt
  ruler_reply (some e) = fail_transient (some e)

  -- A call of Mimir's client.
  unfoldable pub ruler_call :
      (M.operator.client.State → Option GoError × M.operator.client.State) → Act M (Unit {0})
  unfolding ruler_reply
  ruler_call f w = let (r, s) = f w.cluster in ruler_reply r (record w { cluster = s })

  -- The loop `for _, a := range as { if err := f(a); err != nil { return Transient(err) } }`.
  unfoldable pub ruler_calls :
      {A : Type 0}
      → (A → M.operator.client.State → Option GoError × M.operator.client.State)
      → List A
      → Act M (Unit {0})
  ruler_calls f [] = pure tt
  ruler_calls f (a ∷ rest) = do ruler_call (f a); ruler_calls f rest
