-- ===== src/MimirController/Held.antt =====
-- The finalizers that the reconciler of MimirRules puts on before it goes on.
use mathlib.Core.Path.{subst}
use osko.Prelude.{◌≡◌, refl, Option, some, none, inl, inr, arith, Bool-cases}
use osko.Errors.{ApiError}
use osko.Api.Meta.{NamespacedName}
use osko.Api.Osko.{MimirRule}
use osko.Cluster.{Operator}
use osko.Cluster.Steps.{World, next, ◌>>=◌}
use osko.Cluster.Retry.{retry, or_transient}
use osko.Cluster.Retry.Runs.{Retries, Runs-ind, Held, add_finalizer-Held}
use osko.MimirController.Ruler.{MimirOperator}
use osko.MimirController.Deletion.{mimir_rule_finalizer, mimir_with_meta}
use osko.MimirController.Upload.{hold_mimir_rule}

-- What a repeated attempt ends with, where the reconciler goes on.
retried-ind :
    (O : Operator) (A : Type 0) (f : A → O.client.State → (Option ApiError × A) × O.client.State)
    (Q : A → Type 0)
    → Retries O
    → ((a b : A) (s t : O.client.State) → f a s ≡ ((none, b), t) → Q b)
    → (a b : A) (w w' : World O.client.State) → (retry O f a >>= or_transient) w ≡ (next b, w')
    → Q b
unfolding retry
retried-ind O A f Q retries step a b w w' h = by_result (O.retry_on_conflict f a w.cluster) refl h
  where
    same :
        {c : A} {t : O.client.State}
        → O.retry_on_conflict f a w.cluster ≡ ((none, c), t)
        → (retry O f a >>= or_transient) w ≡ (next b, w')
        → c ≡ b
    same e g = unfold retry or_transient in cc (rw e at g)

    by_result :
        (r : (Option ApiError × A) × O.client.State)
        → O.retry_on_conflict f a w.cluster ≡ r
        → (retry O f a >>= or_transient) w ≡ (next b, w')
        → Q b
    by_result ((none, c), t) e g =
        subst Q (same e g) (Runs-ind f Q step a w.cluster c t (rw e at (retries A f a w.cluster)))
    by_result ((some m, c), t) e g = absurd (unfold retry or_transient in cc (rw e at g))

module _ (M : MimirOperator) (retries : Retries M.operator) where
  -- Where RetryOnConflict does as documented: the reconciler goes on only with a MimirRule that has
  -- its finalizer, or that the server answered a write of the finalizer with, however often the
  -- write met a conflict.
  pub hold_mimir_rule-Held :
      (req : NamespacedName) (mimir m : MimirRule) (w w' : World M.operator.client.State)
      → hold_mimir_rule M req mimir w ≡ (next m, w')
      → Held M.operator.client.mimir_rules
          (λ (r : MimirRule). r.meta)
          mimir_with_meta
          M.operator.util.contains_finalizer
          M.operator.util.add_finalizer
          mimir_rule_finalizer
          m
  unfolding hold_mimir_rule
  hold_mimir_rule-Held req mimir m w w' h =
      elim (Bool-cases (M.operator.util.contains_finalizer mimir.meta mimir_rule_finalizer)) [
        | inl has ↦ inl (ground (arith, has, h))
        | inr lacks ↦
            retried-ind M.operator MimirRule _ _ retries
              (λ a b s t e.
                add_finalizer-Held M.operator.client.mimir_rules (λ (r : MimirRule). r.meta)
                  mimir_with_meta M.operator.util.contains_finalizer M.operator.util.add_finalizer
                  mimir_rule_finalizer req a b s t e)
              mimir m w w' (rw lacks at h)
      ]
