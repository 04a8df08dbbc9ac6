-- ===== src/MimirController/Create/Tenancy.antt =====
-- The branch that makes a missing MimirRule writes in the namespaces of the request and of the
-- PrometheusRule.
use osko.Prelude.{String, Option, some, none, ◌⊎◌, inl, inr}
use osko.Errors.{ApiError, GoError}
use osko.Api.Meta.{NamespacedName}
use osko.Api.Monitoring.{PrometheusRule}
use osko.Api.OpenSlo.{empty_slo}
use osko.Api.Osko.{MimirRule}
use osko.Cluster.{Reply, found, failed}
use osko.Cluster.Tenancy.{
  Keeps, Keeps-pure, Keeps-finish, Keeps-bind, Keeps-then, Keeps-if, Keeps-tested,
  Keeps-event_unguarded, create-Keeps, Answered, Fits, Any, moved,
}
use osko.Cluster.Retry.Tenancy.{retry-Keeps, or_transient-Keeps, write_status-Keeps}
use osko.Mimir.{new_mimir_rule}
use osko.SloController.Mimir.Tenancy.{namespace-new_mimir_rule}
use osko.MimirController.Ruler.{MimirOperator}
use osko.MimirController.Retry.{set_ready}
use osko.MimirController.Retry.Tenancy.{MimirTenancy}
use osko.MimirController.Deletion.Tenancy.{MimirIn, RuleIn}
use osko.MimirController.Create.{
  is_not_found_error, creation_failed, mimir_created, create_new, create_missing_mimir_rule,
}

module _ {M : MimirOperator} {P : M.operator.client.State → Type 0} {Here : String → Type 0}
    (T : MimirTenancy M P Here) (req : NamespacedName) (asked : Here req.namespace) where
  creation_failed-Keeps :
      (e : ApiError) (r : Option ApiError × MimirRule) → Keeps P Any (creation_failed M e r)
  unfolding creation_failed
  creation_failed-Keeps e (none, m) = Keeps-finish _
  creation_failed-Keeps e (some f, m) = Keeps-finish _

  mimir_created-Keeps :
      (sent : MimirRule) (r : Reply MimirRule)
      → MimirIn T sent
      → Answered (MimirIn T) r
      → Keeps P Any (mimir_created M req sent r)
  unfolding mimir_created set_ready
  mimir_created-Keeps sent (failed e) here h =
      Keeps-then (Keeps-event_unguarded M.operator.has_recorder _) (
        Keeps-bind
          (retry-Keeps T.kubernetes (MimirIn T) _ sent
            (write_status-Keeps T.kubernetes.mimir_rules (λ m. m) req (λ m k. k) asked) here)
          λ r k. creation_failed-Keeps e r)
  mimir_created-Keeps sent (found m) here there =
      Keeps-then (Keeps-event_unguarded M.operator.has_recorder _) (
        Keeps-bind
          (retry-Keeps T.kubernetes (MimirIn T) _ m
            (write_status-Keeps T.kubernetes.mimir_rules _ req (λ m k. k) asked) there)
          λ r k. Keeps-then (or_transient-Keeps {Q = MimirIn T} r k) (Keeps-finish _))

  create_new-Keeps :
      (n : GoError ⊎ MimirRule) → Fits (MimirIn T) n → Keeps P Any (create_new M req n)
  unfolding create_new
  create_new-Keeps (inl e) h = Keeps-finish _
  create_new-Keeps (inr new) here =
      Keeps-bind (create-Keeps T.kubernetes.mimir_rules new here)
        λ r h. mimir_created-Keeps new r here h

  pub create_missing_mimir_rule-Keeps :
      (e : Option GoError) (rule : PrometheusRule) (mimir : MimirRule)
      → RuleIn T rule
      → Keeps P Any (create_missing_mimir_rule M req e rule mimir)
  unfolding create_missing_mimir_rule
  create_missing_mimir_rule-Keeps none rule mimir there = Keeps-pure _ tt
  create_missing_mimir_rule-Keeps (some e) rule mimir there =
      Keeps-if (is_not_found_error e)
        (Keeps-bind
          (Keeps-tested
            (new_mimir_rule M.operator.runtime empty_slo rule mimir.spec.connection_details)
            λ m made.
              moved Here (namespace-new_mimir_rule M.operator.runtime empty_slo rule _ m made)
                there)
          λ n fits. create_new-Keeps n fits)
        (Keeps-pure _ tt)
