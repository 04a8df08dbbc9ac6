-- ===== src/PrometheusRuleController/Tenancy.antt =====
-- The reconciler of PrometheusRules stays in the namespace of its request.
use osko.Prelude.{String, Option}
use osko.Errors.{ApiError}
use osko.Api.Meta.{NamespacedName}
use osko.Api.OpenSlo.{Slo, Sli}
use osko.Api.Monitoring.{PrometheusRule}
use osko.Cluster.{Operator}
use osko.Cluster.Tenancy.{Keeps, Keeps-bind, Keeps-then, Any, Tenancy}
use osko.SloController.Fetch.Tenancy.{In}
use osko.SloController.Rule.Tenancy.{RuleIn}
use osko.PrometheusRuleController.Fetch.Tenancy.{
  fetch_rule-Keeps, fetch_owner-Keeps, check_managed-Keeps, fetch_sli-Keeps,
}
use osko.PrometheusRuleController.Update.Tenancy.{create_missing-Keeps, update_rule-Keeps}
use osko.PrometheusRuleController.{build_rule, reconcile_rule, reconcile_prometheus_rule}

module _ {O : Operator} {P : O.client.State → Type 0} {Here : String → Type 0}
    (T : Tenancy O P Here) (req : NamespacedName) (asked : Here req.namespace) where
  build_rule-Keeps :
      (rule : PrometheusRule) (slo : Slo) (r : Option ApiError × Sli)
      → RuleIn T rule
      → In T slo
      → Keeps P Any (build_rule O req rule slo r)
  unfolding build_rule
  build_rule-Keeps rule slo (err, sli) there here =
      Keeps-bind (create_missing-Keeps T req err rule slo sli asked there here)
        λ kept both. update_rule-Keeps T req kept sli asked both

  reconcile_rule-Keeps :
      (r : Option ApiError × PrometheusRule) → RuleIn T r.1 → Keeps P Any (reconcile_rule O req r)
  unfolding reconcile_rule
  reconcile_rule-Keeps (err, rule) there =
      Keeps-bind (fetch_owner-Keeps T req rule.meta.owner_references asked) λ slo here.
        Keeps-then (check_managed-Keeps T rule slo) (
          Keeps-bind (fetch_sli-Keeps T err slo here)
            λ sli _. build_rule-Keeps rule slo sli there here)

  pub reconcile_prometheus_rule-Keeps : Keeps P Any (reconcile_prometheus_rule O req)
  unfolding reconcile_prometheus_rule
  reconcile_prometheus_rule-Keeps =
      Keeps-bind (fetch_rule-Keeps T req asked) λ r there. reconcile_rule-Keeps r there
