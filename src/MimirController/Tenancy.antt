-- ===== src/MimirController/Tenancy.antt =====
-- The reconciler of MimirRules stays in the namespace of its request.
use osko.Prelude.{String, none}
use osko.Api.Meta.{NamespacedName}
use osko.Cluster.{Reply, found, failed}
use osko.Cluster.Steps.{is_not_found}
use osko.Cluster.Tenancy.{
  Keeps, Keeps-pure, Keeps-finish, Keeps-bind, Keeps-then, Keeps-if, Keeps-tested, get-Keeps,
  Answered, Any,
}
use osko.MimirController.Ruler.{MimirOperator, new_mimir_client}
use osko.Mimir.{new_mimir_rule_groups}
use osko.MimirController.Retry.Tenancy.{MimirTenancy}
use osko.MimirController.Deletion.Tenancy.{MimirIn, RuleIn, handle_deletion-Keeps}
use osko.MimirController.Create.Tenancy.{create_missing_mimir_rule-Keeps}
use osko.MimirController.Upload.Tenancy.{failed_step-Keeps, upload-Keeps}
use osko.MimirController.{got, get_mimir_prometheus_rule, get_uploaded_rule, reconcile_mimir_rule}

module _ {M : MimirOperator} {P : M.operator.client.State → Type 0} {Here : String → Type 0}
    (T : MimirTenancy M P Here) where
  got-Keeps : {A : Type 0} {Q : A → Type 0} (r : Reply A) → Answered Q r → Keeps P Q (got M r)
  unfolding got
  got-Keeps (found a) q = Keeps-pure a q
  got-Keeps (failed e) q = Keeps-if (is_not_found e) (Keeps-finish _) (Keeps-finish _)

  pub reconcile_mimir_rule-Keeps :
      (req : NamespacedName) → Here req.namespace → Keeps P Any (reconcile_mimir_rule M req)
  unfolding reconcile_mimir_rule get_mimir_prometheus_rule get_uploaded_rule
  reconcile_mimir_rule-Keeps req asked =
      Keeps-bind
        (Keeps-bind (get-Keeps T.kubernetes.prometheus_rules req asked)
          λ r h. got-Keeps {Q = RuleIn T} r h)
        λ rule there.
          Keeps-bind
            (Keeps-bind (get-Keeps T.kubernetes.mimir_rules req asked)
              λ r h. got-Keeps {Q = MimirIn T} r h)
            λ mimir here.
              Keeps-bind
                (Keeps-tested {Q = Any} (new_mimir_client M mimir.spec.connection_details)
                  λ a e. tt)
                λ c i. Keeps-bind (failed_step-Keeps T {Q = Any} c i) λ handle _.
                  Keeps-bind
                    (Keeps-tested {Q = Any}
                      (new_mimir_rule_groups M.operator.runtime rule mimir.spec.connection_details)
                      λ a e. tt)
                    λ g k. Keeps-bind (failed_step-Keeps T {Q = Any} g k) λ groups _.
                      Keeps-then
                        (handle_deletion-Keeps T handle req rule groups asked there mimir here)
                        (Keeps-then
                          (create_missing_mimir_rule-Keeps T req asked none rule mimir there)
                          (upload-Keeps T handle req rule mimir asked there here groups))
