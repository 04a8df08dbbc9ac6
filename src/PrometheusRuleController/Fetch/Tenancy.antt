-- ===== src/PrometheusRuleController/Fetch/Tenancy.antt =====
-- The first steps of the reconciler of PrometheusRules stay in the namespace of the request.
use osko.Prelude.{String, Option, some, none, List, [], ◌∷◌, ◌==◌, ◌&&◌}
use osko.Errors.{ApiError}
use osko.Api.Meta.{OwnerReference, NamespacedName}
use osko.Api.OpenSlo.{Slo, Sli, Indicator, empty_slo}
use osko.Api.Monitoring.{PrometheusRule}
use osko.Cluster.{Reply, found, failed, Operator}
use osko.Cluster.Steps.{is_not_found}
use osko.Cluster.Tenancy.{
  Keeps, Keeps-pure, Keeps-finish, Keeps-bind, Keeps-if, Keeps-event_unguarded, Keeps-then,
  get-Keeps, Answered, Any, Tenancy,
}
use osko.SloController.Fetch.Tenancy.{In, update_slo_status-Keeps}
use osko.SloController.Rule.Tenancy.{RuleIn}
use osko.PrometheusRuleController.Equal.{is_empty_slo}
use osko.PrometheusRuleController.Fetch.{
  rule_fetched, fetch_rule, owner_fetched, fetch_slo, fetch_owner, check_managed, unmanaged,
  status_of_missing, sli_fetched, status_of_none, find_sli, fetch_sli,
}

module _ {O : Operator} {P : O.client.State → Type 0} {Here : String → Type 0}
    (T : Tenancy O P Here) where
  rule_fetched-Keeps :
      (r : Reply PrometheusRule)
      → Answered (RuleIn T) r
      → Keeps P (λ (x : Option ApiError × PrometheusRule). RuleIn T x.1) (rule_fetched O r)
  unfolding rule_fetched
  rule_fetched-Keeps (found rule) here = Keeps-pure (none, rule) here
  rule_fetched-Keeps (failed e) h = Keeps-if (is_not_found e) (Keeps-finish _) (Keeps-finish _)

  pub fetch_rule-Keeps :
      (req : NamespacedName)
      → Here req.namespace
      → Keeps P (λ (x : Option ApiError × PrometheusRule). RuleIn T x.1) (fetch_rule O req)
  unfolding fetch_rule
  fetch_rule-Keeps req here =
      Keeps-bind (get-Keeps T.prometheus_rules req here) λ r h. rule_fetched-Keeps r h

  owner_fetched-Keeps : (r : Reply Slo) → Answered (In T) r → Keeps P (In T) (owner_fetched O r)
  unfolding owner_fetched
  owner_fetched-Keeps (found slo) here = Keeps-pure slo here
  owner_fetched-Keeps (failed e) h = Keeps-finish _

  fetch_slo-Keeps : (key : NamespacedName) → Here key.namespace → Keeps P (In T) (fetch_slo O key)
  unfolding fetch_slo
  fetch_slo-Keeps key here = Keeps-bind (get-Keeps T.slos key here) λ r h. owner_fetched-Keeps r h

  pub fetch_owner-Keeps :
      (req : NamespacedName) (refs : List OwnerReference)
      → Here req.namespace
      → Keeps P (In T) (fetch_owner O req refs)
  unfolding fetch_owner
  fetch_owner-Keeps req [] here = Keeps-pure empty_slo T.nowhere
  fetch_owner-Keeps req (ref ∷ refs) here =
      Keeps-if (ref.kind == "SLO")
        (fetch_slo-Keeps (record { name = ref.name; namespace = req.namespace }) here)
        (fetch_owner-Keeps req refs here)

  pub check_managed-Keeps :
      (rule : PrometheusRule) (slo : Slo) → Keeps P Any (check_managed O rule slo)
  unfolding check_managed
  check_managed-Keeps rule slo =
      Keeps-if (is_empty_slo slo && unmanaged rule.meta.labels) (Keeps-finish _) (Keeps-pure _ tt)

  status_of_missing-Keeps : (r : Reply Slo) → Keeps P Any (status_of_missing O r)
  unfolding status_of_missing
  status_of_missing-Keeps (found slo) = Keeps-finish _
  status_of_missing-Keeps (failed e) = Keeps-finish _

  sli_fetched-Keeps : (slo : Slo) (r : Reply Sli) → In T slo → Keeps P Any (sli_fetched O slo r)
  unfolding sli_fetched
  sli_fetched-Keeps slo (found sli) here = Keeps-pure _ tt
  sli_fetched-Keeps slo (failed e) here =
      Keeps-bind (update_slo_status-Keeps T slo _ _ _ here) λ r h. status_of_missing-Keeps r

  status_of_none-Keeps : (slo : Slo) (r : Reply Slo) → Keeps P Any (status_of_none O slo r)
  unfolding status_of_none
  status_of_none-Keeps slo (found kept) = Keeps-finish _
  status_of_none-Keeps slo (failed e) =
      Keeps-then (Keeps-event_unguarded O.has_recorder _) (Keeps-finish _)

  find_sli-Keeps :
      (err : Option ApiError) (slo : Slo) (ref : Option String) (ind : Option Indicator)
      → In T slo
      → Keeps P Any (find_sli O err slo ref ind)
  unfolding find_sli
  find_sli-Keeps err slo (some ref) ind here =
      Keeps-bind (get-Keeps T.slis _ here) λ r h. sli_fetched-Keeps slo r here
  find_sli-Keeps err slo none (some ind) here = Keeps-pure _ tt
  find_sli-Keeps err slo none none here =
      Keeps-bind (update_slo_status-Keeps T slo _ _ _ here) λ r h. status_of_none-Keeps slo r

  pub fetch_sli-Keeps :
      (err : Option ApiError) (slo : Slo) → In T slo → Keeps P Any (fetch_sli O err slo)
  unfolding fetch_sli
  fetch_sli-Keeps err slo here =
      find_sli-Keeps err slo slo.spec.indicator_ref slo.spec.indicator here
