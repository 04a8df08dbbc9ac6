-- ===== src/PrometheusRuleController/Update.antt =====
-- The last steps of the reconciler of PrometheusRules: the rule is made if it is missing, made
-- again, compared and replaced, and the status of the SLO is written.
pub mod Tenancy
use osko.Prelude.{Option, some, none, ◌⊎◌, inl, inr, if◌then◌else◌}
use osko.Errors.{ApiError, GoError, api}
use osko.Api.Meta.{NamespacedName}
use osko.Api.OpenSlo.{Slo, Sli}
use osko.Api.Monitoring.{PrometheusRule}
use osko.Cluster.{Reply, found, failed, Operator}
use osko.Cluster.Steps.{
  pure, ◌>>=◌, ◌>>◌, call, fail, finished, event_unguarded, tested, is_not_found,
}
use osko.Cluster.Retry.{retry, or_fail, replace, write_status}
use osko.Rules.Build.{create_prometheus_rule}
use osko.SloController.Fetch.{Act, update_slo_status, slo_event}
use osko.SloController.Rule.{key_of, ready_slo}
use osko.MimirController.Deletion.{rule_with_meta}
use osko.PrometheusRuleController.Equal.{prometheus_rules_equal}

module _ (O : Operator) where
  -- Get of the SLO by its own name, and Status().Update
  unfoldable pub touch_slo : Slo → O.client.State → (Option ApiError × Slo) × O.client.State
  touch_slo slo = write_status O.client.slos (λ s. s) (key_of slo) slo

  reported : {A : Type 0} → ApiError → Option ApiError × Slo → Act O A
  reported e (none, slo) = fail (api e)
  reported e (some f, slo) = fail (api f)

  -- slo.Status.Ready = "Failed", and another attempt, which begins with a Get into `slo`.
  unfoldable pub report_failure : {A : Type 0} → ApiError → Slo → Act O A
  unfolding reported
  report_failure e slo = do
    r ← retry O touch_slo (record slo { status = record slo.status { ready = "Failed" } })
    reported e r

  touched_rule : Slo → Option ApiError × PrometheusRule → Act O (PrometheusRule × Slo)
  touched_rule slo (none, rule) = pure (rule, slo)
  touched_rule slo (some e, rule) = report_failure e slo

  made_ready : PrometheusRule → Option ApiError × Slo → Act O (PrometheusRule × Slo)
  made_ready rule (none, slo) = pure (rule, slo)
  made_ready rule (some e, slo) = finished

  created_reply :
      NamespacedName → PrometheusRule → Slo → Reply PrometheusRule → Act O (PrometheusRule × Slo)
  unfolding touched_rule made_ready
  created_reply req sent slo (failed e) = do
    event_unguarded O.has_recorder
        (slo_event slo "Error" "FailedToCreatePrometheusRule" "Failed to create Prometheus Rule")
    r ← retry O (write_status O.client.prometheus_rules (λ m. m) req) sent
    touched_rule slo r
  created_reply req sent slo (found rule) = do
    event_unguarded O.has_recorder
        (slo_event slo "Normal" "PrometheusRuleCreated" "PrometheusRule created successfully")
    r ← retry O (λ s. write_status O.client.slos ready_slo (key_of s) s) slo
    made_ready rule r

  -- The error of the construction has been overwritten by that of UpdateStatus.
  not_made : Reply Slo → Act O (PrometheusRule × Slo)
  not_made (found slo) = finished
  not_made (failed e) = fail (api e)

  made_rule : NamespacedName → Slo → GoError ⊎ PrometheusRule → Act O (PrometheusRule × Slo)
  unfolding created_reply not_made
  made_rule req slo (inl e) = do
    r ← update_slo_status O slo "Ready" "False" "Failed to create Prometheus Rule"
    not_made r
  made_rule req slo (inr rule) = do
    r ← call (O.client.prometheus_rules.create rule)
    created_reply req rule slo r

  make_rule : NamespacedName → Slo → Sli → Act O (PrometheusRule × Slo)
  unfolding made_rule
  make_rule req slo sli = do
    b ← tested (create_prometheus_rule O.runtime O.config slo sli)
    made_rule req slo b

  -- if apierrors.IsNotFound(err), of the value that `err` has after the SLI.
  unfoldable pub create_missing :
      NamespacedName → Option ApiError → PrometheusRule → Slo → Sli → Act O (PrometheusRule × Slo)
  unfolding make_rule
  create_missing req none rule slo sli = pure (rule, slo)
  create_missing req (some e) rule slo sli =
      if is_not_found e then make_rule req slo sli else pure (rule, slo)

  closed : Option ApiError × Slo → Act O (Unit {0})
  closed (none, slo) = finished
  closed (some e, slo) = report_failure e slo

  unfoldable pub replace_rule :
      NamespacedName → PrometheusRule → PrometheusRule → Slo → Act O (Unit {0})
  unfolding closed
  replace_rule req rule new slo = do
    r ← retry O (replace O.client.prometheus_rules (λ m. m.meta) rule_with_meta req) (rule, new)
    or_fail r
    s ← retry O touch_slo slo
    closed s

  unfoldable pub compare_rule :
      NamespacedName → PrometheusRule → Slo → GoError ⊎ PrometheusRule → Act O (Unit {0})
  compare_rule req rule slo (inl e) = fail e
  compare_rule req rule slo (inr new) =
      if prometheus_rules_equal rule new then finished else replace_rule req rule new slo

  unfoldable pub update_rule : NamespacedName → PrometheusRule × Slo → Sli → Act O (Unit {0})
  update_rule req (rule, slo) sli = do
    n ← tested (create_prometheus_rule O.runtime O.config slo sli)
    compare_rule req rule slo n
