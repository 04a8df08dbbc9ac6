-- ===== src/SloController/Rule.antt =====
-- The PrometheusRule of an SLO, and the MimirRule made from it.
pub mod Tenancy
use osko.Prelude.{◌<>◌, Option, some, none, ◌⊎◌, inl, inr, [], if◌then◌else◌}
use osko.Errors.{GoError, api, go_error_text}
use osko.Api.Meta.{ObjectMeta, NamespacedName, empty_meta}
use osko.Api.OpenSlo.{Slo, Sli}
use osko.Api.Monitoring.{PrometheusRule}
use osko.Cluster.{Reply, found, failed, Operator}
use osko.Cluster.Steps.{
  pure, ◌>>=◌, ◌>>◌, call, fail_transient, fail, finished, event, event_unguarded, tested,
  is_not_found,
}
use osko.Rules.Build.{create_prometheus_rule}
use osko.SloController.Fetch.{Act, update_slo_status, slo_event}

abbrev pub key_of : Slo → NamespacedName
key_of slo = record { name = slo.meta.name; namespace = slo.meta.namespace }

-- The zero objects that `Get` leaves behind when it fails.
abbrev pub empty_prometheus_rule : PrometheusRule
empty_prometheus_rule = record { api_version = ""; kind = ""; meta = empty_meta; groups = [] }

abbrev pub ready_slo : Slo → Slo
ready_slo slo = record slo { status = record slo.status { ready = "True" } }

module _ (O : Operator) where
  -- Transient with the error of an UpdateStatus that failed, and else with `e`.
  after_status : Option GoError → Reply Slo → Act O PrometheusRule
  after_status e (failed f) = fail_transient (some (api f))
  after_status e (found slo) = fail_transient e

  -- After the status update of a PrometheusRule that could not be created. If that fails too, the
  -- error of the creation is overwritten.
  rule_status_reply : Slo → GoError → Reply PrometheusRule → Act O PrometheusRule
  unfolding after_status
  rule_status_reply slo e (found rule) = fail_transient (some e)
  rule_status_reply slo e (failed f) = do
    r ← update_slo_status O slo "Ready" "False" "Failed to create Prometheus Rule"
    after_status none r

  slo_ready_reply : Reply Slo → Act O PrometheusRule
  slo_ready_reply (failed e) = fail (api e)
  slo_ready_reply (found slo) = finished

  owned_rule_reply : Slo → Reply PrometheusRule → Act O PrometheusRule
  unfolding slo_ready_reply
  owned_rule_reply slo (failed e) = fail (api e)
  owned_rule_reply slo (found rule) = do
    r ← call (O.client.slos.update_status (ready_slo slo))
    slo_ready_reply r

  own_rule : Slo → PrometheusRule → GoError ⊎ ObjectMeta → Act O PrometheusRule
  unfolding owned_rule_reply
  own_rule slo rule (inl e) = fail e
  own_rule slo rule (inr m) = do
    r ← call (O.client.prometheus_rules.update (record rule { meta = m }))
    owned_rule_reply slo r

  unfoldable pub created_rule_reply :
      Slo → PrometheusRule → Reply PrometheusRule → Act O PrometheusRule
  unfolding rule_status_reply own_rule
  created_rule_reply slo sent (failed e) = do
    event O.has_recorder
        (slo_event slo "Warning" "FailedToCreatePrometheusRule" "Failed to create Prometheus Rule")
    r ← call (O.client.prometheus_rules.update_status sent)
    rule_status_reply slo (api e) r
  created_rule_reply slo sent (found rule) = do
    event O.has_recorder
        (slo_event slo "Normal" "PrometheusRuleCreated" "PrometheusRule created successfully")
    m ← tested (O.util.set_owner_reference slo.meta "SLO" rule.meta)
    own_rule slo rule m

  unfoldable pub built_rule : Slo → GoError ⊎ PrometheusRule → Act O PrometheusRule
  unfolding after_status created_rule_reply
  built_rule slo (inl e) = do
    event_unguarded O.has_recorder
        (slo_event slo "Warning" "FailedToCreatePrometheusRule" "Failed to create Prometheus Rule")
    r ←
        update_slo_status O slo "Ready" "False"
          ("Failed to create new Prometheus Rule: " <> go_error_text e)
    after_status (some e) r
  built_rule slo (inr rule) = do
    r ← call (O.client.prometheus_rules.create rule)
    created_rule_reply slo rule r

  -- Only IsNotFound is tested: any other error leaves the zero object, and the call goes on.
  unfoldable pub rule_reply : Slo → Sli → Reply PrometheusRule → Act O PrometheusRule
  unfolding built_rule
  rule_reply slo sli (found rule) = pure rule
  rule_reply slo sli (failed e) =
      if is_not_found e
      then (do b ← tested (create_prometheus_rule O.runtime O.config slo sli); built_rule slo b)
      else pure empty_prometheus_rule

  unfoldable pub get_prometheus_rule : Slo → Sli → Act O PrometheusRule
  unfolding rule_reply
  get_prometheus_rule slo sli = do
    r ← call (O.client.prometheus_rules.get (key_of slo))
    rule_reply slo sli r
