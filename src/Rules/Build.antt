-- ===== src/Rules/Build.antt =====
-- `CreatePrometheusRule`: the PrometheusRule resource of an SLO.
pub mod Meta
use osko.Prelude.{String, Option, none, [], ◌∷◌, ◌==◌, if◌then◌else◌}
use osko.Map.{get}
use osko.Runtime.{Runtime}
use osko.Config.{Config}
use osko.Errors.{Result, ok, ◌>>=◌}
use osko.Api.Meta.{ObjectMeta, OwnerReference}
use osko.Api.OpenSlo.{Slo, Sli}
use osko.Api.Monitoring.{PrometheusRule, empty_rule}
use osko.Rules.Labels.{MonitoringRuleSet}
use osko.Rules.Setup.{setup_rules}

-- GroupVersion of api/openslo/v1
abbrev pub slo_group_version : String
slo_group_version = "openslo.com/v1"

-- The name, labels and annotations are taken over; the SLO is the controlling owner.
abbrev pub owned_meta : OwnerReference → ObjectMeta → ObjectMeta
owned_meta owner m = record {
  name = m.name;
  namespace = m.namespace;
  uid = "";
  resource_version = "";
  labels = m.labels;
  annotations = m.annotations;
  finalizers = [];
  owner_references = owner ∷ [];
  deletion_timestamp = none;
}

-- CreateAlertingRule returns nil, nil.
pub create_alerting_rule : Result (Option PrometheusRule)
create_alerting_rule = ok none

module _ (R : Runtime) (cfg : Config R) where
  unfoldable pub rule_set : Slo → Sli → MonitoringRuleSet
  rule_set slo sli =
      let annotated = get "osko.dev/baseWindow" slo.meta.annotations in
      record {
        slo = slo;
        sli = sli;
        target_rule = empty_rule;
        base_rule = empty_rule;
        good_rule = empty_rule;
        total_rule = empty_rule;
        base_window =
            if annotated == "" then R.duration_text cfg.default_base_window else annotated;
      }

  unfoldable pub create_prometheus_rule : Slo → Sli → Result PrometheusRule
  create_prometheus_rule slo sli = do
    groups ← setup_rules R cfg (rule_set slo sli)
    ok (record {
      api_version = "monitoring.coreos.com/v1";
      kind = "PrometheusRule";
      meta = owned_meta (R.new_controller_ref slo.meta slo_group_version "SLO") slo.meta;
      groups = groups;
    })
