-- ===== src/Examples/Namesakes.antt =====
-- Two SLOs of the name `checkout`, in two namespaces, and the clean-up of their groups.
use osko.Prelude.{String, ◌≡◌, refl, true, false, some, List, [], ◌∷◌}
use osko.Text
use osko.Errors.{ok}
use osko.Api.OpenSlo.{Slo}
use osko.Api.Monitoring.{PrometheusRule, RuleGroup}
use osko.Api.Osko.{ConnectionDetails}
use osko.Rules.Build.{create_prometheus_rule, rule_set, owned_meta, slo_group_version}
use osko.Rules.Recording.{is_prometheus_source}
use osko.Rules.Setup.{setup_rules, groups_of}
use osko.Rules.Setup.Outcomes.{setup_rules-eq-ok_iff}
use osko.Mimir.{mimir_groups}
use osko.MimirController.Deletion.{delete_groups}
use osko.MimirController.Namesakes.{delete_groups-of_namesake}
use osko.Examples.Rulers.{sample_ruler}
use osko.Examples.Samples.{
  sample_sli, sample_runtime, sample_config, slo_with, objective, team_label,
}

abbrev slo_of : String → Slo
slo_of namespace =
    let slo = slo_with (objective "0.99" ∷ []) team_label in
    record slo { meta = record slo.meta { annotations = []; namespace = namespace } }

supported :
    (n : String)
    → is_prometheus_source (rule_set sample_runtime sample_config (slo_of n) sample_sli) ≡ true
unfolding is_prometheus_source Text.lower_is rule_set
supported n = refl

abbrev groups_for : String → List RuleGroup
groups_for n =
    groups_of sample_runtime sample_config
      (rule_set sample_runtime sample_config (slo_of n) sample_sli) (some 10) "0.99"

sets_up :
    (n : String)
    → setup_rules sample_runtime sample_config
        (rule_set sample_runtime sample_config (slo_of n) sample_sli)
      ≡ ok (groups_for n)
sets_up n =
    (setup_rules-eq-ok_iff sample_runtime sample_config
        (rule_set sample_runtime sample_config (slo_of n) sample_sli) (groups_for n)).1
      (
        objective "0.99",
        some 990,
        record {
          rest = [];
          source = supported n;
          first = unfold rule_set in refl;
          parsed = refl;
          below_one = refl;
          above_zero = refl;
        },
        refl,
      )

abbrev rule_for : String → PrometheusRule
rule_for n = record {
  api_version = "monitoring.coreos.com/v1";
  kind = "PrometheusRule";
  meta =
      owned_meta (sample_runtime.new_controller_ref (slo_of n).meta slo_group_version "SLO")
        (slo_of n).meta;
  groups = groups_for n;
}

builds :
    (n : String)
    → create_prometheus_rule sample_runtime sample_config (slo_of n) sample_sli ≡ ok (rule_for n)
unfolding create_prometheus_rule
builds n = rw (sets_up n) refl

abbrev one_tenant : ConnectionDetails
one_tenant = record {
  address = "http://mimir";
  target_tenant = "t";
  source_tenants = [];
  sync_prometheus_rules = false;
}

delete_groups-of_namesake_example :
    delete_groups sample_ruler "t" (mimir_groups sample_runtime (groups_for "shop") one_tenant)
    ≡ delete_groups sample_ruler "t" (mimir_groups sample_runtime (groups_for "billing") one_tenant)
delete_groups-of_namesake_example =
    delete_groups-of_namesake sample_ruler "t" sample_config (slo_of "shop") (slo_of "billing")
      sample_sli sample_sli (rule_for "shop") (rule_for "billing") one_tenant one_tenant
      (builds "shop") (builds "billing") refl refl
