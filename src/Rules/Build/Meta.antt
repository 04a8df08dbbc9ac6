-- ===== src/Rules/Build/Meta.antt =====
-- The metadata of the rule that CreatePrometheusRule makes.
use osko.Prelude.{◌≡◌, refl, List, arith}
use osko.Runtime.{Runtime}
use osko.Config.{Config}
use osko.Errors.{Result, ok, err, panic}
use osko.Api.OpenSlo.{Slo, Sli}
use osko.Api.Monitoring.{PrometheusRule, RuleGroup}
use osko.Rules.Setup.{setup_rules}
use osko.Rules.Build.{create_prometheus_rule, rule_set, owned_meta, slo_group_version}

module _ (R : Runtime) (cfg : Config R) where
  pub meta-create_prometheus_rule :
      (slo : Slo) (sli : Sli) (rule : PrometheusRule)
      → create_prometheus_rule R cfg slo sli ≡ ok rule
      → rule.meta ≡ owned_meta (R.new_controller_ref slo.meta slo_group_version "SLO") slo.meta
  unfolding create_prometheus_rule
  meta-create_prometheus_rule slo sli rule made =
      by_groups (setup_rules R cfg (rule_set R cfg slo sli)) refl
    where
      by_groups :
          (r : Result (List RuleGroup))
          → setup_rules R cfg (rule_set R cfg slo sli) ≡ r
          → rule.meta ≡ owned_meta (R.new_controller_ref slo.meta slo_group_version "SLO") slo.meta
      by_groups (ok gs) e = ground (arith, e, made)
      by_groups (err g) e = absurd (cc (e, made))
      by_groups panic e = absurd (cc (e, made))
