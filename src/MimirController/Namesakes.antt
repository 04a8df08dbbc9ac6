-- ===== src/MimirController/Namesakes.antt =====
-- Two SLOs of one name, in two namespaces: their rule groups have the same names in Mimir.
use osko.Prelude.{
  arith, String, ◌<>◌, ◌≡◌, refl, ap, sym, ◌∙◌, List, [], ◌∷◌, map, ◌==◌, Bool-cases, inl, inr,
  if◌then◌else◌,
}
use osko.Runtime.{Runtime}
use osko.Config.{Config}
use osko.Map.{get}
use osko.Errors.{Result, ok, err, panic}
use osko.Api.OpenSlo.{Slo, Sli}
use osko.Api.Monitoring.{Rule, RuleGroup, PrometheusRule}
use osko.Api.Osko.{ConnectionDetails, MimirRuleGroup}
use osko.Cluster.Steps.{◌>>◌}
use osko.Rules.Labels.{MonitoringRuleSet}
use osko.Rules.Table.{recording_groups}
use osko.Rules.Setup.{setup_rules, groups_of, alert_groups}
use osko.Rules.Setup.Outcomes.{setup_rules-eq-ok_iff}
use osko.Rules.Build.{create_prometheus_rule, rule_set}
use osko.Mimir.{mimir_groups}
use osko.MimirController.Ruler.{MimirOperator, delete_mimir_rule_group_api}
use osko.MimirController.Retry.{Act, ruler_call, ruler_calls}
use osko.MimirController.Deletion.{delete_groups}

-- The names of the groups of an SLO.
abbrev pub group_names : Slo → List String
group_names slo =
    (slo.meta.name <> "_slo_target")
    ∷ (slo.meta.name <> "_sli_good")
    ∷ (slo.meta.name <> "_sli_total")
    ∷ (slo.meta.name <> "_sli_measurement")
    ∷ (slo.meta.name <> "_error_budget_ratio")
    ∷ (slo.meta.name <> "_burn_rate")
    ∷ (if get "osko.dev/magicAlerting" slo.meta.annotations == "true"
        then (slo.meta.name <> "_slo_alert") ∷ []
        else [])

abbrev name_of : RuleGroup → String
name_of g = g.name

abbrev mimir_name_of : MimirRuleGroup → String
mimir_name_of g = g.name

names-mimir_groups :
    (R : Runtime) (groups : List RuleGroup) (details : ConnectionDetails)
    → map mimir_name_of (mimir_groups R groups details) ≡ map name_of groups
unfolding mimir_groups
names-mimir_groups R [] details = refl
names-mimir_groups R (g ∷ groups) details =
    ap (λ (l : List String). g.name ∷ l) (names-mimir_groups R groups details)

names-alert_groups :
    (R : Runtime) (cfg : Config R) (mrs : MonitoringRuleSet) (burn_rates : List Rule)
    → map name_of (alert_groups R cfg mrs burn_rates) ≡ (
        if get "osko.dev/magicAlerting" mrs.slo.meta.annotations == "true"
        then (mrs.slo.meta.name <> "_slo_alert") ∷ []
        else [])
unfolding alert_groups
names-alert_groups R cfg mrs burn_rates =
    elim (Bool-cases (get "osko.dev/magicAlerting" mrs.slo.meta.annotations == "true")) [
      | inl asked ↦ rw asked refl
      | inr other ↦ rw other refl
    ]

names-groups_of :
    (R : Runtime) (cfg : Config R) (mrs : MonitoringRuleSet) (budget : R.Float) (target : String)
    → map name_of (groups_of R cfg mrs budget target) ≡ group_names mrs.slo
unfolding groups_of recording_groups
names-groups_of R cfg mrs budget target =
    ap
      (λ (l : List String).
        (mrs.slo.meta.name <> "_slo_target")
        ∷ (mrs.slo.meta.name <> "_sli_good")
        ∷ (mrs.slo.meta.name <> "_sli_total")
        ∷ (mrs.slo.meta.name <> "_sli_measurement")
        ∷ (mrs.slo.meta.name <> "_error_budget_ratio")
        ∷ (mrs.slo.meta.name <> "_burn_rate")
        ∷ l)
      (names-alert_groups R cfg mrs _)

names-setup_rules :
    (R : Runtime) (cfg : Config R) (mrs : MonitoringRuleSet) (groups : List RuleGroup)
    → setup_rules R cfg mrs ≡ ok groups
    → map name_of groups ≡ group_names mrs.slo
names-setup_rules R cfg mrs groups made =
    let accepted = (setup_rules-eq-ok_iff R cfg mrs groups).0 made in
    ap (map name_of) accepted.3 ∙ names-groups_of R cfg mrs _ _

-- The groups that Mimir gets for an SLO.
names-create_prometheus_rule :
    (R : Runtime) (cfg : Config R) (slo : Slo) (sli : Sli) (rule : PrometheusRule)
    (details : ConnectionDetails)
    → create_prometheus_rule R cfg slo sli ≡ ok rule
    → map mimir_name_of (mimir_groups R rule.groups details) ≡ group_names slo
unfolding rule_set
names-create_prometheus_rule R cfg slo sli rule details made =
    names-mimir_groups R rule.groups details
    ∙ by_groups (setup_rules R cfg (rule_set R cfg slo sli)) refl
  where
    by_groups :
        (r : Result (List RuleGroup))
        → setup_rules R cfg (rule_set R cfg slo sli) ≡ r
        → map name_of rule.groups ≡ group_names slo
    by_groups (ok gs) e =
        let held : rule.groups ≡ gs = unfold create_prometheus_rule in ground (arith, e, made) in
        ap (map name_of) held ∙ names-setup_rules R cfg (rule_set R cfg slo sli) gs e
    by_groups (err g) e = absurd (unfold create_prometheus_rule in cc (e, made))
    by_groups panic e = absurd (unfold create_prometheus_rule in cc (e, made))

module _ (M : MimirOperator) (handle : M.Handle) where
  -- A deletion goes by the names only.
  delete_groups-names :
      (groups : List MimirRuleGroup)
      → delete_groups M handle groups
        ≡ ruler_calls M (delete_mimir_rule_group_api M handle) (map mimir_name_of groups)
  unfolding delete_groups ruler_calls
  delete_groups-names [] = refl
  delete_groups-names (g ∷ groups) =
      ap (λ (k : Act M (Unit {0})). ruler_call M (delete_mimir_rule_group_api M handle g.name) >> k)
        (delete_groups-names groups)

  -- The groups of an SLO in Mimir go by its name alone: the clean-up of a MimirRule asks Mimir for
  -- the same deletions as that of an SLO of the same name in any other namespace, where both or
  -- neither ask for alerting. With one tenant, the groups of the other SLO are deleted.
  pub delete_groups-of_namesake :
      (cfg : Config M.operator.runtime) (a b : Slo) (sli_a sli_b : Sli)
      (rule_a rule_b : PrometheusRule) (details_a details_b : ConnectionDetails)
      → create_prometheus_rule M.operator.runtime cfg a sli_a ≡ ok rule_a
      → create_prometheus_rule M.operator.runtime cfg b sli_b ≡ ok rule_b
      → a.meta.name ≡ b.meta.name
      → get "osko.dev/magicAlerting" a.meta.annotations
        ≡ get "osko.dev/magicAlerting" b.meta.annotations
      → delete_groups M handle (mimir_groups M.operator.runtime rule_a.groups details_a)
        ≡ delete_groups M handle (mimir_groups M.operator.runtime rule_b.groups details_b)
  delete_groups-of_namesake cfg a b sli_a sli_b rule_a rule_b details_a details_b made_a made_b
        named alerting =
      delete_groups-names (mimir_groups M.operator.runtime rule_a.groups details_a)
      ∙ ap (ruler_calls M (delete_mimir_rule_group_api M handle)) (
          names-create_prometheus_rule M.operator.runtime cfg a sli_a rule_a details_a made_a
          ∙ (same
              ∙ sym (
                  names-create_prometheus_rule M.operator.runtime cfg b sli_b rule_b details_b
                    made_b)))
      ∙ sym (delete_groups-names (mimir_groups M.operator.runtime rule_b.groups details_b))
    where
      same : group_names a ≡ group_names b
      same = rw (named, alerting) refl
