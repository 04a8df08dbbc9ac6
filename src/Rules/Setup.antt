-- ===== src/Rules/Setup.antt =====
-- `SetupRules`: the rule groups of an SLO.
pub mod Laws
pub mod Outcomes
pub mod Refusals
pub mod Bounds
pub mod Windows
pub mod Alerting
use osko.Prelude.{
  String, ◌<>◌, Bool, true, false, ◌||◌, Option, none, some, List, [], ◌∷◌, ◌++◌, ◌==◌,
  if◌then◌else◌,
}
use osko.Map.{Map, lookup, insert, get}
use osko.Runtime.{Runtime}
use osko.Errors.{GoError, Result, ok, err, panic, text, wrapped, go_error_text, ◌>>=◌, ◌>>◌}
use osko.Config.{Config, page_critical, page_high, ticket_high, ticket_medium}
use osko.Api.OpenSlo.{ObjectivesSpec, TimeWindowSpec}
use osko.Api.Monitoring.{named_group, Rule, RuleGroup, str_val}
use osko.Rules.Labels.{MonitoringRuleSet, unique_strings, rule_labels}
use osko.Rules.Recording.{
  record_prefix, recording, create_recording_rule, create_antecedent_rule,
  create_sli_measurement_recording_rule, create_error_budget_ratio_recording_rule,
  create_burn_rate_recording_rule, is_prometheus_source, parse_target, validate_target,
}
use osko.Rules.Table.{RuleTable, windows_of, is_alerting_window, start_table, recording_groups}
use osko.Rules.Alerts.{
  BurnRateWindows, has_windows, get_burn_rate_windows, create_multi_burn_rate_alert,
}

-- The rules of one window.
pub record WindowRules : Type 0 where
  pub total : Rule
  pub good : Rule
  pub bad : Option Rule
  pub measurement : Rule
  pub ratio : Rule
  pub burn : Rule

module _ (R : Runtime) where
  -- The rule that the good events come from, and the bad rule if it is made of that.
  good_and_bad : MonitoringRuleSet → Rule → String → Rule × Option Rule
  good_and_bad mrs total window =
      let metric = mrs.sli.spec.ratio_metric in
      let good = metric.good.metric_source.spec.query in
      let bad = create_recording_rule mrs metric.bad.metric_source.spec.query "sli_bad" window in
      if good == ""
      then (
        create_antecedent_rule mrs (total.record_name <> (" - " <> bad.record_name)) "sli_good"
            window,
        some bad,
      )
      else (create_recording_rule mrs good "sli_good" window, none)

  unfoldable pub window_rules : MonitoringRuleSet → R.Float → String → WindowRules
  unfolding good_and_bad
  window_rules mrs budget window =
      let query = mrs.sli.spec.ratio_metric.total.metric_source.spec.query in
      let total = create_recording_rule mrs query "sli_total" window in
      let (good, bad) = good_and_bad mrs total window in
      let measurement = create_sli_measurement_recording_rule mrs total good window in
      let ratio = create_error_budget_ratio_recording_rule mrs measurement window in
      record {
        total = total;
        good = good;
        bad = bad;
        measurement = measurement;
        ratio = ratio;
        burn = create_burn_rate_recording_rule R mrs ratio budget window;
      }

  -- One round of the loop over the windows.
  unfoldable pub process_window : MonitoringRuleSet → R.Float → RuleTable → String → RuleTable
  process_window mrs budget t window =
      let w = window_rules mrs budget window in
      record t {
        total_rule = insert window w.total t.total_rule;
        good_rule = insert window w.good t.good_rule;
        bad_rule = elim w.bad [ some bad ↦ insert window bad t.bad_rule | none ↦ t.bad_rule ];
        sli_measurement = insert window w.measurement t.sli_measurement;
        error_budget_ratio = insert window w.ratio t.error_budget_ratio;
        burn_rate = insert window w.burn t.burn_rate;
        alerting_burn_rates =
            if is_alerting_window window
            then t.alerting_burn_rates ++ w.burn ∷ []
            else t.alerting_burn_rates;
      }

  unfoldable pub process_windows : MonitoringRuleSet → R.Float → RuleTable → List String → RuleTable
  process_windows mrs budget t [] = t
  process_windows mrs budget t (w ∷ ws) =
      process_windows mrs budget (process_window mrs budget t w) ws

  -- One of the four blocks: the alert, if both windows have a burn rate.
  unfoldable pub alert_if :
      Config R → MonitoringRuleSet → BurnRateWindows → String → String → String → List Rule
  alert_if cfg mrs brw short long sre =
      if has_windows brw (short ∷ long ∷ [])
      then create_multi_burn_rate_alert R cfg mrs brw (some "5m") sre ∷ []
      else []

  unfoldable pub alert_rules : Config R → MonitoringRuleSet → List Rule → List Rule
  alert_rules cfg mrs burn_rates =
      let brw = get_burn_rate_windows burn_rates in
      alert_if cfg mrs brw "5m" "1h" page_critical
      ++ (alert_if cfg mrs brw "30m" "6h" page_high
          ++ (alert_if cfg mrs brw "2h" "24h" ticket_high
              ++ alert_if cfg mrs brw "6h" "3d" ticket_medium))

  unfoldable pub alert_groups : Config R → MonitoringRuleSet → List Rule → List RuleGroup
  alert_groups cfg mrs burn_rates =
      if get "osko.dev/magicAlerting" mrs.slo.meta.annotations == "true"
      then named_group (mrs.slo.meta.name <> "_slo_alert") (alert_rules cfg mrs burn_rates) ∷ []
      else []

  -- Objectives[0]
  first_objective : List ObjectivesSpec → Result ObjectivesSpec
  first_objective [] = panic
  first_objective (o ∷ _) = ok o

  parse_failure : Result R.Float → Result R.Float
  parse_failure (ok x) = ok x
  parse_failure (err e) = err (wrapped ("failed to parse SLO target: " <> go_error_text e) e)
  parse_failure panic = panic

  unfoldable pub groups_of : Config R → MonitoringRuleSet → R.Float → String → List RuleGroup
  groups_of cfg mrs budget target =
      let windows = windows_of mrs in
      let table = process_windows mrs budget (start_table mrs target) windows in
      recording_groups mrs table windows ++ alert_groups cfg mrs table.alerting_burn_rates

  unfoldable pub setup_rules : Config R → MonitoringRuleSet → Result (List RuleGroup)
  unfolding first_objective parse_failure
  setup_rules cfg mrs =
      if is_prometheus_source mrs
      then (do
        objective ← first_objective mrs.slo.spec.objectives
        target ← parse_failure (parse_target R objective.target)
        validate_target R target
        ok (groups_of cfg mrs (R.sub R.one target) objective.target))
      else err (text "unsupported metric source type")
