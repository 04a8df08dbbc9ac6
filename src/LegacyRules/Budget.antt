-- ===== src/LegacyRules/Budget.antt =====
-- BudgetRule, and the measurement of an SLI.
use osko.Prelude.{String, ◌<>◌, Option, some, none, ◌||◌, ◌==◌, if◌then◌else◌}
use osko.Errors.{Result, ok, ◌>>=◌}
use osko.Api.OpenSlo.{SliSpec}
use osko.Api.Monitoring.{IntOrString, Rule, empty_rule}
use osko.LegacyRules.Labels.{MetricLabel, deref, new_metric_label_compiler}
use osko.LegacyRules.Ratio.{Store, RuleConfig, fields, record_of, compiled}

-- BudgetRule; Sli and Slo are read by nothing.
pub record BudgetRule : Type 0 where
  pub record_name : String
  pub total_rule_config : Option RuleConfig
  pub bad_rule_config : Option RuleConfig
  pub good_rule_config : Option RuleConfig
  pub target_rule_config : Option RuleConfig

abbrev pub good_query : SliSpec → String
good_query spec = spec.ratio_metric.good.metric_source.spec.query

-- getRelevantRule
unfoldable pub get_relevant_rule : BudgetRule → String → String → Option RuleConfig
get_relevant_rule b good_rule_spec slo_indicator_spec =
    if good_rule_spec == "" || slo_indicator_spec == ""
    then b.bad_rule_config
    else b.good_rule_config

-- `osko_<record>{labels}` of a rule
series : Option RuleConfig → Store → Result String
series pointer store = do
  c ← deref pointer
  labels ← compiled (fields c).metric_label_compiler store none ""
  ok (record_of (fields c).record_name <> ("{" <> (labels <> "}")))

-- intstr.Parse of k8s.io/apimachinery
module _ (parse : String → IntOrString) where
  -- createBudgetRule
  unfoldable pub create_budget_rule : BudgetRule → Option RuleConfig → Store → Result Rule
  unfolding series
  create_budget_rule b gb_rule store = do
    target ← series b.target_rule_config store
    good_or_bad ← series gb_rule store
    total ← series b.total_rule_config store
    ok (record empty_rule {
      record_name = record_of b.record_name;
      expr = parse ("(1 - " <> (target <> (") * (" <> (good_or_bad <> (" / " <> (total <> ")"))))));
    })

  -- NewBudgetRule, whose second result is the zero rule.
  unfoldable pub new_budget_rule : BudgetRule → Store → Result (Rule × Rule)
  new_budget_rule b store = do
    good ← deref b.good_rule_config
    sli ← deref (fields good).sli
    slo ← deref (fields good).slo
    ind ← deref slo.spec.indicator
    rule ←
        create_budget_rule b (get_relevant_rule b (good_query sli.spec) (good_query ind.spec)) store
    ok (rule, empty_rule)

  -- CreateSLIMeasurement
  unfoldable pub create_sli_measurement : MetricLabel → Rule → Rule → Result Rule
  create_sli_measurement m good_rule total_rule = do
    good_labels ← new_metric_label_compiler m (some good_rule) ""
    total_labels ← new_metric_label_compiler m (some total_rule) ""
    ok (record empty_rule {
      record_name = record_of "sli_measurement";
      expr = parse (
          good_rule.record_name
          <> ("{"
              <> (good_labels
                  <> ("} / " <> (total_rule.record_name <> ("{" <> (total_labels <> "}")))))));
    })
