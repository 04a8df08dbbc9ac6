-- ===== src/Rules/Recording.antt =====
-- The recording rules of one window.
use osko.Prelude.{String, ◌<>◌, Bool, none, [], ◌==◌, ◌||◌, if◌then◌else◌}
use osko.Text.{lower_is}
use osko.Runtime.{Runtime}
use osko.Errors.{Result, ok, err, wrapped, err_invalid_target, go_error_text}
use osko.Api.Monitoring.{Rule, str_val}
use osko.Rules.Labels.{MonitoringRuleSet, rule_labels, map_to_colon_separated_string}

abbrev pub record_prefix : String
record_prefix = "osko"

-- A rule with a record, a text and the labels, its other fields unset.
abbrev pub recording : String → String → MonitoringRuleSet → String → Rule
recording name expr mrs window = record {
  record_name = name;
  alert = "";
  expr = str_val expr;
  for_duration = none;
  keep_firing_for = none;
  labels = rule_labels mrs window;
  annotations = [];
}

-- `record{labels}`, the selector of a rule's series.
abbrev pub selector : Rule → String
selector r = r.record_name <> ("{" <> (map_to_colon_separated_string r.labels <> "}"))

unfoldable pub create_sli_measurement_recording_rule :
    MonitoringRuleSet → Rule → Rule → String → Rule
create_sli_measurement_recording_rule mrs total_rule good_rule window =
    recording (record_prefix <> "_sli_measurement")
      ("clamp_max(" <> (selector good_rule <> (" / " <> (selector total_rule <> ", 1)")))) mrs
      window

unfoldable pub create_error_budget_ratio_recording_rule : MonitoringRuleSet → Rule → String → Rule
create_error_budget_ratio_recording_rule mrs sli_measurement window =
    recording (record_prefix <> "_error_budget_ratio") ("1 - " <> selector sli_measurement) mrs
      window

unfoldable pub create_antecedent_rule : MonitoringRuleSet → String → String → String → Rule
create_antecedent_rule mrs metric record_name window =
    recording (record_prefix <> ("_" <> record_name)) metric mrs window

-- sourceString is the first of the two types that is set
unfoldable pub is_prometheus_source : MonitoringRuleSet → Bool
is_prometheus_source mrs =
    let total = mrs.sli.spec.ratio_metric.total.metric_source.type in
    let threshold = mrs.sli.spec.threshold_metric.metric_source.type in
    let source = (if total == "" then threshold else total) in
    lower_is source "prometheus"
    || lower_is source "mimir"
    || lower_is source "cortex"
    || lower_is source "victoriametrics"
    || lower_is source "thanos"

abbrev grouping : String
grouping = "namespace, service, sli_name, slo_name"

-- `promqlTemplate`, executed. The markers `{{-` and `-}}` take the white space away.
unfoldable pub promql : String → String → String → String → String
promql record_name metric window aggregation =
    let summed =
      "sum("
      <> (aggregation
          <> ("(" <> (metric <> ("[" <> (window <> ("])) by (" <> (grouping <> ")"))))))) in
    if record_name == "slo_target"
    then "vector(" <> (metric <> ")")
    else if record_name == "sli_total"
    then summed
    else if record_name == "sli_good"
    then summed
    else if record_name == "sli_bad"
    then summed
    else ""

unfoldable pub create_recording_rule : MonitoringRuleSet → String → String → String → Rule
unfolding promql
create_recording_rule mrs metric record_name window =
    let aggregation = (if mrs.sli.spec.ratio_metric.counter then "rate" else "avg_over_time") in
    recording (record_prefix <> ("_" <> record_name)) (promql record_name metric window aggregation)
      mrs window

module _ (R : Runtime) where
  unfoldable pub create_burn_rate_recording_rule :
      MonitoringRuleSet → Rule → R.Float → String → Rule
  create_burn_rate_recording_rule mrs error_budget_ratio error_budget_target window =
      recording (record_prefix <> "_error_budget_burn_rate")
        (selector error_budget_ratio <> (" / " <> R.format_float 10 error_budget_target)) mrs window

  -- strconv.ParseFloat
  unfoldable pub parse_target : String → Result R.Float
  parse_target target = R.parse_float target

  unfoldable pub validate_target : R.Float → Result (Unit {0})
  unfolding go_error_text
  validate_target target =
      if R.ge target R.one
      then err (
          wrapped
            ("SLO target must be less than 1.0 (100%), got "
              <> (R.format_float 4 target <> (": " <> go_error_text err_invalid_target)))
            err_invalid_target)
      else if R.le target R.zero_float
      then err (
          wrapped
            ("SLO target must be greater than 0, got "
              <> (R.format_float 4 target <> (": " <> go_error_text err_invalid_target)))
            err_invalid_target)
      else ok tt
