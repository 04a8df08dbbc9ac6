-- ===== src/Examples/LegacyRules.antt =====
-- A ratio rule and its supportive rule, which share their labels.
use osko.Prelude.{true, String, ◌≡◌, refl, some, [], ◌∷◌}
use osko.Map.{get, lookup}
use osko.Api.OpenSlo.{Slo}
use osko.Api.Monitoring.{str_val, Rule, empty_rule}
use osko.LegacyRules.Labels.{
  deref, first_window, extend, new_metric_label_compiler, new_metric_label_generator,
}
use osko.LegacyRules.Ratio.{
  Store, put, RuleFields, RuleConfig, supported, alone, get_fields_by_type, set_window, generated,
  compiled, new_supportive_rule, new_ratio_rule,
}
use osko.LegacyRules.Laws.{new_ratio_rule-windows}
use osko.Examples.Samples.{sample_sli, slo_with, objective, team_label}

abbrev weekly : Slo
weekly =
    let slo = slo_with (objective "0.99" ∷ []) team_label in
    record slo {
      spec = record slo.spec {
        time_window =
            record {
              duration = "7d";
              is_rolling = true;
              calendar = record { start_time = ""; time_zone = "" };
            }
            ∷ [];
      };
    }

abbrev one_label : Store
one_label p = record { slo = some weekly; sli = some sample_sli; time_window = ""; labels = [] }

abbrev good_fields : String → RuleFields
good_fields window = record {
  sli = some sample_sli;
  slo = some weekly;
  rule_type = "good";
  record_name = "good";
  time_window = window;
  metric_label_compiler = some 0;
}

abbrev good_config : RuleConfig
good_config = supported (good_fields "") (alone (good_fields "28d"))

abbrev ratio_rule : String → String → Rule
ratio_rule expr window = record empty_rule {
  record_name = "osko_good";
  expr = str_val expr;
  labels =
      ("sli_name", "availability")
      ∷ ("slo_name", "checkout")
      ∷ ("service", "shop")
      ∷ ("window", window)
      ∷ [];
}

abbrev base_rule : Rule
base_rule = ratio_rule "sum(increase(good_total[1h]))" "1h"

abbrev supportive_rule : Rule
supportive_rule =
    ratio_rule
      "sum(increase(osko_good{sli_name=\"availability\", slo_name=\"checkout\", service=\"shop\", window=\"1h\"}[28d])) by (service, sli_name, slo_name)"
      "28d"

new_ratio_rule-windows_example :
    (get "window" base_rule.labels ≡ "1h") × (get "window" supportive_rule.labels ≡ "28d")
unfolding new_ratio_rule set_window new_supportive_rule deref generated new_metric_label_generator
    first_window extend new_metric_label_compiler compiled get_fields_by_type put get lookup
new_ratio_rule-windows_example =
    new_ratio_rule-windows str_val good_config (alone (good_fields "28d")) 0 "1h" one_label
      (put 0 (record (one_label 0) { time_window = "28d" })
        (put 0 (record (one_label 0) { time_window = "1h" }) one_label))
      base_rule supportive_rule refl refl refl refl refl
