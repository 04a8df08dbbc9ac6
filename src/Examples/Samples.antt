-- ===== src/Examples/Samples.antt =====
-- A runtime with decimal floats, an SLO with its SLI, and a configuration.
use osko.Prelude.{
  ℕ, ◌-◌, String, ◌≡◌, refl, Bool, true, false, Option, some, none, List, [], ◌∷◌, arith, leb, ◌==◌,
  if◌then◌else◌,
}
use osko.Runtime.{Runtime, IsIeee, PrintsText}
use osko.Config.{Config}
use osko.Errors.{Result, ok, err, text}
use osko.Api.Meta.{ObjectMeta, OwnerReference, empty_meta}
use osko.Api.OpenSlo.{Slo, Sli, MetricSpec, ObjectivesSpec, MetricSource}
use osko.Api.Monitoring.{IntOrString, int_val, str_val, empty_rule}
use osko.Rules.Labels.{MonitoringRuleSet}

-- Thousandths; `none` is NaN.
abbrev ge_thousandths : Option ℕ → Option ℕ → Bool
ge_thousandths (some a) (some b) = leb b a
ge_thousandths _ _ = false

abbrev sub_thousandths : Option ℕ → Option ℕ → Option ℕ
sub_thousandths (some a) (some b) = some (a - b)
sub_thousandths _ _ = none

abbrev parse : String → Result (Option ℕ)
parse s =
    if s == "0.99"
    then ok (some 990)
    else if s == "1.0"
    then ok (some 1000)
    else if s == "NaN"
    then ok none
    else err (text "syntax")

abbrev shown : IntOrString → String
shown (int_val n) = "0"
shown (str_val s) = s

abbrev owner : ObjectMeta → String → String → OwnerReference
owner m gv kind = record {
  api_version = gv;
  kind = kind;
  name = m.name;
  uid = m.uid;
  controller = true;
}

abbrev pub sample_runtime : Runtime
sample_runtime = record {
  Float = Option ℕ;
  zero_float = some 0;
  one = some 1000;
  ge = ge_thousandths;
  le = λ a b. ge_thousandths b a;
  sub = sub_thousandths;
  literal = λ s. some 14400;
  parse_float = parse;
  format_float = λ n x. "0.01";
  Duration = ℕ;
  seconds = λ n. n;
  parse_duration = λ s. err (text "duration");
  duration_text = λ d. "5m";
  expr_text = shown;
  new_controller_ref = owner;
  lookup_env = λ key. none;
}

abbrev pub IsNan : Option ℕ → Type 0
IsNan x = x ≡ none

pub sample_runtime-IsIeee : IsIeee sample_runtime IsNan
sample_runtime-IsIeee = record {
  ge_nan = λ x y h. ground (arith, h);
  le_nan = λ x y h. ground (arith, h);
}

pub sample_prints : PrintsText sample_runtime
sample_prints s = refl

abbrev pub sample_config : Config sample_runtime
sample_config = record {
  mimir_rule_requeue_period = 60;
  alerting_burn_rates = record {
    page_short_window = some 14400;
    page_long_window = some 6000;
    ticket_short_window = some 3000;
    ticket_long_window = some 1000;
  };
  default_base_window = 300;
  alerting_tool = "opsgenie";
  alert_severities = record { critical = ""; high_fast = ""; high_slow = ""; low = ""; tool = "" };
}

abbrev source : String → MetricSource
source q = record { metric_source_ref = ""; type = "Mimir"; spec = record { query = q } }

abbrev metric : String → MetricSpec
metric q = record { metric_source = source q }

abbrev pub sample_sli : Sli
sample_sli = record {
  meta = record empty_meta { name = "availability"; namespace = "shop" };
  spec = record {
    description = "";
    threshold_metric = record { metric_source = source "" };
    ratio_metric = record {
      raw = metric "";
      raw_type = "";
      good = metric "good_total";
      bad = metric "";
      total = metric "requests_total";
      counter = true;
    };
  };
}

abbrev pub objective : String → ObjectivesSpec
objective target = record {
  display_name = "";
  op = "";
  value = "";
  target = target;
  target_percent = "";
  time_slice_target = "";
  time_slice_window = "";
  indicator = none;
  indicator_ref = none;
  composite_weight = "";
}

-- An SLO with the given objectives and labels.
abbrev pub slo_with : List ObjectivesSpec → List (String × String) → Slo
slo_with objectives labels = record {
  meta = record empty_meta {
    name = "checkout";
    namespace = "shop";
    labels = labels;
    annotations = ("osko.dev/magicAlerting", "true") ∷ [];
  };
  spec = record {
    description = "";
    service = "shop";
    indicator = none;
    indicator_ref = some "availability";
    time_window = [];
    budgeting_method = "Occurrences";
    objectives = objectives;
  };
  status = record { conditions = []; current_slo = ""; last_evaluation_time = 0; ready = "" };
}

abbrev pub team_label : List (String × String)
team_label = ("label.osko.dev/team", "red") ∷ ("app", "shop") ∷ []

abbrev pub sample_rules : List ObjectivesSpec → List (String × String) → MonitoringRuleSet
sample_rules objectives labels = record {
  slo = slo_with objectives labels;
  sli = sample_sli;
  target_rule = empty_rule;
  base_rule = empty_rule;
  good_rule = empty_rule;
  total_rule = empty_rule;
  base_window = "5m";
}
