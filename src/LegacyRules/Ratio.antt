-- ===== src/LegacyRules/Ratio.antt =====
-- Rule and its methods. Its MetricLabelCompiler is a pointer through which the methods write, and
-- which two rules may share: the labels live in a store, and a pointer is a place in it.
use osko.Prelude.{
  ℕ, nat_eq, String, ◌<>◌, Option, some, none, ◌⊎◌, inl, inr, List, [], ◌∷◌, ◌==◌, if◌then◌else◌,
}
use osko.Map.{Map, get}
use osko.Errors.{GoError, text, Result, ok, panic, ◌>>=◌}
use osko.Api.OpenSlo.{Slo, Sli, ObjectivesSpec}
use osko.Api.Monitoring.{IntOrString, Rule, empty_rule}
use osko.Rules.Recording.{record_prefix}
use osko.LegacyRules.Labels.{
  MetricLabel, deref, new_metric_label_compiler, new_metric_label_generator,
}

abbrev pub Store : Type 0
Store = ℕ → MetricLabel

-- *p = label
unfoldable pub put : ℕ → MetricLabel → Store → Store
put p label store q = if nat_eq p q then label else store q

-- The fields of Rule less SupportiveRule; BaseRule, Expr and RateWindow are read by nothing.
pub record RuleFields : Type 0 where
  pub sli : Option Sli
  pub slo : Option Slo
  pub rule_type : String
  pub record_name : String
  pub time_window : String
  pub metric_label_compiler : Option ℕ

-- Rule, whose SupportiveRule is nil or a rule.
pub data RuleConfig : Type 0 where
  alone : RuleFields → RuleConfig
  supported : RuleFields → RuleConfig → RuleConfig

abbrev pub fields : RuleConfig → RuleFields
fields (alone f) = f
fields (supported f s) = f

abbrev pub supportive : RuleConfig → Option RuleConfig
supportive (alone f) = none
supportive (supported f s) = some s

abbrev pub record_of : String → String
record_of name = record_prefix <> ("_" <> name)

query_of : Sli → String → GoError ⊎ String
query_of sli type =
    if type == "total"
    then inr sli.spec.ratio_metric.total.metric_source.spec.query
    else if type == "bad"
    then inr sli.spec.ratio_metric.bad.metric_source.spec.query
    else inr sli.spec.ratio_metric.good.metric_source.spec.query

-- getFieldsByType. The SLI is read for a known type only.
unfoldable pub get_fields_by_type : RuleFields → Result (GoError ⊎ String)
unfolding query_of
get_fields_by_type c =
    let known = (do sli ← deref c.sli; ok (query_of sli c.rule_type)) in
    if c.rule_type == "total"
    then known
    else if c.rule_type == "bad"
    then known
    else if c.rule_type == "good"
    then known
    else ok (inl (text ("invalid RuleType: " <> c.rule_type)))

-- c.MetricLabelCompiler.TimeWindow = window
unfoldable pub set_window : String → Option ℕ → Store → Result Store
set_window window none store = panic
set_window window (some p) store = ok (put p (record (store p) { time_window = window }) store)

-- c.MetricLabelCompiler.NewMetricLabelGenerator()
unfoldable pub generated : Option ℕ → Store → Result (Map String)
generated none store = panic
generated (some p) store = new_metric_label_generator (store p)

-- c.MetricLabelCompiler.NewMetricLabelCompiler(rule, window)
unfoldable pub compiled : Option ℕ → Store → Option Rule → String → Result String
compiled none store rule window = panic
compiled (some p) store rule window = new_metric_label_compiler (store p) rule window

-- intstr.Parse of k8s.io/apimachinery
module _ (parse : String → IntOrString) where
  -- NewSupportiveRule
  unfoldable pub new_supportive_rule : RuleConfig → Rule → Store → Result (Rule × Store)
  new_supportive_rule c base store = do
    s ← deref (supportive c)
    labels ← compiled (fields s).metric_label_compiler store (some base) (get "window" base.labels)
    kept ← set_window (fields s).time_window (fields c).metric_label_compiler store
    own ← generated (fields c).metric_label_compiler kept
    ok (
      record empty_rule {
        record_name = record_of (fields c).record_name;
        expr = parse (
            "sum(increase("
            <> (base.record_name
                <> ("{"
                    <> (labels
                        <> ("}["
                            <> ((fields s).time_window
                                <> "])) by (service, sli_name, slo_name)"))))));
        labels = own;
      },
      kept,
    )

  both_rules : RuleConfig → String → String → Store → Result (Option (Rule × Rule) × Store)
  both_rules c field window store = do
    timed ← set_window window (fields c).metric_label_compiler store
    labels ← generated (fields c).metric_label_compiler timed
    let rule = record empty_rule {
      record_name = record_of (fields c).record_name;
      expr = parse ("sum(increase(" <> (field <> ("[" <> (window <> "]))"))));
      labels = labels;
    }
    r ← new_supportive_rule c rule timed
    ok (some (rule, r.0), r.1)

  of_field : RuleConfig → String → Store → GoError ⊎ String → Result (Option (Rule × Rule) × Store)
  unfolding both_rules
  of_field c window store (inl e) = ok (none, store)
  of_field c window store (inr field) =
      let rules = both_rules c field window store in if field == "" then ok (none, store) else rules

  -- NewRatioRule; `none` is the pair of nil pointers.
  unfoldable pub new_ratio_rule :
      RuleConfig → String → Store → Result (Option (Rule × Rule) × Store)
  unfolding of_field
  new_ratio_rule c window store = do
    field ← get_fields_by_type (fields c)
    of_field c window store field

  first_target : List ObjectivesSpec → Result String
  first_target [] = panic
  first_target (o ∷ os) = ok o.target

  -- NewTargetRule
  unfoldable pub new_target_rule : RuleConfig → Store → Result Rule
  unfolding first_target
  new_target_rule c store = do
    slo ← deref (fields c).slo
    target ← first_target slo.spec.objectives
    own ← generated (fields c).metric_label_compiler store
    ok (record empty_rule {
      record_name = record_of (fields c).record_name;
      expr = parse ("vector(" <> (target <> ")"));
      labels = own;
    })
