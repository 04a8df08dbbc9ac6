-- ===== src/Examples/Rulers.antt =====
-- A ruler that holds the names of its groups, and the clean-up of a MimirRule against it.
use osko.Prelude.{
  String, ◌≡◌, refl, true, false, none, some, inl, inr, List, [], ◌∷◌, ◌==◌, if◌then◌else◌,
}
use osko.Errors.{text, ok}
use osko.Api.Meta.{NamespacedName, empty_meta}
use osko.Api.Osko.{MimirRuleNode, MimirRuleGroup, MimirRule}
use osko.Cluster.{Operator, returned, done}
use osko.Cluster.Steps.{World, stop}
use osko.SloController.Rule.{empty_prometheus_rule}
use osko.SloController.Mimir.{empty_mimir_rule}
use osko.MimirController.Ruler.{
  MimirOperator, create_mimir_rule_group_api, delete_mimir_rule_group_api,
}
use osko.MimirController.Retry.{ruler_calls, ruler_call}
use osko.MimirController.Deletion.{
  clean_up, delete_groups, release, release_mimir_rule, release_prometheus_rule,
  mimir_rule_finalizer, prometheus_rule_finalizer,
}
use osko.Api.Monitoring.{PrometheusRule}
use osko.MimirController.Laws.{Served, clean_up-Served, create_of_bad_duration}
use osko.Examples.Servers.{absent, helpers}
use osko.Examples.Samples.{sample_runtime, sample_config}

abbrev without : List String → String → List String
without [] f = []
without (g ∷ gs) f = let rest = without gs f in if g == f then rest else g ∷ rest

abbrev pub ruler_operator : Operator
ruler_operator = record {
  runtime = sample_runtime;
  config = sample_config;
  client = record {
    State = List String;
    now = λ s. 7;
    slos = absent (List String) _;
    slis = absent (List String) _;
    datasources = absent (List String) _;
    prometheus_rules = absent (List String) _;
    mimir_rules = absent (List String) _;
    alert_manager_configs = absent (List String) _;
  };
  util = helpers;
  retry_on_conflict = λ f. f;
  has_recorder = true;
}

abbrev pub sample_ruler : MimirOperator
sample_ruler = record {
  operator = ruler_operator;
  Handle = String;
  new_client = λ address tenant. ok tenant;
  create_rule_group = λ handle namespace group names. (none, group.name ∷ names);
  delete_rule_group = λ handle namespace name names. (none, without names name);
  parse_model_duration = λ d. if d == "5m" then inr 300 else inl (text "not a valid duration");
  requeue_after_period = 60;
}

abbrev pub rule_request : NamespacedName
rule_request = record { name = "checkout"; namespace = "shop" }

abbrev burn_alert : String → MimirRuleNode
burn_alert wait = record {
  record_name = "";
  alert = "burning";
  expr = "a > 6.0";
  for_duration = some wait;
  keep_firing_for = 0;
  labels = [];
  annotations = [];
}

abbrev burn_group : String → MimirRuleGroup
burn_group wait = record {
  name = "checkout_slo_alert";
  source_tenants = [];
  rules = burn_alert wait ∷ [];
  interval = 0;
  evaluation_delay = none;
  limit = 0;
  align_evaluation_time_on_interval = false;
}

abbrev ruler : List String → World (List String)
ruler names = record { cluster = names; events = [] }

cleaned :
    clean_up sample_ruler "tenant" rule_request empty_prometheus_rule empty_mimir_rule
      (burn_group "5m" ∷ [])
      (ruler ("checkout_slo_alert" ∷ []))
    ≡ (stop (returned done), ruler [])
unfolding clean_up delete_groups release release_mimir_rule release_prometheus_rule ruler_calls
    ruler_call delete_mimir_rule_group_api
cleaned = refl

clean_up-Served_example :
    (s : List String) × Served
      (λ (g : MimirRuleGroup). sample_ruler.delete_rule_group "tenant" "osko" g.name)
      (burn_group "5m" ∷ [])
      ("checkout_slo_alert" ∷ [])
      s
    × (release sample_ruler rule_request empty_prometheus_rule empty_mimir_rule (ruler s)
        ≡ (stop (returned done), ruler []))
clean_up-Served_example =
    clean_up-Served sample_ruler "tenant" rule_request empty_prometheus_rule empty_mimir_rule
      (burn_group "5m" ∷ []) (ruler ("checkout_slo_alert" ∷ [])) (ruler []) cleaned

create_of_bad_duration_example :
    create_mimir_rule_group_api sample_ruler "tenant" (burn_group "soon") [] ≡ (none, [])
create_of_bad_duration_example =
    create_of_bad_duration sample_ruler (burn_alert "soon") "soon" (text "not a valid duration")
      "tenant" (burn_group "soon") [] [] [] refl refl refl refl

abbrev held_mimir_rule : MimirRule
held_mimir_rule = record empty_mimir_rule {
  meta = record empty_meta { name = "checkout"; finalizers = mimir_rule_finalizer ∷ [] };
}

abbrev held_rule : PrometheusRule
held_rule = record empty_prometheus_rule {
  meta = record empty_meta { name = "checkout"; finalizers = prometheus_rule_finalizer ∷ [] };
}
