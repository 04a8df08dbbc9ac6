-- ===== src/Examples/PrometheusRules.antt =====
-- A server that holds a PrometheusRule and its SLO, and the reconciler of PrometheusRules there.
use osko.Prelude.{ℕ, suc, ◌≡◌, refl, true, false, [], ◌∷◌}
use osko.Api.Meta.{OwnerReference, empty_meta}
use osko.Api.Monitoring.{PrometheusRule}
use osko.Cluster.{found, Access, Operator, returned, done}
use osko.Cluster.Steps.{World, stop, tested, ◌>>=◌}
use osko.Rules.Build.{create_prometheus_rule}
use osko.SloController.Rule.{empty_prometheus_rule}
use osko.PrometheusRuleController.{reconcile_prometheus_rule}
use osko.PrometheusRuleController.Update.{update_rule}
use osko.PrometheusRuleController.Unmade.{revise, reconcile_prometheus_rule-eq}
use osko.PrometheusRuleController.Laws.{reconcile_of_unowned, update_rule-eq, replace_made}
use osko.PrometheusRuleController.Fetch.{unmanaged}
use osko.Map.{lookup}
use osko.Examples.Servers.{absent, helpers}
use osko.Examples.Slos.{key, kept}
use osko.Examples.Samples.{sample_sli, sample_runtime, sample_config}

abbrev pub slo_owner : OwnerReference
slo_owner = record {
  api_version = "openslo.com/v1";
  kind = "SLO";
  name = "checkout";
  uid = "7";
  controller = true;
}

abbrev pub owned_rule : PrometheusRule
owned_rule = record empty_prometheus_rule {
  meta = record empty_meta {
    name = "checkout";
    namespace = "shop";
    resource_version = "41";
    owner_references = slo_owner ∷ [];
  };
}

abbrev foreign_rule : PrometheusRule
foreign_rule = record empty_prometheus_rule {
  meta = record empty_meta { name = "checkout"; labels = ("osko.dev/manage", "true") ∷ [] };
}

-- The server counts what is written to it, and answers with the same objects.
abbrev counting : {A : Type 0} → A → Access ℕ A
counting a = record {
  get = λ key s. (found a, s);
  create = λ b s. (found b, suc s);
  update = λ b s. (found b, suc s);
  update_status = λ b s. (found b, suc s);
}

-- As the program makes it, without a recorder.
abbrev rule_operator : PrometheusRule → Operator
rule_operator rule = record {
  runtime = sample_runtime;
  config = sample_config;
  client = record {
    State = ℕ;
    now = λ s. 7;
    slos = counting kept;
    slis = absent ℕ _;
    datasources = absent ℕ _;
    prometheus_rules = counting rule;
    mimir_rules = absent ℕ _;
    alert_manager_configs = absent ℕ _;
  };
  util = helpers;
  retry_on_conflict = λ f. f;
  has_recorder = false;
}

abbrev counted : ℕ → World ℕ
counted n = record { cluster = n; events = [] }

reconcile_of_unowned_example :
    ((reconcile_prometheus_rule (rule_operator foreign_rule) key (counted 0)).0
      ≡ stop (returned done))
    × ((reconcile_prometheus_rule (rule_operator foreign_rule) key (counted 0)).1.cluster ≡ 1)
unfolding unmanaged lookup
reconcile_of_unowned_example =
    reconcile_of_unowned (rule_operator foreign_rule) key (counted 0) foreign_rule 0 refl tt

update_rule-eq_example :
    update_rule (rule_operator owned_rule) key (owned_rule, kept) sample_sli (counted 0)
    ≡ (tested (create_prometheus_rule sample_runtime sample_config kept sample_sli)
          >>= replace_made (rule_operator owned_rule) key owned_rule kept)
        (counted 0)
update_rule-eq_example =
    update_rule-eq (rule_operator owned_rule) key owned_rule kept sample_sli (counted 0) refl

reconcile_prometheus_rule-eq_example :
    reconcile_prometheus_rule (rule_operator owned_rule) key (counted 0)
    ≡ revise (rule_operator owned_rule) key (counted 0)
reconcile_prometheus_rule-eq_example =
    reconcile_prometheus_rule-eq (rule_operator owned_rule) key (counted 0)
