-- ===== src/Examples/Phases.antt =====
-- A server whose state is the phase that the sample SLO's resources are in.
use osko.Prelude.{
  Bool, ◌&&◌, if◌then◌else◌, ◌≡◌, refl, ap, true, false, none, some, [], ◌∷◌, arith, List, ◌==◌,
}
use osko.Text
use osko.Map.{get, lookup}
use osko.Errors.{not_found, ok}
use osko.Api.Meta.{ObjectMeta, empty_meta}
use osko.Api.OpenSlo.{Slo, Sli}
use osko.Api.Monitoring.{PrometheusRule, RuleGroup}
use osko.Api.Osko.{MimirRule}
use osko.Cluster.{Reply, found, failed, Operator}
use osko.Cluster.Steps.{World}
use osko.Rules.Build.{create_prometheus_rule, rule_set, owned_meta, slo_group_version}
use osko.Rules.Recording.{is_prometheus_source}
use osko.Rules.Setup.{setup_rules, groups_of}
use osko.Rules.Setup.Outcomes.{setup_rules-eq-ok_iff}
use osko.SloController.Fetch.{slo_finalizer}
use osko.SloController.Rule.{empty_prometheus_rule}
use osko.SloController.Mimir.{empty_mimir_rule}
use osko.SloController.{reconcile}
use osko.SloController.Phases.{
  Phase, bare, held, ruled, mirrored, advance, has_finalizer, Quiet, Named,
}
use osko.SloController.Converges.{Ends, reconcile-advances, calls, calls-converge}
use osko.Examples.Servers.{absent, helpers}
use osko.Examples.Slos.{key, sample_datasource}
use osko.Examples.Samples.{
  sample_sli, sample_runtime, sample_config, slo_with, objective, team_label,
}

abbrev plain_slo : Slo
plain_slo =
    let slo = slo_with (objective "0.99" ∷ []) team_label in
    record slo { meta = record slo.meta { annotations = [] } }

abbrev slo_in : Phase → Slo
slo_in bare = plain_slo
slo_in _ = record plain_slo { meta = record plain_slo.meta { finalizers = slo_finalizer ∷ [] } }

abbrev stored_meta : ObjectMeta
stored_meta = record empty_meta { name = "checkout"; namespace = "shop" }

abbrev stored_rule : PrometheusRule
stored_rule = record empty_prometheus_rule { meta = stored_meta }

abbrev stored_mimir_rule : MimirRule
stored_mimir_rule = record empty_mimir_rule { meta = stored_meta }

-- The key under which the server looks for the rules.
abbrev under_key : ObjectMeta → Bool
under_key m = m.name == "checkout" && m.namespace == "shop"

abbrev rule_in : Phase → Reply PrometheusRule
rule_in bare = failed (not_found "no rule")
rule_in held = failed (not_found "no rule")
rule_in _ = found stored_rule

abbrev mimir_rule_in : Phase → Reply MimirRule
mimir_rule_in mirrored = found stored_mimir_rule
mimir_rule_in _ = failed (not_found "no rule")

-- The phase after the finalizer, a PrometheusRule or a MimirRule has been written.
abbrev with_finalizer : Phase → Phase
with_finalizer bare = held
with_finalizer p = p

abbrev with_rule : Phase → Phase
with_rule held = ruled
with_rule p = p

abbrev with_mimir_rule : Phase → Phase
with_mimir_rule ruled = mirrored
with_mimir_rule p = p

abbrev phased : Operator
phased = record {
  runtime = sample_runtime;
  config = sample_config;
  client = record {
    State = Phase;
    now = λ s. 7;
    slos = record {
      get = λ k s. (found (slo_in s), s);
      create = λ a s. (found a, s);
      update = λ a s. (found a, with_finalizer s);
      update_status = λ a s. (found a, s);
    };
    slis = record (absent Phase Sli) { get = λ k s. (found sample_sli, s) };
    datasources = record (absent Phase _) { get = λ k s. (found sample_datasource, s) };
    prometheus_rules = record (absent Phase PrometheusRule) {
      get = λ k s. (rule_in s, s);
      create = λ a s. (found a, if under_key a.meta then with_rule s else s);
    };
    mimir_rules = record (absent Phase MimirRule) {
      get = λ k s. (mimir_rule_in s, s);
      create = λ a s. (found a, if under_key a.meta then with_mimir_rule s else s);
    };
    alert_manager_configs = absent Phase _;
  };
  util = helpers;
  retry_on_conflict = λ f. f;
  has_recorder = true;
}

supported_in :
    (p : Phase)
    → is_prometheus_source (rule_set sample_runtime sample_config (slo_in p) sample_sli) ≡ true
unfolding is_prometheus_source Text.lower_is rule_set
supported_in bare = refl
supported_in held = refl
supported_in ruled = refl
supported_in mirrored = refl

first_in : (p : Phase) → (slo_in p).spec.objectives ≡ objective "0.99" ∷ []
first_in bare = refl
first_in held = refl
first_in ruled = refl
first_in mirrored = refl

abbrev groups_in : Phase → List RuleGroup
groups_in p =
    groups_of sample_runtime sample_config
      (rule_set sample_runtime sample_config (slo_in p) sample_sli) (some 10) "0.99"

sets_up_in :
    (p : Phase)
    → setup_rules sample_runtime sample_config
        (rule_set sample_runtime sample_config (slo_in p) sample_sli)
      ≡ ok (groups_in p)
sets_up_in p =
    (setup_rules-eq-ok_iff sample_runtime sample_config
        (rule_set sample_runtime sample_config (slo_in p) sample_sli) (groups_in p)).1
      (
        objective "0.99",
        some 990,
        record {
          rest = [];
          source = supported_in p;
          first = unfold rule_set in first_in p;
          parsed = refl;
          below_one = refl;
          above_zero = refl;
        },
        refl,
      )

abbrev made_in : Phase → PrometheusRule
made_in p = record {
  api_version = "monitoring.coreos.com/v1";
  kind = "PrometheusRule";
  meta =
      owned_meta (sample_runtime.new_controller_ref (slo_in p).meta slo_group_version "SLO")
        (slo_in p).meta;
  groups = groups_in p;
}

builds_in :
    (p : Phase)
    → (rule : PrometheusRule) × (create_prometheus_rule sample_runtime sample_config
          (slo_in p)
          sample_sli
        ≡ ok rule)
unfolding create_prometheus_rule
builds_in p = (made_in p, rw (sets_up_in p) refl)

names_in : (p : Phase) → ((slo_in p).meta.name ≡ "checkout") × ((slo_in p).meta.namespace ≡ "shop")
names_in bare = (refl, refl)
names_in held = (refl, refl)
names_in ruled = (refl, refl)
names_in mirrored = (refl, refl)

under_key-Named :
    (p : Phase) (slo : Slo) (m : ObjectMeta) → slo ≡ slo_in p → Named slo m → under_key m ≡ true
under_key-Named p slo m e (name, namespace) =
    rw (name, namespace, e, (names_in p).0, (names_in p).1) refl

quiet : Quiet phased key
quiet = record {
  At = λ p s. s ≡ p;
  Current = λ p slo. slo ≡ slo_in p;
  recorded = refl;
  Source = λ sli. sli ≡ sample_sli;
  live = λ p slo e. rw e (alive p);
  finalizer = λ p slo e. rw e (finalized p);
  unalerted = λ p slo e. rw e (unalerted_in p);
  buildable = λ p slo sli e f. rw (e, f) (builds_in p);
  owned = λ slo m. (m, refl, refl, refl);
  get_slo = λ p s at. (slo_in s, s, refl, ap slo_in at, at);
  get_datasource = λ p s slo at e. (sample_datasource, s, refl, at);
  get_sli = λ p s slo at e. ("availability", rw e (named p), sample_sli, s, refl, refl, at);
  hold = λ s slo at e. (_, with_finalizer s, refl, ap with_finalizer at);
  write_status = λ p s slo at. (slo, s, refl, at);
  no_rule = λ s slo at e. (not_found "no rule", s, rw at refl, refl, at);
  create_rule = λ s slo rule at e named.
      (rule, _, refl, named, rw (under_key-Named held slo rule.meta e named) (ap with_rule at));
  update_rule = λ s slo rule at e named. (rule, s, refl, at);
  get_rule_ruled = λ s slo at e. (stored_rule, s, rw at refl, rw e (refl, refl), at);
  get_rule_mirrored = λ s slo at e. (stored_rule, s, rw at refl, at);
  no_mimir_rule = λ s slo at e. (not_found "no rule", s, rw at refl, refl, at);
  create_mimir_rule = λ s slo rule at e named. (
    rule,
    _,
    refl,
    named,
    rw (under_key-Named ruled slo rule.meta e named) (ap with_mimir_rule at),
  );
  update_mimir_rule = λ s slo rule at e named. (rule, s, refl, at);
  write_mimir_status = λ s rule at. (rule, s, refl, at);
  get_mimir_rule = λ s slo at e. (stored_mimir_rule, s, rw at refl, at);
}
  where
    alive : (p : Phase) → (slo_in p).meta.deletion_timestamp ≡ none
    alive bare = refl
    alive held = refl
    alive ruled = refl
    alive mirrored = refl

    finalized :
        (p : Phase) → helpers.contains_finalizer (slo_in p).meta slo_finalizer ≡ has_finalizer p
    finalized bare = refl
    finalized held = refl
    finalized ruled = refl
    finalized mirrored = refl

    unalerted_in :
        (p : Phase) → (get "osko.dev/magicAlerting" (slo_in p).meta.annotations == "true") ≡ false
    unalerted_in bare = unfold get lookup in refl
    unalerted_in held = unfold get lookup in refl
    unalerted_in ruled = unfold get lookup in refl
    unalerted_in mirrored = unfold get lookup in refl

    named : (p : Phase) → (slo_in p).spec.indicator_ref ≡ some "availability"
    named bare = refl
    named held = refl
    named ruled = refl
    named mirrored = refl

abbrev at_phase : Phase → World Phase
at_phase p = record { cluster = p; events = [] }

reconcile-advances_example :
    Ends phased (λ s. s ≡ advance held) (reconcile phased key (at_phase held))
unfolding quiet
reconcile-advances_example = reconcile-advances phased key quiet held (at_phase held) refl

calls-converge_example : (calls phased key 3 (at_phase bare)).cluster ≡ mirrored
unfolding quiet
calls-converge_example = calls-converge phased key quiet 3 bare (at_phase bare) (omega arith) refl
