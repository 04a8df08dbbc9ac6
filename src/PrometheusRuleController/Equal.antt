-- ===== src/PrometheusRuleController/Equal.antt =====
-- `reflect.DeepEqual` as the reconciler of PrometheusRules uses it: on two PrometheusRules, and on
-- an SLO and the zero SLO.
use osko.Equal.{bools_equal, options_equal, lists_equal, texts_equal, maps_equal}
use osko.Prelude.{nat_eq, Bool, true, false, ◌&&◌, Option, some, none, List, [], ◌∷◌, ◌==◌}
use osko.Api.Meta.{OwnerReference, ObjectMeta, empty_meta}
use osko.Api.OpenSlo.{Slo, SloSpec, SloStatus}
use osko.Api.Monitoring.{IntOrString, int_val, str_val, Rule, RuleGroup, PrometheusRule}

unfoldable pub owners_equal : OwnerReference → OwnerReference → Bool
owners_equal a b =
    a.api_version == b.api_version
    && a.kind == b.kind
    && a.name == b.name
    && a.uid == b.uid
    && bools_equal a.controller b.controller

unfoldable pub meta_equal : ObjectMeta → ObjectMeta → Bool
meta_equal a b =
    a.name == b.name
    && a.namespace == b.namespace
    && a.uid == b.uid
    && a.resource_version == b.resource_version
    && maps_equal a.labels b.labels
    && maps_equal a.annotations b.annotations
    && lists_equal texts_equal a.finalizers b.finalizers
    && lists_equal owners_equal a.owner_references b.owner_references
    && options_equal nat_eq a.deletion_timestamp b.deletion_timestamp

unfoldable pub exprs_equal : IntOrString → IntOrString → Bool
exprs_equal (int_val n) (int_val m) = nat_eq n m
exprs_equal (str_val s) (str_val t) = s == t
exprs_equal _ _ = false

unfoldable pub rules_equal : Rule → Rule → Bool
rules_equal a b =
    a.record_name == b.record_name
    && a.alert == b.alert
    && exprs_equal a.expr b.expr
    && options_equal texts_equal a.for_duration b.for_duration
    && options_equal texts_equal a.keep_firing_for b.keep_firing_for
    && maps_equal a.labels b.labels
    && maps_equal a.annotations b.annotations

unfoldable pub rule_groups_equal : RuleGroup → RuleGroup → Bool
rule_groups_equal a b =
    a.name == b.name
    && options_equal texts_equal a.interval b.interval
    && lists_equal rules_equal a.rules b.rules
    && a.partial_response_strategy == b.partial_response_strategy
    && options_equal nat_eq a.limit b.limit

unfoldable pub prometheus_rules_equal : PrometheusRule → PrometheusRule → Bool
prometheus_rules_equal a b =
    a.api_version == b.api_version
    && a.kind == b.kind
    && meta_equal a.meta b.meta
    && lists_equal rule_groups_equal a.groups b.groups

abbrev missing : {A : Type 0} → Option A → Bool
missing none = true
missing (some a) = false

abbrev empty : {A : Type 0} → List A → Bool
empty [] = true
empty (a ∷ rest) = false

unfoldable pub is_empty_spec : SloSpec → Bool
is_empty_spec spec =
    spec.description == ""
    && spec.service == ""
    && missing spec.indicator
    && missing spec.indicator_ref
    && empty spec.time_window
    && spec.budgeting_method == ""
    && empty spec.objectives

unfoldable pub is_empty_status : SloStatus → Bool
is_empty_status status =
    empty status.conditions
    && status.current_slo == ""
    && nat_eq status.last_evaluation_time 0
    && status.ready == ""

-- reflect.DeepEqual(slo, &openslov1.SLO{})
unfoldable pub is_empty_slo : Slo → Bool
is_empty_slo slo =
    meta_equal slo.meta empty_meta && is_empty_spec slo.spec && is_empty_status slo.status
