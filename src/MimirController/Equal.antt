-- ===== src/MimirController/Equal.antt =====
-- `reflect.DeepEqual` on two specifications of a MimirRule.
use osko.Equal.{bools_equal, options_equal, lists_equal, texts_equal, maps_equal}
use osko.Prelude.{nat_eq, Bool, ◌&&◌, ◌==◌}
use osko.Api.Osko.{ConnectionDetails, MimirRuleNode, MimirRuleGroup, MimirRuleSpec}

unfoldable pub details_equal : ConnectionDetails → ConnectionDetails → Bool
details_equal a b =
    a.address == b.address
    && a.target_tenant == b.target_tenant
    && lists_equal texts_equal a.source_tenants b.source_tenants
    && bools_equal a.sync_prometheus_rules b.sync_prometheus_rules

unfoldable pub nodes_equal : MimirRuleNode → MimirRuleNode → Bool
nodes_equal a b =
    a.record_name == b.record_name
    && a.alert == b.alert
    && a.expr == b.expr
    && options_equal texts_equal a.for_duration b.for_duration
    && nat_eq a.keep_firing_for b.keep_firing_for
    && maps_equal a.labels b.labels
    && maps_equal a.annotations b.annotations

unfoldable pub groups_equal : MimirRuleGroup → MimirRuleGroup → Bool
groups_equal a b =
    a.name == b.name
    && lists_equal texts_equal a.source_tenants b.source_tenants
    && lists_equal nodes_equal a.rules b.rules
    && nat_eq a.interval b.interval
    && options_equal nat_eq a.evaluation_delay b.evaluation_delay
    && nat_eq a.limit b.limit
    && bools_equal a.align_evaluation_time_on_interval b.align_evaluation_time_on_interval

unfoldable pub spec_equal : MimirRuleSpec → MimirRuleSpec → Bool
spec_equal a b =
    details_equal a.connection_details b.connection_details
    && lists_equal groups_equal a.groups b.groups
