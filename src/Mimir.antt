-- ===== src/Mimir.antt =====
-- internal/helpers/mimirtool_helper.go: the MimirRule of a PrometheusRule.
pub mod Laws
use osko.Prelude.{String, Bool, ◌&&◌, not, none, List, [], ◌∷◌, ◌==◌, if◌then◌else◌}
use osko.Runtime.{Runtime}
use osko.Errors.{Result, ok, ◌>>=◌}
use osko.Api.Meta.{ObjectMeta}
use osko.Api.OpenSlo.{Slo}
use osko.Api.Monitoring.{Rule, RuleGroup, PrometheusRule}
use osko.Api.Osko.{ConnectionDetails, MimirRuleNode, MimirRuleGroup, MimirRuleSpec, MimirRule}
use osko.Rules.Build.{owned_meta, slo_group_version}

module _ (R : Runtime) where
  -- One round of the inner loop.
  unfoldable pub mimir_rule_node : Rule → MimirRuleNode
  mimir_rule_node r =
      if r.record_name == "" && not (r.alert == "")
      then record {
        record_name = "";
        alert = r.alert;
        expr = R.expr_text r.expr;
        for_duration = r.for_duration;
        keep_firing_for = 0;
        labels = r.labels;
        annotations = [];
      }
      else record {
        record_name = r.record_name;
        alert = "";
        expr = R.expr_text r.expr;
        for_duration = none;
        keep_firing_for = 0;
        labels = r.labels;
        annotations = [];
      }

  unfoldable pub mimir_rules : List Rule → List MimirRuleNode
  mimir_rules [] = []
  mimir_rules (r ∷ rules) = mimir_rule_node r ∷ mimir_rules rules

  unfoldable pub mimir_groups : List RuleGroup → ConnectionDetails → List MimirRuleGroup
  mimir_groups [] details = []
  mimir_groups (group ∷ groups) details =
      record {
        name = group.name;
        source_tenants = details.source_tenants;
        rules = mimir_rules group.rules;
        interval = 0;
        evaluation_delay = none;
        limit = 0;
        align_evaluation_time_on_interval = Bool.false;
      }
      ∷ mimir_groups groups details

  -- The error result is always nil.
  unfoldable pub new_mimir_rule_groups :
      PrometheusRule → ConnectionDetails → Result (List MimirRuleGroup)
  new_mimir_rule_groups rule details = ok (mimir_groups rule.groups details)

  unfoldable pub new_mimir_rule : Slo → PrometheusRule → ConnectionDetails → Result MimirRule
  new_mimir_rule slo rule details = do
    groups ← new_mimir_rule_groups rule details
    ok (record {
      meta = owned_meta (R.new_controller_ref slo.meta slo_group_version "SLO") rule.meta;
      spec = record { connection_details = details; groups = groups };
      status = record { conditions = []; last_evaluation_time = 0; ready = "" };
    })
