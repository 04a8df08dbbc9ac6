-- ===== src/Mimir/Laws.antt =====
-- What the conversion keeps, and what it leaves out.
use osko.Prelude.{
  String, ◌≡◌, refl, ap, ◌⊎◌, false, none, List, [], ◌∷◌, map, arith, ◌==◌, eq_iff, All,
}
use mathlib.Core.Path.{ap₂}
use osko.Runtime.{Runtime, PrintsText}
use osko.Api.Monitoring.{named_group, Rule, RuleGroup, str_val}
use osko.Api.Osko.{ConnectionDetails, MimirRuleNode, MimirRuleGroup}
use osko.Mimir.{mimir_rule_node, mimir_rules, mimir_groups}

-- The rule that a node of a MimirRule stands for.
unfoldable pub rule_of_node : MimirRuleNode → Rule
rule_of_node n = record {
  record_name = n.record_name;
  alert = n.alert;
  expr = str_val n.expr;
  for_duration = n.for_duration;
  keep_firing_for = none;
  labels = n.labels;
  annotations = n.annotations;
}

unfoldable pub rules_of_nodes : List MimirRuleNode → List Rule
unfolding rule_of_node
rules_of_nodes = map rule_of_node

unfoldable pub group_of_mimir : MimirRuleGroup → RuleGroup
unfolding rules_of_nodes
group_of_mimir g = named_group g.name (rules_of_nodes g.rules)

-- What a MimirRule does not carry over.
abbrev pub reduced_rule : Rule → Rule
reduced_rule r = record r { keep_firing_for = none; annotations = [] }

abbrev pub reduced_group : RuleGroup → RuleGroup
reduced_group g = record g {
  interval = none;
  rules = map reduced_rule g.rules;
  partial_response_strategy = "";
  limit = none;
}

-- A recording rule or an alert, with a text for its expression: what `SetupRules` makes.
pub record IsPlain (r : Rule) : Type 0 where
  pub text : String
  pub by_text : r.expr ≡ str_val text
  pub one_kind :
      ((r.record_name ≡ "") × ((r.alert == "") ≡ false))
      ⊎ ((r.alert ≡ "") × (r.for_duration ≡ none))

module _ (R : Runtime) (prints : PrintsText R) where
  rule_of_node-mimir_rule_node :
      (r : Rule) → IsPlain r → rule_of_node (mimir_rule_node R r) ≡ reduced_rule r
  unfolding rule_of_node mimir_rule_node
  rule_of_node-mimir_rule_node r p =
      ground (arith, p.by_text, prints p.text, p.one_kind, eq_iff r.record_name "")

  rules-roundtrip :
      (rs : List Rule) → All IsPlain rs → rules_of_nodes (mimir_rules R rs) ≡ map reduced_rule rs
  unfolding rules_of_nodes mimir_rules
  rules-roundtrip [] h = refl
  rules-roundtrip (r ∷ rs) (p, h) =
      ap₂ ◌∷◌ (rule_of_node-mimir_rule_node r p) (rules-roundtrip rs h)

  -- Where every rule is a recording rule or an alert with a text for its expression, and
  -- expressions print as their text: read back, the groups of the MimirRule are those of the
  -- PrometheusRule, in the same order and with the same names and rules, but that the intervals,
  -- limits and partial response strategies of the groups are lost, and the annotations and the
  -- time to keep firing of the rules.
  pub groups-roundtrip :
      (groups : List RuleGroup) (details : ConnectionDetails)
      → All (λ g. All IsPlain g.rules) groups
      → map group_of_mimir (mimir_groups R groups details) ≡ map reduced_group groups
  unfolding group_of_mimir mimir_groups
  groups-roundtrip [] details h = refl
  groups-roundtrip (g ∷ groups) details (p, h) =
      ap₂ ◌∷◌ (ap (λ rs. named_group g.name rs) (rules-roundtrip g.rules p))
        (groups-roundtrip groups details h)
