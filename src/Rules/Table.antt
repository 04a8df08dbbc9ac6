-- ===== src/Rules/Table.antt =====
-- The tables of `SetupRules`: the windows, a map from windows to rules for each kind of rule, and
-- the groups that are read from them.
pub mod Laws
use osko.Prelude.{String, ◌<>◌, Bool, ◌||◌, some, none, List, [], ◌∷◌, ◌==◌, if◌then◌else◌}
use osko.Map.{Map, lookup, insert}
use osko.Api.OpenSlo.{TimeWindowSpec}
use osko.Api.Monitoring.{named_group, Rule, RuleGroup}
use osko.Rules.Labels.{MonitoringRuleSet, unique_strings}
use osko.Rules.Recording.{record_prefix, recording}

-- `rules`, a map for each kind of rule, and `alertingBurnRates`.
pub record RuleTable : Type 0 where
  pub target_rule : Map Rule
  pub total_rule : Map Rule
  pub good_rule : Map Rule
  pub bad_rule : Map Rule
  pub sli_measurement : Map Rule
  pub error_budget_ratio : Map Rule
  pub burn_rate : Map Rule
  pub alerting_burn_rates : List Rule

-- The length of the extended window: 28d unless the first time window has a duration.
unfoldable pub extended_window : List TimeWindowSpec → String
extended_window [] = "28d"
extended_window (w ∷ _) = if w.duration == "" then "28d" else w.duration

abbrev pub fixed_windows : List String
fixed_windows = "5m" ∷ "30m" ∷ "1h" ∷ "2h" ∷ "6h" ∷ "24h" ∷ "3d" ∷ []

unfoldable pub windows_of : MonitoringRuleSet → List String
windows_of mrs =
    unique_strings (mrs.base_window ∷ extended_window mrs.slo.spec.time_window ∷ fixed_windows)

unfoldable pub is_alerting_window : String → Bool
is_alerting_window w =
    w == "5m" || w == "30m" || w == "1h" || w == "2h" || w == "6h" || w == "24h" || w == "3d"

-- The table before the loop: the target rule of the base window.
unfoldable pub start_table : MonitoringRuleSet → String → RuleTable
start_table mrs target = record {
  target_rule =
      insert mrs.base_window
        (recording (record_prefix <> "_slo_target") ("vector(" <> (target <> ")")) mrs
          mrs.base_window)
        [];
  total_rule = [];
  good_rule = [];
  bad_rule = [];
  sli_measurement = [];
  error_budget_ratio = [];
  burn_rate = [];
  alerting_burn_rates = [];
}

-- `rulesByType[key]`: the rules of a kind, in the order of the windows.
unfoldable pub rules_by_type : Map Rule → List String → List Rule
rules_by_type nested [] = []
rules_by_type nested (w ∷ ws) = elim (lookup w nested) [
  | some rule ↦ rule ∷ rules_by_type nested ws
  | none ↦ rules_by_type nested ws
]

-- The groups that every SLO has. The bad rules are in none of them.
unfoldable pub recording_groups : MonitoringRuleSet → RuleTable → List String → List RuleGroup
recording_groups mrs t windows =
    let name = mrs.slo.meta.name in
    named_group (name <> "_slo_target") (rules_by_type t.target_rule (mrs.base_window ∷ []))
    ∷ named_group (name <> "_sli_good") (rules_by_type t.good_rule windows)
    ∷ named_group (name <> "_sli_total") (rules_by_type t.total_rule windows)
    ∷ named_group (name <> "_sli_measurement") (rules_by_type t.sli_measurement windows)
    ∷ named_group (name <> "_error_budget_ratio") (rules_by_type t.error_budget_ratio windows)
    ∷ named_group (name <> "_burn_rate") (rules_by_type t.burn_rate windows)
    ∷ []
