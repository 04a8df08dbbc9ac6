-- ===== src/Rules/Setup/Bounds.antt =====
-- How many groups and rules an SLO has at most.
use osko.Prelude.{
  ◌≤◌, String, ◌≡◌, List, [], ◌∷◌, map, length, length-map, length-append, All, All-append, arith,
  Bool-cases, inl, inr, ◌==◌,
}
use osko.Runtime.{Runtime}
use osko.Config.{Config}
use osko.Map.{get}
use osko.Errors.{ok}
use osko.Api.Monitoring.{Rule, RuleGroup}
use osko.Rules.Labels.{MonitoringRuleSet}
use osko.Rules.Labels.Unique.{length-unique_strings}
use osko.Rules.Table.{windows_of}
use osko.Rules.Alerts.{BurnRateWindows, has_windows, get_burn_rate_windows}
use osko.Rules.Setup.{alert_if, alert_rules, alert_groups, groups_of, setup_rules}
use osko.Rules.Setup.Laws.{groups_of-eq, recording_groups_spec, burn_of}
use osko.Rules.Table.Laws.{alerting_windows}
use osko.Rules.Setup.Outcomes.{setup_rules-eq-ok_iff}

length-windows_of : (mrs : MonitoringRuleSet) → length (windows_of mrs) ≤ 9
unfolding windows_of
length-windows_of mrs = length-unique_strings _

-- A group with as many rules as the bound at most.
abbrev Within : RuleGroup → Type 0
Within g = length g.rules ≤ 9

module _ (R : Runtime) (mrs : MonitoringRuleSet) where
  length-map_windows : (f : String → Rule) → length (map f (windows_of mrs)) ≤ 9
  length-map_windows f = rw (length-map f (windows_of mrs)) (length-windows_of mrs)

  recording_groups-Within :
      (budget : R.Float) (target : String)
      → All Within (recording_groups_spec R mrs budget target (windows_of mrs))
  unfolding recording_groups_spec
  recording_groups-Within budget target = (
    omega arith,
    (
      length-map_windows _,
      (
        length-map_windows _,
        (length-map_windows _, (length-map_windows _, (length-map_windows _, tt))),
      ),
    ),
  )

  length-alert_if :
      (cfg : Config R) (brw : BurnRateWindows) (short long sre : String)
      → length (alert_if R cfg mrs brw short long sre) ≤ 1
  unfolding alert_if
  length-alert_if cfg brw short long sre = elim (Bool-cases (has_windows brw (short ∷ long ∷ []))) [
    | inl both ↦ rw both (omega arith)
    | inr lacks ↦ rw lacks (omega arith)
  ]

  length-alert_rules :
      (cfg : Config R) (burn_rates : List Rule) → length (alert_rules R cfg mrs burn_rates) ≤ 4
  unfolding alert_rules
  length-alert_rules cfg burn_rates =
      let brw = get_burn_rate_windows burn_rates in
      simp (length-append {0}) (omega (arith, length-alert_if cfg brw))

  alert_groups-Within :
      (cfg : Config R) (burn_rates : List Rule)
      → All Within (alert_groups R cfg mrs burn_rates)
        × (length (alert_groups R cfg mrs burn_rates) ≤ 1)
  unfolding alert_groups
  alert_groups-Within cfg burn_rates =
      elim (Bool-cases (get "osko.dev/magicAlerting" mrs.slo.meta.annotations == "true")) [
        | inl asked ↦ rw asked ((omega (arith, length-alert_rules cfg burn_rates), tt), omega arith)
        | inr other ↦ rw other (tt, omega arith)
      ]

  groups_of_bounds :
      (cfg : Config R) (budget : R.Float) (target : String)
      → All Within (groups_of R cfg mrs budget target)
        × (length (groups_of R cfg mrs budget target) ≤ 7)
  unfolding recording_groups_spec
  groups_of_bounds cfg budget target =
      let recording = recording_groups_spec R mrs budget target (windows_of mrs) in
      let alerts = alert_groups R cfg mrs (map (burn_of R mrs budget) (alerting_windows mrs)) in
      let few = alert_groups-Within cfg (map (burn_of R mrs budget) (alerting_windows mrs)) in
      rw (groups_of-eq R mrs budget cfg target) (
        All-append Within recording alerts (recording_groups-Within budget target) few.0,
        omega (arith, length-append recording alerts, few.1),
      )

  -- Whatever the SLO asks for, there are at most seven groups, and none of them has more than nine
  -- rules.
  pub setup_rules_bounds :
      (cfg : Config R) (groups : List RuleGroup)
      → setup_rules R cfg mrs ≡ ok groups
      → All (λ (g : RuleGroup). length g.rules ≤ 9) groups × (length groups ≤ 7)
  setup_rules_bounds cfg groups made =
      let (o, t, accepted, e) = (setup_rules-eq-ok_iff R cfg mrs groups).0 made in
      rw e (groups_of_bounds cfg (R.sub R.one t) o.target)
