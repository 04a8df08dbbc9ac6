-- ===== src/Rules/Setup/Laws.antt =====
-- The groups of an SLO, window by window, and the results of `SetupRules`.
use mathlib.Core.List.{append_assoc, append-nil}
use osko.Prelude.{
  String, ◌<>◌, ◌≡◌, refl, sym, ◌∙◌, List, [], ◌∷◌, ◌++◌, map, arith, eq_refl, if◌then◌else◌,
  Bool-cases, inl, inr,
}
use osko.Map.{lookup, insert}
use osko.Runtime.{Runtime}
use osko.Config.{Config}
use osko.Api.Monitoring.{named_group, Rule, RuleGroup}
use osko.Rules.Labels.{MonitoringRuleSet}
use osko.Rules.Recording.{record_prefix, recording}
use osko.Rules.Table.{
  RuleTable, windows_of, is_alerting_window, start_table, recording_groups, rules_by_type,
}
use osko.Rules.Table.Laws.{insert_each, rules_by_type-insert_each, select, alerting_windows}
use osko.Rules.Setup.{window_rules, process_window, process_windows, alert_groups, groups_of}

module _ (R : Runtime) (mrs : MonitoringRuleSet) (budget : R.Float) where
  -- The rules of each window, without the tables.
  abbrev pub burn_of : String → Rule
  burn_of w = (window_rules R mrs budget w).burn

  unfoldable pub recording_groups_spec : String → List String → List RuleGroup
  recording_groups_spec target ws =
      let name = mrs.slo.meta.name in
      let w = window_rules R mrs budget in
      named_group (name <> "_slo_target") (
        recording (record_prefix <> "_slo_target") ("vector(" <> (target <> ")")) mrs
          mrs.base_window
        ∷ [])
      ∷ named_group (name <> "_sli_good") (map (λ v. (w v).good) ws)
      ∷ named_group (name <> "_sli_total") (map (λ v. (w v).total) ws)
      ∷ named_group (name <> "_sli_measurement") (map (λ v. (w v).measurement) ws)
      ∷ named_group (name <> "_error_budget_ratio") (map (λ v. (w v).ratio) ws)
      ∷ named_group (name <> "_burn_rate") (map (λ v. (w v).burn) ws)
      ∷ []

  -- What the loop has written when it ends.
  record Filled (t : RuleTable) (ws : List String) (u : RuleTable) : Type 0 where
    target : u.target_rule ≡ t.target_rule
    total : u.total_rule ≡ insert_each (λ v. (window_rules R mrs budget v).total) t.total_rule ws
    good : u.good_rule ≡ insert_each (λ v. (window_rules R mrs budget v).good) t.good_rule ws
    measurement :
        u.sli_measurement
        ≡ insert_each (λ v. (window_rules R mrs budget v).measurement) t.sli_measurement ws
    ratio :
        u.error_budget_ratio
        ≡ insert_each (λ v. (window_rules R mrs budget v).ratio) t.error_budget_ratio ws
    burn : u.burn_rate ≡ insert_each burn_of t.burn_rate ws
    alerting :
        u.alerting_burn_rates ≡ t.alerting_burn_rates ++ map burn_of (select is_alerting_window ws)

  alerting_step :
      (rates : List Rule) (w : String) (ws : List String)
      → (if is_alerting_window w then rates ++ burn_of w ∷ [] else rates)
          ++ map burn_of (select is_alerting_window ws)
        ≡ rates ++ map burn_of (select is_alerting_window (w ∷ ws))
  unfolding select
  alerting_step rates w ws = elim (Bool-cases (is_alerting_window w)) [
    | inl at ↦
        rw at (append_assoc rates (burn_of w ∷ []) (map burn_of (select is_alerting_window ws)))
    | inr away ↦ rw away refl
  ]

  process_windows-Filled :
      (t : RuleTable) (ws : List String) → Filled t ws (process_windows R mrs budget t ws)
  unfolding process_windows process_window insert_each select
  process_windows-Filled t [] = record {
    target = refl;
    total = refl;
    good = refl;
    measurement = refl;
    ratio = refl;
    burn = refl;
    alerting = sym (append-nil t.alerting_burn_rates);
  }
  process_windows-Filled t (w ∷ ws) =
      let ih = process_windows-Filled (process_window R mrs budget t w) ws in
      record {
        target = ih.target;
        total = ih.total;
        good = ih.good;
        measurement = ih.measurement;
        ratio = ih.ratio;
        burn = ih.burn;
        alerting = ih.alerting ∙ alerting_step t.alerting_burn_rates w ws;
      }

  target_group :
      (target : String)
      → rules_by_type (start_table mrs target).target_rule (mrs.base_window ∷ [])
        ≡ recording
            (record_prefix <> "_slo_target")
            ("vector(" <> (target <> ")"))
            mrs
            mrs.base_window
          ∷ []
  unfolding rules_by_type start_table lookup insert
  target_group target = ground (arith, eq_refl mrs.base_window)

  -- The groups of an SLO: the target rule, then for each of the five kinds one rule for each
  -- window, in the order of the windows, then the alerts on the burn rates of the seven fixed
  -- windows.
  pub groups_of-eq :
      (cfg : Config R) (target : String)
      → groups_of R cfg mrs budget target
        ≡ recording_groups_spec target (windows_of mrs)
          ++ alert_groups R cfg mrs (map burn_of (alerting_windows mrs))
  unfolding groups_of recording_groups recording_groups_spec
  groups_of-eq cfg target =
      let f = process_windows-Filled (start_table mrs target) (windows_of mrs) in
      rw (f.target, f.total, f.good, f.measurement, f.ratio, f.burn, f.alerting, target_group)
        (simp rules_by_type-insert_each (unfold start_table in refl))
