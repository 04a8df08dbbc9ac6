-- ===== src/Rules/Setup/Alerting.antt =====
-- The alerts that `SetupRules` makes from the burn rates of the fixed windows.
use osko.Prelude.{
  String, ◌<>◌, ◌≡◌, refl, ap, ◌⊎◌, true, false, some, none, [], ◌∷◌, map, arith, ◌==◌, eq_iff,
  Bool-cases, inl, inr,
}
use osko.Map.{lookup, get, NodupKeys}
use osko.Runtime.{Runtime, PrintsText}
use osko.Config.{
  Config, SreAlertSeverity, page_critical, page_high, ticket_high, ticket_medium,
  alert_severities_by_tool, get_severity,
}
use osko.Api.Monitoring.{Rule, str_val}
use osko.Rules.Labels.{MonitoringRuleSet, label_prefix}
use osko.Rules.Labels.Unique.{contains}
use osko.Rules.Alerts.{
  BurnRateWindows, window_pair, get_burn_rate_windows, choose_windows, alert_expression,
  alerting_tool, create_multi_burn_rate_alert, alert_of,
}
use osko.Rules.Table.{fixed_windows}
use osko.Rules.Table.Laws.{alerting_windows}
use osko.Rules.Setup.{alert_if, alert_rules}
use osko.Rules.Setup.Laws.{burn_of}
use osko.Rules.Setup.Windows.{
  has_windows_both, has_windows_one, get_window_found, burn_valid, burn-window,
  burn-window_override, lookup-windows, lookup-windows_override,
}

module _ (R : Runtime) (cfg : Config R) (mrs : MonitoringRuleSet) (budget : R.Float) where
  -- The alert on a short and a long window, by the burn rates of these windows.
  pub alert_spec : SreAlertSeverity → String → String → R.Float → Rule
  alert_spec sre short long threshold = record {
    record_name = "";
    alert = mrs.slo.meta.name <> ("_alert_" <> sre);
    expr = str_val (
        alert_expression R (record {
          short_window = burn_of R mrs budget short;
          long_window = burn_of R mrs budget long;
          short_threshold = threshold;
          long_threshold = threshold;
        }));
    for_duration = some "5m";
    keep_firing_for = none;
    labels =
        ("severity", get_severity (alert_severities_by_tool R (alerting_tool R cfg mrs)) sre)
        ∷ ("slo_name", mrs.slo.meta.name)
        ∷ ("sli_name", mrs.sli.meta.name)
        ∷ ("short_window", short)
        ∷ ("long_window", long)
        ∷ [];
    annotations =
        ("summary", "SLO Burn Rate Alert")
        ∷ (
          "description",
          "The burn rate of SLO "
              <> (mrs.slo.meta.name
                  <> (" is consuming error budget faster than acceptable. Short window: "
                      <> (short <> (", Long window: " <> long)))),
        )
        ∷ [];
  }

  alert_of-eq :
      (short long sre : String) (threshold : R.Float)
      → PrintsText R
      → NodupKeys mrs.slo.meta.labels
      → lookup (label_prefix <> "window") mrs.slo.meta.labels ≡ none
      → alert_of R cfg mrs (some "5m") sre (record {
        short_window = burn_of R mrs budget short;
        long_window = burn_of R mrs budget long;
        short_threshold = threshold;
        long_threshold = threshold;
      })
        ≡ alert_spec sre short long threshold
  unfolding alert_of get alert_spec
  alert_of-eq short long sre threshold prints h free =
      rw
        (
          burn_valid R mrs budget prints short,
          burn_valid R mrs budget prints long,
          burn-window R mrs budget short h free,
          burn-window R mrs budget long h free,
        )
        refl

  alert_if-eq :
      (brw : BurnRateWindows) (short long sre : String) (threshold : R.Float)
      → PrintsText R
      → NodupKeys mrs.slo.meta.labels
      → lookup (label_prefix <> "window") mrs.slo.meta.labels ≡ none
      → lookup short brw ≡ some (burn_of R mrs budget short)
      → lookup long brw ≡ some (burn_of R mrs budget long)
      → choose_windows R cfg brw sre ≡ window_pair R brw short long threshold
      → alert_if R cfg mrs brw short long sre ≡ alert_spec sre short long threshold ∷ []
  unfolding alert_if create_multi_burn_rate_alert
  alert_if-eq brw short long sre threshold prints h free at_short at_long chosen =
      rw
        (
          has_windows_both brw short long at_short at_long,
          chosen,
          get_window_found brw short at_short,
          get_window_found brw long at_long,
        )
        (ap (λ (r : Rule). r ∷ []) (alert_of-eq short long sre threshold prints h free))

  -- From the burn rates of the fixed windows, of an SLO whose labels have no key twice and which
  -- does not set the `window` label itself: four alerts, by falling severity, each on the two
  -- windows of its severity and with the factor of the configuration. Expressions print as their
  -- text.
  pub alert_rules-eq :
      PrintsText R
      → NodupKeys mrs.slo.meta.labels
      → lookup (label_prefix <> "window") mrs.slo.meta.labels ≡ none
      → alert_rules R cfg mrs (map (burn_of R mrs budget) (alerting_windows mrs))
        ≡ alert_spec page_critical "5m" "1h" cfg.alerting_burn_rates.page_short_window
          ∷ alert_spec page_high "30m" "6h" cfg.alerting_burn_rates.page_long_window
          ∷ alert_spec ticket_high "2h" "24h" cfg.alerting_burn_rates.ticket_short_window
          ∷ alert_spec ticket_medium "6h" "3d" cfg.alerting_burn_rates.ticket_long_window
          ∷ []
  unfolding alert_rules
  alert_rules-eq prints h free =
      rw
        (
          fires "5m" "1h" page_critical cfg.alerting_burn_rates.page_short_window refl refl
              (unfold choose_windows in refl),
          fires "30m" "6h" page_high cfg.alerting_burn_rates.page_long_window refl refl
              (unfold choose_windows in refl),
          fires "2h" "24h" ticket_high cfg.alerting_burn_rates.ticket_short_window refl refl
              (unfold choose_windows in refl),
          fires "6h" "3d" ticket_medium cfg.alerting_burn_rates.ticket_long_window refl refl
              (unfold choose_windows in refl),
        )
        refl
    where
      brw : BurnRateWindows
      brw = get_burn_rate_windows (map (burn_of R mrs budget) (alerting_windows mrs))

      fires :
          (short long sre : String) (threshold : R.Float)
          → contains short fixed_windows ≡ true
          → contains long fixed_windows ≡ true
          → choose_windows R cfg brw sre ≡ window_pair R brw short long threshold
          → alert_if R cfg mrs brw short long sre ≡ alert_spec sre short long threshold ∷ []
      fires short long sre threshold at_short at_long chosen =
          alert_if-eq brw short long sre threshold prints h free
            (lookup-windows R mrs budget short h free at_short)
            (lookup-windows R mrs budget long h free at_long) chosen

  -- From the burn rates of the fixed windows, of an SLO whose labels have no key twice and which
  -- has a label `label.osko.dev/window`: there is no alert at all.
  pub alert_rules_of_window_label :
      (u : String)
      → NodupKeys mrs.slo.meta.labels
      → lookup (label_prefix <> "window") mrs.slo.meta.labels ≡ some u
      → alert_rules R cfg mrs (map (burn_of R mrs budget) (alerting_windows mrs)) ≡ []
  unfolding alert_rules
  alert_rules_of_window_label u h set =
      rw
        (
          silent "5m" "1h" page_critical (λ e. cc),
          silent "30m" "6h" page_high (λ e. cc),
          silent "2h" "24h" ticket_high (λ e. cc),
          silent "6h" "3d" ticket_medium (λ e. cc),
        )
        refl
    where
      brw : BurnRateWindows
      brw = get_burn_rate_windows (map (burn_of R mrs budget) (alerting_windows mrs))

      absent : (v : String) → (u == v) ≡ false → lookup v brw ≡ none
      absent v other =
          unfold get_burn_rate_windows lookup in
          lookup-windows_override R mrs budget u (λ w. burn-window_override R mrs budget w u h set)
            [] (alerting_windows mrs) v other

      missing :
          (short long : String)
          → ¬ ((short == long) ≡ true)
          → (lookup short brw ≡ none) ⊎ (lookup long brw ≡ none)
      missing short long differ = elim (Bool-cases (u == short)) [
        | inl at ↦ inr (
            absent long
              (ground (arith, at, differ, eq_iff u short, eq_iff u long, eq_iff short long)))
        | inr away ↦ inl (absent short away)
      ]

      silent :
          (short long sre : String)
          → ¬ ((short == long) ≡ true)
          → alert_if R cfg mrs brw short long sre ≡ []
      silent short long sre differ =
          unfold alert_if in rw (has_windows_one brw short long (missing short long differ)) refl
