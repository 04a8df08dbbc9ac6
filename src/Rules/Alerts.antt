-- ===== src/Rules/Alerts.antt =====
-- The multi-window burn rate alerts.
use osko.Prelude.{
  String, ◌<>◌, Bool, true, false, not, ◌&&◌, ◌||◌, Option, none, some, List, [], ◌∷◌, ◌==◌,
  if◌then◌else◌, or_zero,
}
use osko.Map.{Map, lookup, insert, get}
use osko.Runtime.{Runtime}
use osko.Config.{
  Config, SreAlertSeverity, page_critical, page_high, ticket_high, ticket_medium,
  alert_severities_by_tool, get_severity,
}
use osko.Api.Monitoring.{Rule, empty_rule, str_val}
use osko.Rules.Labels.{MonitoringRuleSet}
use osko.Rules.Recording.{selector}

-- The window of each burn rate rule, by its label.
abbrev pub BurnRateWindows : Type 0
BurnRateWindows = Map Rule

unfoldable pub has_windows : BurnRateWindows → List String → Bool
has_windows brw [] = true
has_windows brw (w ∷ required) = elim (lookup w brw) [
  | none ↦ false
  | some _ ↦ has_windows brw required
]

-- `brw.windows[window]`: the zero rule if it is missing
unfoldable pub get_window : BurnRateWindows → String → Rule
get_window brw window = or_zero empty_rule (lookup window brw)

-- What one burn rate rule adds.
unfoldable pub add_window : BurnRateWindows → Rule → BurnRateWindows
add_window windows br = elim (lookup "window" br.labels) [
  | some window ↦ (if window == "" then windows else insert window br windows)
  | none ↦ windows
]

unfoldable pub windows_from : BurnRateWindows → List Rule → BurnRateWindows
windows_from windows [] = windows
windows_from windows (br ∷ burn_rates) = windows_from (add_window windows br) burn_rates

unfoldable pub get_burn_rate_windows : List Rule → BurnRateWindows
unfolding windows_from add_window
get_burn_rate_windows burn_rates = windows_from [] burn_rates

-- The short window, the long window and the two thresholds of a severity. A severity that is none
-- of the four leaves the variables at their zero values.
pub record WindowChoice (F : Type 0) : Type 0 where
  pub short_window : Rule
  pub long_window : Rule
  pub short_threshold : F
  pub long_threshold : F

-- Each case of the switch takes two windows, and one threshold for both.
abbrev pub window_pair :
    (R : Runtime) → BurnRateWindows → String → String → R.Float → WindowChoice R.Float
window_pair R brw short long threshold = record {
  short_window = get_window brw short;
  long_window = get_window brw long;
  short_threshold = threshold;
  long_threshold = threshold;
}

module _ (R : Runtime) where
  unfoldable pub is_valid_rule : Rule → Bool
  is_valid_rule rule = not (rule.record_name == "") && not (R.expr_text rule.expr == "")

  unfoldable pub choose_windows :
      Config R → BurnRateWindows → SreAlertSeverity → WindowChoice R.Float
  choose_windows cfg brw sre =
      if sre == page_critical
      then window_pair R brw "5m" "1h" cfg.alerting_burn_rates.page_short_window
      else if sre == page_high
      then window_pair R brw "30m" "6h" cfg.alerting_burn_rates.page_long_window
      else if sre == ticket_high
      then window_pair R brw "2h" "24h" cfg.alerting_burn_rates.ticket_short_window
      else if sre == ticket_medium
      then window_pair R brw "6h" "3d" cfg.alerting_burn_rates.ticket_long_window
      else record {
        short_window = empty_rule;
        long_window = empty_rule;
        short_threshold = R.zero_float;
        long_threshold = R.zero_float;
      }

  unfoldable pub alert_expression : WindowChoice R.Float → String
  alert_expression w =
      "("
      <> (selector w.short_window
          <> (" > "
              <> (R.format_float 1 w.short_threshold
                  <> (" and "
                      <> (selector w.long_window
                          <> (" > " <> (R.format_float 1 w.long_threshold <> ")")))))))

  unfoldable pub alerting_tool : Config R → MonitoringRuleSet → String
  alerting_tool cfg mrs =
      let annotated = get "osko.dev/alertingTool" mrs.slo.meta.annotations in
      if annotated == "" then cfg.alerting_tool else annotated

  -- The alert, once the windows are chosen.
  unfoldable pub alert_of :
      Config R → MonitoringRuleSet → Option String → SreAlertSeverity → WindowChoice R.Float → Rule
  alert_of cfg mrs duration sre w =
      let short = get "window" w.short_window.labels in
      let long = get "window" w.long_window.labels in
      if not (is_valid_rule w.short_window) || not (is_valid_rule w.long_window)
      then empty_rule
      else record {
        record_name = "";
        alert = mrs.slo.meta.name <> ("_alert_" <> sre);
        expr = str_val (alert_expression w);
        for_duration = duration;
        keep_firing_for = none;
        labels =
            ("severity", get_severity (alert_severities_by_tool R (alerting_tool cfg mrs)) sre)
            ∷ ("slo_name", mrs.slo.meta.name)
            ∷ ("sli_name", mrs.sli.meta.name)
            ∷ ("short_window", short)
            ∷ ("long_window", long)
            ∷ [];
        annotations =
            ("summary", "SLO Burn Rate Alert")
            ∷ (
              "description",
              "The burn rate of SLO "
                  <> (mrs.slo.meta.name
                      <> (" is consuming error budget faster than acceptable. Short window: "
                          <> (short <> (", Long window: " <> long)))),
            )
            ∷ [];
      }

  unfoldable pub create_multi_burn_rate_alert :
      Config R → MonitoringRuleSet → BurnRateWindows → Option String → SreAlertSeverity → Rule
  create_multi_burn_rate_alert cfg mrs brw duration sre =
      alert_of cfg mrs duration sre (choose_windows cfg brw sre)
