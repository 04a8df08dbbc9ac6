-- ===== src/Rules/Setup/Windows.antt =====
-- The windows that the alerts look up among the burn rate rules.
use text.Mathlib.TextLemmas.{append-eq-nil_iff}
use osko.Prelude.{
  String, ◌<>◌, ◌≡◌, refl, ap, ◌∙◌, ◌⊎◌, true, false, some, none, List, [], ◌∷◌, map, arith, ◌==◌,
  eq_refl, eq_iff,
}
use osko.Map.{lookup, insert, NodupKeys}
use osko.Map.Laws.{lookup-insert}
use osko.Runtime.{Runtime, PrintsText}
use osko.Api.Monitoring.{Rule, str_val}
use osko.Rules.Labels.{MonitoringRuleSet, rule_labels, create_base_rule_labels, label_prefix}
use osko.Rules.Labels.Laws.{lookup-rule_labels}
use osko.Rules.Labels.Unique.{contains}
use osko.Rules.Recording.{create_burn_rate_recording_rule, create_error_budget_ratio_recording_rule}
use osko.Rules.Alerts.{
  BurnRateWindows, has_windows, get_window, add_window, windows_from, get_burn_rate_windows,
  is_valid_rule,
}
use osko.Rules.Table.{fixed_windows, is_alerting_window, windows_of}
use osko.Rules.Table.Laws.{
  insert_each, lookup-insert_each, contains-select, alerting_windows, contains-alerting_windows,
}
use osko.Rules.Setup.{window_rules}
use osko.Rules.Setup.Laws.{burn_of}

ne-append_of_ne : (s t : String) → (s == "") ≡ false → (s <> t == "") ≡ false
ne-append_of_ne s t h =
    ground (arith, eq_iff s "", eq_iff (s <> t) "", λ (e : s <> t ≡ ""). (append-eq-nil_iff.0 e).0)

valid_of_text :
    (R : Runtime)
    → PrintsText R
    → (r : Rule) (s t : String) → r.expr ≡ str_val (s <> t)
    → (s == "") ≡ false
    → (r.record_name == "") ≡ false
    → is_valid_rule R r ≡ true
unfolding is_valid_rule
valid_of_text R prints r s t e filled named = rw (named, e, prints, ne-append_of_ne s t filled) refl

add_window_lem :
    (m : BurnRateWindows) (r : Rule) (w : String)
    → lookup "window" r.labels ≡ some w
    → (w == "") ≡ false
    → add_window m r ≡ insert w r m
unfolding add_window
add_window_lem m r w own filled = ground (arith, own, filled)

lookup-add_window :
    (m : BurnRateWindows) (r : Rule) (u v : String)
    → lookup "window" r.labels ≡ some u
    → (u == v) ≡ false
    → lookup v (add_window m r) ≡ lookup v m
unfolding add_window
lookup-add_window m r u v own other = ground (arith, own, lookup-insert u v r m)

module _ (brw : BurnRateWindows) (s l : String) where
  pub has_windows_both :
      {a b : Rule}
      → lookup s brw ≡ some a
      → lookup l brw ≡ some b
      → has_windows brw (s ∷ l ∷ []) ≡ true
  unfolding has_windows
  has_windows_both p q = ground (arith, p, q)

  pub has_windows_one :
      (lookup s brw ≡ none) ⊎ (lookup l brw ≡ none) → has_windows brw (s ∷ l ∷ []) ≡ false
  unfolding has_windows
  has_windows_one missing = ground arith

pub get_window_found :
    (brw : BurnRateWindows) (v : String) {r : Rule} → lookup v brw ≡ some r → get_window brw v ≡ r
unfolding get_window
get_window_found brw v p = ground (arith, p)

alerting-filled :
    (mrs : MonitoringRuleSet) (v : String)
    → contains v (alerting_windows mrs) ≡ true
    → (v == "") ≡ false
alerting-filled mrs v at = ground (
  arith,
  contains-select is_alerting_window (windows_of mrs) v,
  eq_iff v "",
  ap is_alerting_window {x = v} {y = ""},
  not_empty,
)
  where
    not_empty : is_alerting_window "" ≡ false
    not_empty = unfold is_alerting_window in refl

module _ (R : Runtime) (mrs : MonitoringRuleSet) (budget : R.Float) where
  burn-labels : (w : String) → (burn_of R mrs budget w).labels ≡ rule_labels mrs w
  unfolding window_rules create_burn_rate_recording_rule
  burn-labels w = refl

  pub burn_valid : PrintsText R → (w : String) → is_valid_rule R (burn_of R mrs budget w) ≡ true
  unfolding window_rules create_burn_rate_recording_rule create_error_budget_ratio_recording_rule
  burn_valid prints w =
      valid_of_text R prints (burn_of R mrs budget w) _ _ refl (ne-append_of_ne _ _ refl) refl

  -- The operator's own window label stands where the SLO defines none.
  pub burn-window :
      (w : String)
      → NodupKeys mrs.slo.meta.labels
      → lookup (label_prefix <> "window") mrs.slo.meta.labels ≡ none
      → lookup "window" (burn_of R mrs budget w).labels ≡ some w
  burn-window w h free =
      rw (burn-labels, lookup-rule_labels mrs w "window" h, free)
        (unfold create_base_rule_labels lookup in refl)

  pub burn-window_override :
      (w u : String)
      → NodupKeys mrs.slo.meta.labels
      → lookup (label_prefix <> "window") mrs.slo.meta.labels ≡ some u
      → lookup "window" (burn_of R mrs budget w).labels ≡ some u
  burn-window_override w u h set = rw (burn-labels, lookup-rule_labels mrs w "window" h, set) refl

  windows_from-map :
      (m : BurnRateWindows) (ws : List String)
      → ((v : String) → lookup "window" (burn_of R mrs budget v).labels ≡ some v)
      → ((v : String) → contains v ws ≡ true → (v == "") ≡ false)
      → windows_from m (map (burn_of R mrs budget) ws) ≡ insert_each (burn_of R mrs budget) m ws
  unfolding windows_from insert_each
  windows_from-map m [] own filled = refl
  windows_from-map m (w ∷ ws) own filled =
      ap (λ n. windows_from n (map (burn_of R mrs budget) ws))
        (add_window_lem m (burn_of R mrs budget w) w (own w) (filled w (ground (arith, eq_refl w))))
      ∙ windows_from-map (insert w (burn_of R mrs budget w) m) ws own
          (λ v at. filled v (ground (arith, at)))

  pub lookup-windows :
      (v : String)
      → NodupKeys mrs.slo.meta.labels
      → lookup (label_prefix <> "window") mrs.slo.meta.labels ≡ none
      → contains v fixed_windows ≡ true
      → lookup v (get_burn_rate_windows (map (burn_of R mrs budget) (alerting_windows mrs)))
        ≡ some (burn_of R mrs budget v)
  unfolding get_burn_rate_windows
  lookup-windows v h free fixed =
      rw
        (
          windows_from-map [] (alerting_windows mrs) (λ w. burn-window w h free)
              (alerting-filled mrs),
          lookup-insert_each,
          contains-alerting_windows mrs v fixed,
        )
        refl

  -- With one label for every window at most that window is found.
  pub lookup-windows_override :
      (u : String)
      → ((w : String) → lookup "window" (burn_of R mrs budget w).labels ≡ some u)
      → (m : BurnRateWindows) (ws : List String) (v : String) → (u == v) ≡ false
      → lookup v (windows_from m (map (burn_of R mrs budget) ws)) ≡ lookup v m
  unfolding windows_from
  lookup-windows_override u set m [] v other = refl
  lookup-windows_override u set m (w ∷ ws) v other =
      lookup-windows_override u set (add_window m (burn_of R mrs budget w)) ws v other
      ∙ lookup-add_window m (burn_of R mrs budget w) u v (set w) other
