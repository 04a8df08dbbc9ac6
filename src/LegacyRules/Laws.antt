-- ===== src/LegacyRules/Laws.antt =====
-- What the construction of a ratio rule writes through the pointers of its configuration.
use osko.Prelude.{ℕ, nat_eq, ◌≡◌, false, String, ◌==◌, some, arith, if◌then◌else◌}
use osko.Map.{get, lookup}
use osko.Errors.{ok}
use osko.Api.Monitoring.{IntOrString, Rule}
use osko.LegacyRules.Labels.{deref, new_metric_label_generator}
use osko.LegacyRules.Ratio.{
  Store, put, RuleConfig, fields, supportive, set_window, generated, new_supportive_rule,
  new_ratio_rule,
}

module _ (parse : String → IntOrString) (c s : RuleConfig) (p : ℕ) (window : String)
    (store store' : Store) (base sup : Rule) (pointer : (fields c).metric_label_compiler ≡ some p)
    (other : supportive c ≡ some s)
    (made : new_ratio_rule parse c window store ≡ ok (some (base, sup), store')) where
  -- Where NewRatioRule makes its two rules, it has written to the labels that its
  -- MetricLabelCompiler points at, and to no others, and has left there the window of the
  -- supportive rule.
  pub new_ratio_rule-store :
      (q : ℕ)
      → store' q ≡ (
          if nat_eq p q then record (store p) { time_window = (fields s).time_window } else store q)
  new_ratio_rule-store q =
      unfold new_ratio_rule set_window new_supportive_rule deref put in
      ground (arith, made, pointer, other)

  -- Where NewRatioRule makes its two rules, for a window and a supportive window that are set, the
  -- first has the label of the one, and the second of the other, though the two are made through
  -- the same labels.
  pub new_ratio_rule-windows :
      (window == "") ≡ false
      → ((fields s).time_window == "") ≡ false
      → (get "window" base.labels ≡ window) × (get "window" sup.labels ≡ (fields s).time_window)
  new_ratio_rule-windows set set' =
      unfold new_ratio_rule set_window new_supportive_rule deref put generated
        new_metric_label_generator get lookup in
      (
        ground (arith, made, pointer, other, set, set'),
        ground (arith, made, pointer, other, set, set'),
      )
