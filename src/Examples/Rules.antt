-- ===== src/Examples/Rules.antt =====
-- The rules of the sample SLO.
use osko.Prelude.{
  ℕ, Option, inr, ◌==◌, eq_iff, false≢true, Bool-cases, String, ◌≡◌, ◌↔◌, inl, refl, ◌≢◌, true,
  false, some, none, List, [], ◌∷◌, ◌++◌, map, arith, All, length, ◌≤◌,
}
use osko.Map.{lookup}
use osko.Text
use osko.Rules.Setup.Refusals.{Refused, setup_rules-Wraps_iff}
use osko.Errors.{GoError, Result, text, ok, err, panic, err_invalid_target}
use osko.Config.{page_critical, page_high, ticket_high, ticket_medium}
use osko.Api.Monitoring.{named_group, RuleGroup, str_val, empty_rule, Rule}
use osko.Api.OpenSlo.{ObjectivesSpec}
use osko.Api.Osko.{ConnectionDetails}
use osko.Rules.Recording.{is_prometheus_source}
use osko.Rules.Table.{windows_of}
use osko.Rules.Table.Laws.{alerting_windows}
use osko.Rules.Setup.{setup_rules, groups_of, alert_groups, alert_rules}
use osko.Rules.Setup.Laws.{burn_of, recording_groups_spec, groups_of-eq}
use osko.Rules.Setup.Outcomes.{
  Succeeds, Wraps, setup_rules-eq-ok_iff, setup_rules-eq-panic_iff, setup_rules_of_nan,
}
use osko.Rules.Setup.Bounds.{setup_rules_bounds}
use osko.Rules.Setup.Alerting.{alert_spec, alert_rules-eq, alert_rules_of_window_label}
use osko.Mimir.{mimir_groups}
use osko.Mimir.Laws.{group_of_mimir, reduced_group, groups-roundtrip}
use osko.Examples.Samples.{
  sample_runtime, sample_runtime-IsIeee, sample_prints, sample_config, sample_rules, objective,
  team_label, IsNan,
}

groups_of-eq_example :
    groups_of sample_runtime sample_config (sample_rules [] team_label) (some 10) "0.99"
    ≡ recording_groups_spec sample_runtime
        (sample_rules [] team_label)
        (some 10)
        "0.99"
        (windows_of (sample_rules [] team_label))
      ++ alert_groups sample_runtime sample_config (sample_rules [] team_label) (
          map
            (burn_of sample_runtime (sample_rules [] team_label) (some 10))
            (alerting_windows (sample_rules [] team_label)))
groups_of-eq_example =
    groups_of-eq sample_runtime (sample_rules [] team_label) (some 10) sample_config "0.99"

supported : (os : List ObjectivesSpec) → is_prometheus_source (sample_rules os team_label) ≡ true
unfolding is_prometheus_source Text.lower_is
supported os = refl

abbrev good_groups : List RuleGroup
good_groups =
    groups_of sample_runtime sample_config (sample_rules (objective "0.99" ∷ []) team_label)
      (some 10) "0.99"

setup_rules-eq-ok_iff_example :
    (setup_rules sample_runtime sample_config (sample_rules (objective "0.99" ∷ []) team_label)
      ≡ ok good_groups)
    ↔ Succeeds sample_runtime sample_config
        (sample_rules (objective "0.99" ∷ []) team_label)
        good_groups
setup_rules-eq-ok_iff_example =
    setup_rules-eq-ok_iff sample_runtime sample_config
      (sample_rules (objective "0.99" ∷ []) team_label) good_groups

sets_up :
    setup_rules sample_runtime sample_config (sample_rules (objective "0.99" ∷ []) team_label)
    ≡ ok good_groups
sets_up = setup_rules-eq-ok_iff_example.1 (
  objective "0.99",
  some 990,
  record {
    rest = [];
    source = supported (objective "0.99" ∷ []);
    first = refl;
    parsed = refl;
    below_one = refl;
    above_zero = refl;
  },
  refl,
)

setup_rules_bounds_example :
    All (λ (g : RuleGroup). length g.rules ≤ 9) good_groups × (length good_groups ≤ 7)
setup_rules_bounds_example =
    setup_rules_bounds sample_runtime (sample_rules (objective "0.99" ∷ []) team_label)
      sample_config good_groups sets_up

syntax-ne-invalid_target : text "syntax" ≢ err_invalid_target
syntax-ne-invalid_target h = false≢true ((eq_iff "syntax" "invalid SLO target").1 (text_inv h))
  where
    text_inv : {s t : String} → text s ≡ text t → s ≡ t
    text_inv e = cc

parse-ne-invalid_target : (s : String) → sample_runtime.parse_float s ≢ err err_invalid_target
parse-ne-invalid_target s h = elim (Bool-cases (s == "0.99")) [
  | inl e ↦ cc (rw e at h)
  | inr e ↦ elim (Bool-cases (s == "1.0")) [
    | inl f ↦ cc (rw (e, f) at h)
    | inr f ↦ elim (Bool-cases (s == "NaN")) [
      | inl g ↦ cc (rw (e, f, g) at h)
      | inr g ↦ syntax-ne-invalid_target (err_inv (rw (e, f, g) at h))
    ]
  ]
]
  where
    err_inv : {d e : GoError} → ◌≡◌ {A = Result (Option ℕ)} (err d) (err e) → d ≡ e
    err_inv e = cc

setup_rules-Wraps_iff_example :
    Wraps err_invalid_target
      (setup_rules sample_runtime sample_config (sample_rules (objective "1.0" ∷ []) team_label))
    ↔ ((o : ObjectivesSpec) × (t : sample_runtime.Float) × Refused sample_runtime sample_config
          (sample_rules (objective "1.0" ∷ []) team_label)
          o
          t)
setup_rules-Wraps_iff_example =
    setup_rules-Wraps_iff sample_runtime sample_config
      (sample_rules (objective "1.0" ∷ []) team_label) parse-ne-invalid_target

parse-ne-panic : (s : String) → sample_runtime.parse_float s ≢ panic
parse-ne-panic s = ground arith

setup_rules-eq-panic_iff_example :
    (setup_rules sample_runtime sample_config (sample_rules [] team_label) ≡ panic) ↔ (
      (is_prometheus_source (sample_rules [] team_label) ≡ true)
      × ((sample_rules [] team_label).slo.spec.objectives ≡ []))
setup_rules-eq-panic_iff_example =
    setup_rules-eq-panic_iff sample_runtime sample_config (sample_rules [] team_label)
      parse-ne-panic

setup_rules_of_nan_example :
    setup_rules sample_runtime sample_config (sample_rules (objective "NaN" ∷ []) team_label)
    ≡ ok (
        groups_of sample_runtime sample_config
          (sample_rules (objective "NaN" ∷ []) team_label)
          none
          "NaN")
setup_rules_of_nan_example =
    setup_rules_of_nan sample_runtime IsNan sample_runtime-IsIeee sample_config
      (sample_rules (objective "NaN" ∷ []) team_label) (objective "NaN") [] none
      (supported (objective "NaN" ∷ [])) refl refl refl

alert_rules-eq_example :
    alert_rules sample_runtime sample_config (sample_rules [] team_label) (
      map
        (burn_of sample_runtime (sample_rules [] team_label) (some 10))
        (alerting_windows (sample_rules [] team_label)))
    ≡ alert_spec sample_runtime sample_config
        (sample_rules [] team_label)
        (some 10)
        page_critical
        "5m"
        "1h"
        (some 14400)
      ∷ alert_spec sample_runtime sample_config
          (sample_rules [] team_label)
          (some 10)
          page_high
          "30m"
          "6h"
          (some 6000)
      ∷ alert_spec sample_runtime sample_config
          (sample_rules [] team_label)
          (some 10)
          ticket_high
          "2h"
          "24h"
          (some 3000)
      ∷ alert_spec sample_runtime sample_config
          (sample_rules [] team_label)
          (some 10)
          ticket_medium
          "6h"
          "3d"
          (some 1000)
      ∷ []
unfolding lookup
alert_rules-eq_example =
    alert_rules-eq sample_runtime sample_config (sample_rules [] team_label) (some 10) sample_prints
      (refl, (refl, tt)) refl

abbrev window_label : List (String × String)
window_label = ("label.osko.dev/window", "week") ∷ []

alert_rules_of_window_label_example :
    alert_rules sample_runtime sample_config (sample_rules [] window_label) (
      map
        (burn_of sample_runtime (sample_rules [] window_label) (some 10))
        (alerting_windows (sample_rules [] window_label)))
    ≡ []
unfolding lookup
alert_rules_of_window_label_example =
    alert_rules_of_window_label sample_runtime sample_config (sample_rules [] window_label)
      (some 10) "week" (refl, tt) refl

abbrev an_alert : Rule
an_alert = record empty_rule {
  alert = "checkout_alert_page_high";
  expr = str_val "(a > 6.0 and b > 6.0)";
  for_duration = some "5m";
  keep_firing_for = some "10m";
  annotations = ("summary", "SLO Burn Rate Alert") ∷ [];
}

abbrev alert_group : RuleGroup
alert_group = record (named_group "checkout_slo_alert" (an_alert ∷ [])) {
  interval = some "1m";
  limit = some 5;
}

abbrev details : ConnectionDetails
details = record {
  address = "http://mimir";
  target_tenant = "t";
  source_tenants = "a" ∷ [];
  sync_prometheus_rules = false;
}

groups-roundtrip_example :
    map group_of_mimir (mimir_groups sample_runtime (alert_group ∷ []) details)
    ≡ map reduced_group (alert_group ∷ [])
groups-roundtrip_example =
    groups-roundtrip sample_runtime sample_prints (alert_group ∷ []) details (
      (record { text = "(a > 6.0 and b > 6.0)"; by_text = refl; one_kind = inl (refl, refl) }, tt),
      tt,
    )
