-- ===== src/Examples/Inline.antt =====
-- The sample SLO with an inline indicator that has no name.
use osko.Prelude.{◌≡◌, refl, some}
use osko.Map.{lookup}
use osko.Rules.Build.{rule_set}
use osko.Rules.Labels.{rule_labels}
use osko.SloController.Indicator.{new_inline_sli}
use osko.PrometheusRuleController.Fetch.{copied_sli}
use osko.PrometheusRuleController.Inline.{sli_name-of_inline}
use osko.Examples.Slos.{kept, sample_indicator}
use osko.Examples.Samples.{sample_runtime, sample_config}

sli_name-of_inline_example :
    (lookup "sli_name" (
        rule_labels
          (rule_set sample_runtime sample_config kept (new_inline_sli kept sample_indicator))
          "5m")
      ≡ some "checkout-sli")
    × (lookup "sli_name" (
          rule_labels
            (rule_set sample_runtime sample_config kept (copied_sli sample_indicator))
            "5m")
        ≡ some "")
unfolding lookup
sli_name-of_inline_example =
    sli_name-of_inline sample_runtime sample_config kept sample_indicator "5m" (refl, (refl, tt))
      refl refl
