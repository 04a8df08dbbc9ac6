-- ===== src/PrometheusRuleController/Inline.antt =====
-- The inline SLI, which the reconcilers of SLOs and of PrometheusRules make each in its own way.
use osko.Prelude.{String, ◌<>◌, ◌≡◌, ◌==◌, ◌∙◌, ap, true, some, none, eq_iff, refl}
use osko.Map.{lookup, NodupKeys}
use osko.Runtime.{Runtime}
use osko.Config.{Config}
use osko.Api.OpenSlo.{Slo, Sli, Indicator}
use osko.Rules.Build.{rule_set}
use osko.Rules.Labels.{rule_labels, label_prefix, create_base_rule_labels}
use osko.Rules.Labels.Laws.{lookup-rule_labels}
use osko.SloController.Indicator.{new_inline_sli, inline_sli_name}
use osko.PrometheusRuleController.Fetch.{copied_sli}

module _ (R : Runtime) (cfg : Config R) (slo : Slo) (ind : Indicator) (window : String)
    (labels : NodupKeys slo.meta.labels)
    (unset : lookup (label_prefix <> "sli_name") slo.meta.labels ≡ none) where
  lookup-sli_name :
      (sli : Sli)
      → lookup "sli_name" (rule_labels (rule_set R cfg slo sli) window) ≡ some sli.meta.name
  unfolding rule_set
  lookup-sli_name sli =
      lookup-rule_labels (rule_set R cfg slo sli) window "sli_name" labels
      ∙ rw unset (unfold create_base_rule_labels lookup in refl)

  -- For an SLO whose inline indicator has no name, and which does not set the label itself: the
  -- rules that the reconciler of the SLO makes have the label sli_name `<slo>-sli`, and those that
  -- the reconciler of PrometheusRules writes in their place have it empty.
  pub sli_name-of_inline :
      (ind.metadata.name == "") ≡ true
      → (lookup "sli_name" (rule_labels (rule_set R cfg slo (new_inline_sli slo ind)) window)
          ≡ some (slo.meta.name <> "-sli"))
        × (lookup "sli_name" (rule_labels (rule_set R cfg slo (copied_sli ind)) window) ≡ some "")
  sli_name-of_inline unnamed = (
    lookup-sli_name (new_inline_sli slo ind)
        ∙ (unfold new_inline_sli inline_sli_name in rw unnamed refl),
    lookup-sli_name (copied_sli ind)
        ∙ (unfold copied_sli in ap some ((eq_iff ind.metadata.name "").0 unnamed)),
  )
