-- ===== src/Rules/Labels.antt =====
-- The labels of the rules, and their text in a PromQL selector.
pub mod Laws
pub mod Unique
use osko.Prelude.{String, ◌<>◌, Bool, true, false, List, [], ◌∷◌, if◌then◌else◌, or_zero}
use osko.Text.{has_prefix, trim_prefix, join, matches_dunder}
use osko.Text.Order.{sort}
use osko.Map.{Map, lookup, insert, keys, insert_all, get}
use osko.Api.OpenSlo.{Slo, Sli}
use osko.Api.Monitoring.{Rule}

pub record MonitoringRuleSet : Type 0 where
  pub slo : Slo
  pub sli : Sli
  pub target_rule : Rule
  pub base_rule : Rule
  pub good_rule : Rule
  pub total_rule : Rule
  pub base_window : String

-- The texts `k="v"` of the keys that do not match `__.*?__`.
unfoldable pub pairs : Map String → List String → List String
pairs labels [] = []
pairs labels (k ∷ ks) =
    let rest = pairs labels ks in
    if matches_dunder k then rest else (k <> ("=\"" <> (get k labels <> "\""))) ∷ rest

unfoldable pub map_to_colon_separated_string : Map String → String
map_to_colon_separated_string labels = join ", " (pairs labels (sort (keys labels)))

merge_from : Map String → List (Map String) → Map String
merge_from labels [] = labels
merge_from labels (m ∷ ms) = merge_from (insert_all labels m) ms

-- Later maps win.
unfoldable pub merge_labels : List (Map String) → Map String
unfolding merge_from
merge_labels ms = merge_from [] ms

-- The loop, over the set of the texts that were seen.
unique_from : Map Bool → List String → List String
unique_from seen [] = []
unique_from seen (v ∷ input) = elim (or_zero false (lookup v seen)) [
  | true ↦ unique_from seen input
  | false ↦ v ∷ unique_from (insert v true seen) input
]

unfoldable pub unique_strings : List String → List String
unfolding unique_from
unique_strings input = unique_from [] input

unfoldable pub create_base_rule_labels : MonitoringRuleSet → String → Map String
create_base_rule_labels mrs window =
    ("namespace", mrs.slo.meta.namespace)
    ∷ ("service", mrs.slo.spec.service)
    ∷ ("sli_name", mrs.sli.meta.name)
    ∷ ("slo_name", mrs.slo.meta.name)
    ∷ ("window", window)
    ∷ []

abbrev pub label_prefix : String
label_prefix = "label.osko.dev/"

relevant_from : Map String → Map String → Map String
relevant_from relevant [] = relevant
relevant_from relevant ((key, value) ∷ labels) =
    relevant_from
      (if has_prefix key label_prefix
        then insert (trim_prefix key label_prefix) value relevant
        else relevant)
      labels

unfoldable pub create_user_defined_rule_labels : MonitoringRuleSet → Map String
unfolding relevant_from
create_user_defined_rule_labels mrs = relevant_from [] mrs.slo.meta.labels

-- The labels of every recording rule.
unfoldable pub rule_labels : MonitoringRuleSet → String → Map String
rule_labels mrs window =
    merge_labels (create_base_rule_labels mrs window ∷ create_user_defined_rule_labels mrs ∷ [])
