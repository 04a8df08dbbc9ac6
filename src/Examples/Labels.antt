-- ===== src/Examples/Labels.antt =====
-- Labels of the sample SLO.
use osko.Prelude.{
  String, ◌<>◌, ◌≡◌, refl, [], ◌∷◌, ◌==◌, eq_iff, Bool-cases, inl, inr, false≢true, ◌∙◌, sym,
  or_else,
}
use osko.Map.{Map, lookup, NodupKeys}
use osko.Text
use osko.Text.Order
use osko.Rules.Labels.{
  map_to_colon_separated_string, unique_strings, rule_labels, label_prefix, create_base_rule_labels,
  pairs,
}
use osko.Rules.Labels.Laws.{map_to_colon_separated_string-ext, lookup-rule_labels}
use osko.Rules.Labels.Unique.{contains, Distinct, unique_strings-Distinct}
use osko.Examples.Samples.{sample_rules, team_label}

abbrev forwards : Map String
forwards = ("a", "1") ∷ ("b", "2") ∷ []

abbrev backwards : Map String
backwards = ("b", "2") ∷ ("a", "1") ∷ []

same_lookup : (k : String) → lookup k forwards ≡ lookup k backwards
unfolding lookup
same_lookup k = elim (Bool-cases ("a" == k)) [
  | inl a ↦ elim (Bool-cases ("b" == k)) [
    | inl b ↦
        absurd (false≢true ((eq_iff "a" "b").1 ((eq_iff "a" k).0 a ∙ sym ((eq_iff "b" k).0 b))))
    | inr b ↦ rw (a, b) refl
  ]
  | inr a ↦ rw (a) refl
]

map_to_colon_separated_string-ext_example :
    map_to_colon_separated_string forwards ≡ map_to_colon_separated_string backwards
unfolding lookup
map_to_colon_separated_string-ext_example =
    map_to_colon_separated_string-ext forwards backwards (refl, (refl, tt)) (refl, (refl, tt))
      same_lookup

labels_text : map_to_colon_separated_string backwards ≡ "a=\"1\", b=\"2\""
unfolding map_to_colon_separated_string pairs Text.join Text.matches_dunder Text.Order.sort
    Text.Order.str_leb lookup osko.Map.get osko.Map.keys
labels_text = refl

lookup-rule_labels_example :
    lookup "team" (rule_labels (sample_rules [] team_label) "5m")
    ≡ or_else
        (lookup (label_prefix <> "team") team_label)
        (lookup "team" (create_base_rule_labels (sample_rules [] team_label) "5m"))
unfolding lookup
lookup-rule_labels_example =
    lookup-rule_labels (sample_rules [] team_label) "5m" "team" (refl, (refl, tt))

unique_strings-Distinct_example :
    Distinct (unique_strings ("5m" ∷ "28d" ∷ "5m" ∷ []))
    × ((v : String)
        → contains v (unique_strings ("5m" ∷ "28d" ∷ "5m" ∷ []))
          ≡ contains v ("5m" ∷ "28d" ∷ "5m" ∷ []))
unique_strings-Distinct_example = unique_strings-Distinct ("5m" ∷ "28d" ∷ "5m" ∷ [])
