-- ===== src/Rules/Labels/Laws.antt =====
-- The text of a label map does not depend on the order in which Go gives the entries; which label
-- wins; and what `uniqueStrings` keeps.
use mathlib.Core.List.{
  Mem, Nodup, Nodup-nil, Nodup-cons, Perm, mem-cons, not-mem-nil, perm_ext_iff_of_Nodup,
}
use mathlib.Core.Logic.Or
use mathlib.Core.Path.{ap₂}
use mathlib.Core.HLevel.{¬_prop}
use osko.Prelude.{
  String, ◌<>◌, ◌≡◌, refl, sym, ap, ◌∙◌, ◌≢◌, ◌↔◌, Option, none, some, List, [], ◌∷◌, arith, ◌==◌,
  eq_iff, if◌then◌else◌, or_else, Bool-cases, inl, inr,
}
use osko.Text.{join, has_prefix, trim_prefix, trim_prefix-eq, ne-append_of_not_prefix}
use osko.Text.Order.{sort, sort-perm}
use osko.Map.{Map, lookup, insert, insert_all, keys, get, NodupKeys}
use osko.Map.Laws.{
  lookup-cons, insert-NodupKeys, lookup-insert, lookup-insert_all, insert_all-NodupKeys,
}
use osko.Rules.Labels.{
  MonitoringRuleSet, pairs, map_to_colon_separated_string, merge_labels, create_base_rule_labels,
  create_user_defined_rule_labels, relevant_from, label_prefix, rule_labels,
}

or_else-none {ℓ} : {A : Type ℓ} (o : Option A) → or_else o none ≡ o
or_else-none none = refl
or_else-none (some a) = refl

base-NodupKeys :
    (mrs : MonitoringRuleSet) (window : String) → NodupKeys (create_base_rule_labels mrs window)
unfolding create_base_rule_labels lookup
base-NodupKeys mrs window = (refl, (refl, (refl, (refl, (refl, tt)))))

mem-keys : (m : Map String) (k : String) → Mem k (keys m) ↔ (lookup k m ≢ none)
unfolding keys lookup
mem-keys [] k = (λ h. absurd (not-mem-nil h), λ h. absurd (h refl))
mem-keys ((j, v) ∷ m) k = (
  λ at.
      Or.elim ¬_prop (mem-cons.0 at) (λ e. ground (arith, eq_iff j k))
        (λ later. ground (arith, (mem-keys m k).0 later)),
  λ found. elim (Bool-cases (j == k)) [
    | inl same ↦ mem-cons.1 (Or.inl (sym ((eq_iff j k).0 same)))
    | inr differ ↦ mem-cons.1 (Or.inr ((mem-keys m k).1 (ground arith)))
  ],
)

keys-Nodup : (m : Map String) → NodupKeys m → Nodup (keys m)
unfolding keys
keys-Nodup [] h = Nodup-nil
keys-Nodup ((j, v) ∷ m) (fresh, h) =
    Nodup-cons.1 ((λ at. (mem-keys m j).0 at fresh), keys-Nodup m h)

pairs-ext :
    (a b : Map String)
    → ((k : String) → lookup k a ≡ lookup k b)
    → (ks : List String) → pairs a ks ≡ pairs b ks
unfolding pairs get
pairs-ext a b h [] = refl
pairs-ext a b h (k ∷ ks) = rw (h k, pairs-ext a b h ks)

-- Two label maps without repeated keys and with the same entries have the same text, in whatever
-- order `range` gives them.
pub map_to_colon_separated_string-ext :
    (a b : Map String)
    → NodupKeys a
    → NodupKeys b
    → ((k : String) → lookup k a ≡ lookup k b)
    → map_to_colon_separated_string a ≡ map_to_colon_separated_string b
unfolding map_to_colon_separated_string
map_to_colon_separated_string-ext a b na nb h =
    ap (join ", ") (pairs-ext a b h (sort (keys a)) ∙ ap (pairs b) (sort-perm same_keys))
  where
    same_keys : Perm (keys a) (keys b)
    same_keys = (perm_ext_iff_of_Nodup (keys-Nodup a na) (keys-Nodup b nb)).1 λ k. (
      (λ m. (mem-keys b k).1 (λ e. (mem-keys a k).0 m (h k ∙ e))),
      (λ m. (mem-keys a k).1 (λ e. (mem-keys b k).0 m (sym (h k) ∙ e))),
    )

abbrev relevant_step : String → String → Map String → Map String
relevant_step k v acc =
    if has_prefix k label_prefix then insert (trim_prefix k label_prefix) v acc else acc

-- One label, looked up behind it and in it.
relevant_step-lookup :
    (k v : String) (acc labels : Map String) (j : String)
    → lookup k labels ≡ none
    → or_else (lookup (label_prefix <> j) labels) (lookup j (relevant_step k v acc))
      ≡ or_else (lookup (label_prefix <> j) ((k, v) ∷ labels)) (lookup j acc)
relevant_step-lookup k v acc labels j fresh = elim (Bool-cases (has_prefix k label_prefix)) [
  | inl has ↦
      rw (has, lookup-insert, lookup-cons, trim_prefix-eq k label_prefix j has)
        (ground (arith, eq_iff k (label_prefix <> j)))
  | inr lacks ↦ rw (lacks, lookup-cons, ne-append_of_not_prefix k label_prefix j lacks) refl
]

lookup-relevant_from :
    (acc labels : Map String) (j : String)
    → NodupKeys labels
    → lookup j (relevant_from acc labels)
      ≡ or_else (lookup (label_prefix <> j) labels) (lookup j acc)
unfolding relevant_from
lookup-relevant_from acc [] j h = unfold lookup in refl
lookup-relevant_from acc ((k, v) ∷ labels) j (fresh, h) =
    lookup-relevant_from (relevant_step k v acc) labels j h
    ∙ relevant_step-lookup k v acc labels j fresh

-- The user defined labels are those under `label.osko.dev/`, each without the prefix.
pub lookup-create_user_defined_rule_labels :
    (mrs : MonitoringRuleSet) (j : String)
    → NodupKeys mrs.slo.meta.labels
    → lookup j (create_user_defined_rule_labels mrs)
      ≡ lookup (label_prefix <> j) mrs.slo.meta.labels
unfolding create_user_defined_rule_labels lookup
lookup-create_user_defined_rule_labels mrs j h =
    lookup-relevant_from [] mrs.slo.meta.labels j h
    ∙ or_else-none (lookup (label_prefix <> j) mrs.slo.meta.labels)

relevant_from-NodupKeys :
    (acc labels : Map String) → NodupKeys acc → NodupKeys (relevant_from acc labels)
unfolding relevant_from
relevant_from-NodupKeys acc [] h = h
relevant_from-NodupKeys acc ((k, v) ∷ labels) h =
    relevant_from-NodupKeys (relevant_step k v acc) labels
      (ground (arith, insert-NodupKeys (trim_prefix k label_prefix) v acc h))

user-NodupKeys : (mrs : MonitoringRuleSet) → NodupKeys (create_user_defined_rule_labels mrs)
unfolding create_user_defined_rule_labels
user-NodupKeys mrs = relevant_from-NodupKeys [] mrs.slo.meta.labels tt

pub rule_labels-NodupKeys :
    (mrs : MonitoringRuleSet) (window : String) → NodupKeys (rule_labels mrs window)
unfolding rule_labels merge_labels
rule_labels-NodupKeys mrs window =
    insert_all-NodupKeys (insert_all [] (create_base_rule_labels mrs window))
      (create_user_defined_rule_labels mrs)
      (insert_all-NodupKeys [] (create_base_rule_labels mrs window) tt)

-- Where the labels of the SLO have no key twice: a label of a recording rule is the user's, if the
-- SLO has `label.osko.dev/<name>`, also for the names that the operator sets; else it is the
-- operator's.
pub lookup-rule_labels :
    (mrs : MonitoringRuleSet) (window j : String)
    → NodupKeys mrs.slo.meta.labels
    → lookup j (rule_labels mrs window)
      ≡ or_else
          (lookup (label_prefix <> j) mrs.slo.meta.labels)
          (lookup j (create_base_rule_labels mrs window))
unfolding rule_labels merge_labels
lookup-rule_labels mrs window j h =
    lookup-insert_all (insert_all [] (create_base_rule_labels mrs window))
      (create_user_defined_rule_labels mrs) j (user-NodupKeys mrs)
    ∙ ap₂ or_else (lookup-create_user_defined_rule_labels mrs j h) (
        lookup-insert_all [] (create_base_rule_labels mrs window) j (base-NodupKeys mrs window)
        ∙ unfold lookup in or_else-none (lookup j (create_base_rule_labels mrs window)))
