-- ===== src/LegacyRules/Labels.antt =====
-- MetricLabel and its two methods, and ParseTenantAnnotation.
use osko.Prelude.{
  String, ◌<>◌, Bool, false, not, Option, some, none, List, [], ◌∷◌, ◌++◌, ◌==◌, if◌then◌else◌,
}
use osko.Map.{Map, insert_all}
use osko.Errors.{Result, ok, panic, ◌>>=◌}
use osko.Api.OpenSlo.{Slo, Sli, TimeWindowSpec}
use osko.Api.Osko.{Datasource}
use osko.Api.Monitoring.{Rule, empty_rule}

-- A nil pointer is `none`.
pub record MetricLabel : Type 0 where
  pub slo : Option Slo
  pub sli : Option Sli
  pub time_window : String
  pub labels : Map String

-- What a pointer points at: a nil pointer is a fault.
unfoldable pub deref : {A : Type 0} → Option A → Result A
deref none = panic
deref (some a) = ok a

-- slo.Spec.TimeWindow[0].Duration
unfoldable pub first_window : List TimeWindowSpec → Result String
first_window [] = panic
first_window (w ∷ windows) = ok w.duration

-- reflect.DeepEqual(rule, emptyRule) of a pointer and a struct: values of two types are not deeply
-- equal.
abbrev pub equals_empty_rule : Option Rule → Rule → Bool
equals_empty_rule pointer rule = false

abbrev label_text : String → String → String → String → String
label_text sli slo service window =
    "sli_name=\""
    <> (sli
        <> ("\", slo_name=\""
            <> (slo <> ("\", service=\"" <> (service <> ("\", window=\"" <> (window <> "\"")))))))

-- for k, v := range m.Labels { labelString += ... }
unfoldable pub extend : String → Map String → String
extend text [] = text
extend text ((k, v) ∷ m) = extend (text <> (", " <> (k <> ("=\"" <> (v <> "\""))))) m

own_labels : MetricLabel → String → Result (String × Map String)
own_labels m window = do
  slo ← deref m.slo
  first ← first_window slo.spec.time_window
  sli ← deref m.sli
  ok (
    label_text sli.meta.name slo.meta.name slo.spec.service
        (if window == "" then first else window),
    m.labels,
  )

rule_labels_too : MetricLabel → Option Rule → Result (String × Map String)
rule_labels_too m pointer = do rule ← deref pointer; ok ("", insert_all m.labels rule.labels)

-- NewMetricLabelCompiler
unfoldable pub new_metric_label_compiler : MetricLabel → Option Rule → String → Result String
unfolding own_labels rule_labels_too
new_metric_label_compiler m rule window = do
  r ←
      if not (equals_empty_rule rule empty_rule)
      then own_labels m window
      else rule_labels_too m rule
  ok (extend r.0 r.1)

-- NewMetricLabelGenerator
unfoldable pub new_metric_label_generator : MetricLabel → Result (Map String)
new_metric_label_generator m = do
  slo ← deref m.slo
  first ← first_window slo.spec.time_window
  sli ← deref m.sli
  ok (
      ("sli_name", sli.meta.name)
      ∷ ("slo_name", slo.meta.name)
      ∷ ("service", slo.spec.service)
      ∷ ("window", if m.time_window == "" then first else m.time_window)
      ∷ [])

-- The loop of ParseTenantAnnotation.
unfoldable pub append_all : List String → List String → List String
append_all acc [] = acc
append_all acc (tenant ∷ tenants) = append_all (acc ++ tenant ∷ []) tenants

abbrev is_empty : List String → Bool
is_empty [] = Bool.true
is_empty (a ∷ rest) = false

-- ParseTenantAnnotation, of DataSourceConfig's pointer
unfoldable pub parse_tenant_annotation : Option Datasource → Result (List String)
unfolding append_all
parse_tenant_annotation pointer = do
  ds ← deref pointer
  let tenants = ds.spec.connection_details.source_tenants
  ok (if not (is_empty tenants) then append_all [] tenants else [])
