-- ===== src/PrometheusRuleController/Fetch.antt =====
-- The first steps of the reconciler of PrometheusRules: the PrometheusRule, the SLO that owns it,
-- and the SLI.
pub mod Tenancy
use osko.Prelude.{
  String, Bool, true, false, not, ◌&&◌, Option, some, none, List, [], ◌∷◌, ◌==◌, if◌then◌else◌,
}
use osko.Map.{Map, lookup}
use osko.Errors.{ApiError, api}
use osko.Api.Meta.{OwnerReference, NamespacedName, empty_meta}
use osko.Api.OpenSlo.{Slo, Sli, Indicator, RatioMetricSpec, MetricSpec, MetricSource, empty_slo}
use osko.Api.Monitoring.{PrometheusRule}
use osko.Cluster.{Reply, found, failed, Operator}
use osko.Cluster.Steps.{pure, ◌>>=◌, ◌>>◌, call, fail, finished, event_unguarded, is_not_found}
use osko.SloController.Fetch.{Act, update_slo_status, slo_event}
use osko.SloController.Indicator.{ratio_eq}
use osko.PrometheusRuleController.Equal.{is_empty_slo}

abbrev empty_metric_source : MetricSource
empty_metric_source = record { metric_source_ref = ""; type = ""; spec = record { query = "" } }

abbrev empty_metric : MetricSpec
empty_metric = record { metric_source = empty_metric_source }

-- openslov1.RatioMetricSpec{}
abbrev pub empty_ratio_metric : RatioMetricSpec
empty_ratio_metric = record {
  raw = empty_metric;
  raw_type = "";
  good = empty_metric;
  bad = empty_metric;
  total = empty_metric;
  counter = false;
}

-- &openslov1.SLI{}
abbrev pub empty_sli : Sli
empty_sli = record {
  meta = empty_meta;
  spec = record {
    description = "";
    threshold_metric = record { metric_source = empty_metric_source };
    ratio_metric = empty_ratio_metric;
  };
}

-- The SLI of an SLO that holds its indicator.
unfoldable pub copied_sli : Indicator → Sli
copied_sli ind = record empty_sli {
  meta = record empty_meta { name = ind.metadata.name };
  spec = record empty_sli.spec {
    description = ind.spec.description;
    ratio_metric =
        if ratio_eq ind.spec.ratio_metric empty_ratio_metric
        then empty_ratio_metric
        else ind.spec.ratio_metric;
  };
}

-- value, found := labels["osko.dev/manage"]; !found || value != "true"
abbrev pub unmanaged_value : Option String → Bool
unmanaged_value none = true
unmanaged_value (some value) = not (value == "true")

unfoldable pub unmanaged : Map String → Bool
unmanaged labels = unmanaged_value (lookup "osko.dev/manage" labels)

module _ (O : Operator) where
  rule_fetched : Reply PrometheusRule → Act O (Option ApiError × PrometheusRule)
  rule_fetched (found rule) = pure (none, rule)
  rule_fetched (failed e) = if is_not_found e then finished else fail (api e)

  -- The PrometheusRule, with the value that `err` is left with.
  unfoldable pub fetch_rule : NamespacedName → Act O (Option ApiError × PrometheusRule)
  unfolding rule_fetched
  fetch_rule req = do r ← call (O.client.prometheus_rules.get req); rule_fetched r

  owner_fetched : Reply Slo → Act O Slo
  owner_fetched (found slo) = pure slo
  owner_fetched (failed e) = fail (api e)

  unfoldable pub fetch_slo : NamespacedName → Act O Slo
  unfolding owner_fetched
  fetch_slo key = do r ← call (O.client.slos.get key); owner_fetched r

  -- The SLO of the first owner that is one, or the zero SLO.
  unfoldable pub fetch_owner : NamespacedName → List OwnerReference → Act O Slo
  fetch_owner req [] = pure empty_slo
  fetch_owner req (ref ∷ refs) =
      let later = fetch_owner req refs in
      if ref.kind == "SLO"
      then fetch_slo (record { name = ref.name; namespace = req.namespace })
      else later

  unfoldable pub check_managed : PrometheusRule → Slo → Act O (Unit {0})
  check_managed rule slo =
      if is_empty_slo slo && unmanaged rule.meta.labels then finished else pure tt

  -- The error is that of UpdateStatus, which has overwritten the one of Get.
  status_of_missing : Reply Slo → Act O (Option ApiError × Sli)
  status_of_missing (found slo) = finished
  status_of_missing (failed e) = fail (api e)

  -- Any error is taken for a missing SLI: the result of `apierrors.IsNotFound(err)` is not used.
  sli_fetched : Slo → Reply Sli → Act O (Option ApiError × Sli)
  unfolding status_of_missing
  sli_fetched slo (found sli) = pure (none, sli)
  sli_fetched slo (failed e) = do
    r ← update_slo_status O slo "Ready" "False" "SLI Object not found"
    status_of_missing r

  status_of_none : Slo → Reply Slo → Act O (Option ApiError × Sli)
  status_of_none slo (found kept) = finished
  status_of_none slo (failed e) = do
    event_unguarded O.has_recorder
        (slo_event slo "Warning" "SLIObjectNotFound" "SLI Object not found")
    finished

  -- The SLI, with the value that `err` is left with: an inline SLI leaves the old one.
  unfoldable pub find_sli :
      Option ApiError → Slo → Option String → Option Indicator → Act O (Option ApiError × Sli)
  unfolding sli_fetched status_of_none
  find_sli err slo (some ref) ind = do
    r ← call (O.client.slis.get (record { name = ref; namespace = slo.meta.namespace }))
    sli_fetched slo r
  find_sli err slo none (some ind) = pure (err, copied_sli ind)
  find_sli err slo none none = do
    r ← update_slo_status O slo "Ready" "False" "SLI Object not found"
    status_of_none slo r

  unfoldable pub fetch_sli : Option ApiError → Slo → Act O (Option ApiError × Sli)
  fetch_sli err slo = find_sli err slo slo.spec.indicator_ref slo.spec.indicator
