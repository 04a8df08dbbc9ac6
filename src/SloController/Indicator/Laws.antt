-- ===== src/SloController/Indicator/Laws.antt =====
-- The inline SLI takes over the specification of the SLO's indicator.
use osko.Prelude.{◌≡◌, ◌↔◌, Bool, true, false, arith, eq_iff}
use osko.Api.OpenSlo.{
  Sli, Indicator, MetricSource, MetricSpec, RatioMetricSpec, ThresholdMetricSpec,
}
use osko.SloController.Indicator.{
  metric_source_eq, metric_eq, bool_eq, ratio_eq, threshold_eq, updated_sli,
}

source-eq_iff : (a b : MetricSource) → (metric_source_eq a b ≡ true) ↔ (a ≡ b)
source-eq_iff a b = ground (
  arith,
  eq_iff a.metric_source_ref b.metric_source_ref,
  eq_iff a.type b.type,
  eq_iff a.spec.query b.spec.query,
)

threshold-eq_iff : (a b : ThresholdMetricSpec) → (threshold_eq a b ≡ true) ↔ (a ≡ b)
unfolding threshold_eq
threshold-eq_iff a b = ground (arith, source-eq_iff a.metric_source b.metric_source)

metric-eq_iff : (a b : MetricSpec) → (metric_eq a b ≡ true) ↔ (a ≡ b)
metric-eq_iff a b = ground (arith, source-eq_iff a.metric_source b.metric_source)

bool-eq_iff : (a b : Bool) → (bool_eq a b ≡ true) ↔ (a ≡ b)
bool-eq_iff a b = ground arith

ratio-eq_iff : (a b : RatioMetricSpec) → (ratio_eq a b ≡ true) ↔ (a ≡ b)
unfolding ratio_eq
ratio-eq_iff a b = ground (
  arith,
  eq_iff a.raw_type b.raw_type,
  metric-eq_iff a.raw b.raw,
  metric-eq_iff a.good b.good,
  metric-eq_iff a.bad b.bad,
  metric-eq_iff a.total b.total,
)

-- The SLI that is left has exactly the specification of the indicator, and the rest of what it was;
-- and no write is asked for exactly if it had that specification before.
pub updated_sli-eq :
    (ind : Indicator) (sli : Sli)
    → ((updated_sli ind sli).0 ≡ record sli { spec = ind.spec })
      × (((updated_sli ind sli).1 ≡ false) ↔ (sli.spec ≡ ind.spec))
unfolding updated_sli
updated_sli-eq ind sli = ground (
  arith,
  eq_iff sli.spec.description ind.spec.description,
  ratio-eq_iff sli.spec.ratio_metric ind.spec.ratio_metric,
  threshold-eq_iff sli.spec.threshold_metric ind.spec.threshold_metric,
)
