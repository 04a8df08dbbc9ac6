-- ===== src/SloController/Indicator.antt =====
-- The indicator of an SLO: the SLI that it names, or the one that it holds inline.
pub mod Laws
pub mod Tenancy
use osko.Prelude.{
  String, ◌<>◌, Bool, true, false, not, ◌&&◌, Option, some, none, ◌⊎◌, inl, inr, ◌==◌,
  if◌then◌else◌,
}
use osko.Errors.{GoError, api, text, wrapped, go_error_text, dependency_not_ready, permanent}
use osko.Api.Meta.{ObjectMeta, empty_meta}
use osko.Api.OpenSlo.{
  Slo, Sli, Indicator, MetricSource, MetricSpec, RatioMetricSpec, ThresholdMetricSpec,
}
use osko.Cluster.{Reply, found, failed, Operator, returned_error, reconcile}
use osko.Cluster.Steps.{
  pure, finish, ◌>>=◌, ◌>>◌, call, fail_transient, event, event_unguarded, tested, is_not_found,
}
use osko.SloController.Fetch.{Act, update_slo_status, slo_event}

-- reflect.DeepEqual on the metric types, which hold texts and a Boolean
abbrev pub metric_source_eq : MetricSource → MetricSource → Bool
metric_source_eq a b =
    a.metric_source_ref == b.metric_source_ref && a.type == b.type && a.spec.query == b.spec.query

abbrev pub metric_eq : MetricSpec → MetricSpec → Bool
metric_eq a b = metric_source_eq a.metric_source b.metric_source

abbrev pub bool_eq : Bool → Bool → Bool
bool_eq a b = if a then b else not b

unfoldable pub ratio_eq : RatioMetricSpec → RatioMetricSpec → Bool
ratio_eq a b =
    metric_eq a.raw b.raw
    && a.raw_type == b.raw_type
    && metric_eq a.good b.good
    && metric_eq a.bad b.bad
    && metric_eq a.total b.total
    && bool_eq a.counter b.counter

unfoldable pub threshold_eq : ThresholdMetricSpec → ThresholdMetricSpec → Bool
threshold_eq a b = metric_source_eq a.metric_source b.metric_source

-- The error of fmt.Errorf("<prefix>: %w", err).
abbrev pub wrap : String → GoError → GoError
wrap prefix e = wrapped (prefix <> (": " <> go_error_text e)) e

-- The name of the inline SLI: its own, or the SLO's with `-sli`.
unfoldable pub inline_sli_name : Slo → Indicator → String
inline_sli_name slo ind =
    if ind.metadata.name == "" then slo.meta.name <> "-sli" else ind.metadata.name

unfoldable pub new_inline_sli : Slo → Indicator → Sli
unfolding inline_sli_name
new_inline_sli slo ind = record {
  meta = record empty_meta { name = inline_sli_name slo ind; namespace = slo.meta.namespace };
  spec = record {
    description = ind.spec.description;
    threshold_metric = ind.spec.threshold_metric;
    ratio_metric = ind.spec.ratio_metric;
  };
}

-- The existing SLI with the specification of the indicator, and whether that changed a field.
unfoldable pub updated_sli : Indicator → Sli → Sli × Bool
updated_sli ind sli =
    let same_description = sli.spec.description == ind.spec.description in
    let same_ratio = ratio_eq sli.spec.ratio_metric ind.spec.ratio_metric in
    let same_threshold = threshold_eq sli.spec.threshold_metric ind.spec.threshold_metric in
    (
      record sli {
        spec = record {
          description = if same_description then sli.spec.description else ind.spec.description;
          ratio_metric = if same_ratio then sli.spec.ratio_metric else ind.spec.ratio_metric;
          threshold_metric =
              if same_threshold then sli.spec.threshold_metric else ind.spec.threshold_metric;
        };
      },
      not (same_description && same_ratio && same_threshold),
    )

module _ (O : Operator) where
  created_sli : Slo → String → Reply Sli → Act O (GoError ⊎ Sli)
  created_sli slo name (failed e) = pure (inl (wrap "failed to create SLI" (api e)))
  created_sli slo name (found sli) = do
    event O.has_recorder (slo_event slo "Normal" "SLICreated" ("Created inline SLI: " <> name))
    pure (inr sli)

  owned_sli : Slo → Sli → GoError ⊎ ObjectMeta → Act O (GoError ⊎ Sli)
  unfolding created_sli
  owned_sli slo sli (inl e) = pure (inl (wrap "failed to set owner reference" e))
  owned_sli slo sli (inr m) = do
    r ← call (O.client.slis.create (record sli { meta = m }))
    created_sli slo sli.meta.name r

  changed_sli : Reply Sli → Act O (GoError ⊎ Sli)
  changed_sli (failed e) = pure (inl (wrap "failed to update SLI" (api e)))
  changed_sli (found sli) = pure (inr sli)

  existing_sli : Sli × Bool → Act O (GoError ⊎ Sli)
  unfolding changed_sli
  existing_sli (sli, false) = pure (inr sli)
  existing_sli (sli, true) = do r ← call (O.client.slis.update sli); changed_sli r

  inline_sli_reply : Slo → Indicator → Reply Sli → Act O (GoError ⊎ Sli)
  unfolding owned_sli existing_sli
  inline_sli_reply slo ind (found sli) = existing_sli (updated_sli ind sli)
  inline_sli_reply slo ind (failed e) =
      if is_not_found e
      then (do
        let sli = new_inline_sli slo ind
        m ← tested (O.util.set_owner_reference slo.meta "SLO" sli.meta)
        owned_sli slo sli m)
      else pure (inl (wrap "failed to get SLI" (api e)))

  unfoldable pub create_or_update_inline_sli : Slo → Indicator → Act O (GoError ⊎ Sli)
  unfolding inline_sli_reply
  create_or_update_inline_sli slo ind = do
    r ← call (
        O.client.slis.get
          (record { name = inline_sli_name slo ind; namespace = slo.meta.namespace }))
    inline_sli_reply slo ind r

  -- After UpdateStatus: its error, or what the code returns in its place. `err` is nil there, since
  -- UpdateStatus has overwritten it.
  not_ready : Reply Slo → Act O Sli
  not_ready (failed e) = fail_transient (some (api e))
  not_ready (found slo) = finish (returned_error (reconcile (dependency_not_ready none)))

  not_created : Reply Slo → Act O Sli
  not_created (failed e) = fail_transient (some (api e))
  not_created (found slo) = fail_transient none

  no_indicator : Slo → Reply Slo → Act O Sli
  no_indicator slo (failed e) = do
    event_unguarded O.has_recorder
        (slo_event slo "Warning" "SLIObjectNotFound" "SLI Object not found")
    fail_transient (some (api e))
  no_indicator slo (found slo') =
      finish (returned_error (reconcile (permanent (some (text "SLO has no SLI reference")))))

  referenced_sli : Slo → Reply Sli → Act O Sli
  unfolding not_ready
  referenced_sli slo (found sli) = pure sli
  referenced_sli slo (failed e) =
      if is_not_found e
      then (do r ← update_slo_status O slo "Ready" "False" "SLI Object not found"; not_ready r)
      else fail_transient (some (api e))

  unfoldable pub inline_sli : Slo → GoError ⊎ Sli → Act O Sli
  unfolding not_created
  inline_sli slo (inr sli) = pure sli
  inline_sli slo (inl e) = do
    r ← update_slo_status O slo "Ready" "False" "Failed to create inline SLI"
    not_created r

  unfoldable pub choose_sli : Slo → Option String → Option Indicator → Act O Sli
  unfolding referenced_sli inline_sli no_indicator
  choose_sli slo (some ref) ind = do
    r ← call (O.client.slis.get (record { name = ref; namespace = slo.meta.namespace }))
    referenced_sli slo r
  choose_sli slo none (some ind) = do r ← create_or_update_inline_sli slo ind; inline_sli slo r
  choose_sli slo none none = do
    r ← update_slo_status O slo "Ready" "False" "SLI Object not found"
    no_indicator slo r

  unfoldable pub get_sli : Slo → Act O Sli
  unfolding choose_sli
  get_sli slo = choose_sli slo slo.spec.indicator_ref slo.spec.indicator
