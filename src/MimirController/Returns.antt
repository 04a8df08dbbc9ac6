-- ===== src/MimirController/Returns.antt =====
-- Every call of the reconciler of MimirRules returns.
use osko.Prelude.{arith, ◌≡◌, ◌≢◌, true, ℕ, Option, some, none, ◌⊎◌, inl, inr, List, [], ◌∷◌}
use osko.Errors.{ApiError, GoError, panic}
use osko.Api.Meta.{OwnerReference, NamespacedName}
use osko.Api.Monitoring.{PrometheusRule}
use osko.Api.OpenSlo.{Slo, empty_slo}
use osko.Api.Osko.{ConnectionDetails, MimirRule, MimirRuleGroup}
use osko.Cluster.{Reply, found, failed, Operator, Outcome, panicked}
use osko.Cluster.Steps.{World, stop, is_not_found, ◌>>◌}
use osko.Cluster.Retry.{retry, or_transient}
use osko.Cluster.Safety.{
  Any, Never, Calm, Calm-pure, Calm-returned, Calm-error, Calm-bind, Calm-then, Calm-if, Calm-call,
  Calm-tested, returned-Safe,
}
use osko.Mimir.{new_mimir_rule, new_mimir_rule_groups}
use osko.MimirController.Ruler.{MimirOperator, new_mimir_client}
use osko.MimirController.Equal.{spec_equal}
use osko.MimirController.Retry.{ruler_call, ruler_calls}
use osko.MimirController.Deletion.{
  mimir_rule_finalizer, prometheus_rule_finalizer, delete_groups, release_mimir_rule,
  release_prometheus_rule, release, clean_up, handle_deletion,
}
use osko.MimirController.Create.{create_missing_mimir_rule}
use osko.MimirController.Upload.{
  failed_step, owner_step, find_slo, create_groups, hold_mimir_rule, hold_prometheus_rule,
  bring_in_step, compare_mimir_rule, hold_and_compare, upload,
}
use osko.MimirController.{got, get_mimir_prometheus_rule, get_uploaded_rule, reconcile_mimir_rule}

module _ (O : Operator) where
  retry-Calm :
      {A : Type 0} (f : A → O.client.State → (Option ApiError × A) × O.client.State) (a : A)
      → Calm Any (retry O f a)
  unfolding retry
  retry-Calm f a = record { at = λ w. tt }

or_transient-Calm :
    {D S A : Type 0} (r : Option ApiError × A) → Calm {D = D} {S = S} Any (or_transient r)
unfolding or_transient
or_transient-Calm (none, a) = Calm-pure a tt
or_transient-Calm (some e, a) = Calm-error _

-- The making of the groups and of the MimirRule never fails.
new_mimir_rule_groups-ne-panic :
    (M : MimirOperator) (rule : PrometheusRule) (details : ConnectionDetails)
    → new_mimir_rule_groups M.operator.runtime rule details ≢ panic
unfolding new_mimir_rule_groups
new_mimir_rule_groups-ne-panic M rule details h = cc

new_mimir_rule-ne-panic :
    (M : MimirOperator) (slo : Slo) (rule : PrometheusRule) (details : ConnectionDetails)
    → new_mimir_rule M.operator.runtime slo rule details ≢ panic
unfolding new_mimir_rule new_mimir_rule_groups
new_mimir_rule-ne-panic M slo rule details h = cc

module _ (M : MimirOperator) where
  got-Calm : {A : Type 0} (r : Reply A) → Calm Any (got M r)
  unfolding got
  got-Calm (found a) = Calm-pure a tt
  got-Calm (failed e) = Calm-if (is_not_found e) (Calm-returned _) (Calm-error _)

  failed_step-Calm : {A : Type 0} (r : GoError ⊎ A) → Calm Any (failed_step M r)
  unfolding failed_step
  failed_step-Calm (inr a) = Calm-pure a tt
  failed_step-Calm (inl e) = Calm-error _

  ruler_call-Calm :
      (f : M.operator.client.State → Option GoError × M.operator.client.State)
      → Calm Any (ruler_call M f)
  unfolding ruler_call
  ruler_call-Calm f = record { at = λ w. ground arith }

  ruler_calls-Calm :
      {A : Type 0} (f : A → M.operator.client.State → Option GoError × M.operator.client.State)
      (list : List A)
      → Calm Any (ruler_calls M f list)
  unfolding ruler_calls
  ruler_calls-Calm f [] = Calm-pure _ tt
  ruler_calls-Calm f (a ∷ rest) = Calm-then (ruler_call-Calm (f a)) (ruler_calls-Calm f rest)

  release_mimir_rule-Calm :
      (req : NamespacedName) (mimir : MimirRule) → Calm Any (release_mimir_rule M req mimir)
  unfolding release_mimir_rule
  release_mimir_rule-Calm req mimir =
      Calm-if (M.operator.util.contains_finalizer mimir.meta mimir_rule_finalizer)
        (Calm-bind (retry-Calm M.operator _ mimir)
          λ r _. Calm-bind (or_transient-Calm r) λ _ _. Calm-pure _ tt)
        (Calm-pure _ tt)

  release_prometheus_rule-Calm : (rule : PrometheusRule) → Calm Any (release_prometheus_rule M rule)
  unfolding release_prometheus_rule
  release_prometheus_rule-Calm rule =
      Calm-if (M.operator.util.contains_finalizer rule.meta prometheus_rule_finalizer)
        (Calm-bind (retry-Calm M.operator _ rule)
          λ r _. Calm-bind (or_transient-Calm r) λ _ _. Calm-pure _ tt)
        (Calm-pure _ tt)

  clean_up-Calm :
      (handle : M.Handle) (req : NamespacedName) (rule : PrometheusRule) (mimir : MimirRule)
      (groups : List MimirRuleGroup)
      → Calm Any (clean_up M handle req rule mimir groups)
  unfolding clean_up delete_groups release
  clean_up-Calm handle req rule mimir groups = Calm-then (ruler_calls-Calm _ groups) (
      Calm-then (release_mimir_rule-Calm req mimir)
        (Calm-then (release_prometheus_rule-Calm rule) (Calm-returned _)))

  handle_deletion-Calm :
      (handle : M.Handle) (req : NamespacedName) (rule : PrometheusRule) (mimir : MimirRule)
      (groups : List MimirRuleGroup)
      → Calm Any (handle_deletion M handle req rule mimir groups)
  unfolding handle_deletion
  handle_deletion-Calm handle req rule mimir groups = by_time mimir.meta.deletion_timestamp
    where
      by_time :
          (t : Option ℕ)
          → Calm Any (
              handle_deletion M handle req rule
                (record mimir { meta = record mimir.meta { deletion_timestamp = t } })
                groups)
      by_time none = Calm-pure _ tt
      by_time (some t) = clean_up-Calm handle req rule _ groups

  owner_step-Calm :
      (req : NamespacedName) (ref : OwnerReference) (slo : Slo)
      → Calm Any (owner_step M req ref slo)
  unfolding owner_step
  owner_step-Calm req ref slo = record { at = λ w. ground arith }

  find_slo-Calm :
      (req : NamespacedName) (refs : List OwnerReference) (slo : Slo)
      → Calm Any (find_slo M req refs slo)
  unfolding find_slo
  find_slo-Calm req [] slo = Calm-pure slo tt
  find_slo-Calm req (ref ∷ refs) slo =
      Calm-bind (owner_step-Calm req ref slo) λ next _. find_slo-Calm req refs next

  hold_mimir_rule-Calm :
      (req : NamespacedName) (mimir : MimirRule) → Calm Any (hold_mimir_rule M req mimir)
  unfolding hold_mimir_rule
  hold_mimir_rule-Calm req mimir =
      Calm-if (M.operator.util.contains_finalizer mimir.meta mimir_rule_finalizer)
        (Calm-pure mimir tt) (Calm-bind (retry-Calm M.operator _ mimir) λ r _. or_transient-Calm r)

  hold_prometheus_rule-Calm : (rule : PrometheusRule) → Calm Any (hold_prometheus_rule M rule)
  unfolding hold_prometheus_rule
  hold_prometheus_rule-Calm rule =
      Calm-if (M.operator.util.contains_finalizer rule.meta prometheus_rule_finalizer)
        (Calm-pure rule tt) (Calm-bind (retry-Calm M.operator _ rule) λ r _. or_transient-Calm r)

  module _ (recorded : M.operator.has_recorder ≡ true) where
    bring_in_step-Calm :
        (req : NamespacedName) (mimir new : MimirRule) → Calm Never (bring_in_step M req mimir new)
    unfolding bring_in_step retry or_transient
    bring_in_step-Calm req mimir new = record { at = λ w. rw recorded (ground arith) }

    hold_and_compare-Calm :
        (req : NamespacedName) (rule : PrometheusRule) (mimir : MimirRule) (slo : Slo)
        → Calm Never (hold_and_compare M req rule mimir slo)
    unfolding hold_and_compare compare_mimir_rule
    hold_and_compare-Calm req rule mimir slo = Calm-bind (hold_mimir_rule-Calm req mimir) λ held _.
        Calm-bind (hold_prometheus_rule-Calm rule) λ held_rule _.
          Calm-bind
            (Calm-tested
              (new_mimir_rule M.operator.runtime slo held_rule held.spec.connection_details)
              (new_mimir_rule-ne-panic M slo held_rule held.spec.connection_details))
            λ n _. Calm-bind (failed_step-Calm n) λ new _.
              Calm-if (spec_equal held.spec new.spec) (Calm-returned _)
                (bring_in_step-Calm req held new)

    upload-Calm :
        (handle : M.Handle) (req : NamespacedName) (rule : PrometheusRule) (mimir : MimirRule)
        (groups : List MimirRuleGroup)
        → Calm Never (upload M handle req rule mimir groups)
    unfolding upload create_groups
    upload-Calm handle req rule mimir groups =
        Calm-bind (find_slo-Calm req mimir.meta.owner_references empty_slo)
          λ slo _. Calm-then (ruler_calls-Calm _ groups) (hold_and_compare-Calm req rule mimir slo)

    from_groups-Calm :
        (req : NamespacedName) (rule : PrometheusRule) (mimir : MimirRule) (handle : M.Handle)
        (groups : List MimirRuleGroup)
        → Calm Never (
            handle_deletion M handle req rule mimir groups
            >> (create_missing_mimir_rule M req none rule mimir
                >> upload M handle req rule mimir groups))
    unfolding create_missing_mimir_rule
    from_groups-Calm req rule mimir handle groups =
        Calm-then (handle_deletion-Calm handle req rule mimir groups)
          (Calm-then {P = Any} (Calm-pure tt tt) (upload-Calm handle req rule mimir groups))

    reconcile-Calm :
        ((details : ConnectionDetails) → new_mimir_client M details ≢ panic)
        → (req : NamespacedName) → Calm Never (reconcile_mimir_rule M req)
    unfolding reconcile_mimir_rule get_mimir_prometheus_rule get_uploaded_rule
    reconcile-Calm makes req =
        Calm-bind
          (Calm-bind (Calm-call (M.operator.client.prometheus_rules.get req)) λ r _. got-Calm r)
          λ rule _.
            Calm-bind
              (Calm-bind (Calm-call (M.operator.client.mimir_rules.get req)) λ r _. got-Calm r)
              λ mimir _.
                Calm-bind
                  (Calm-tested (new_mimir_client M mimir.spec.connection_details)
                    (makes mimir.spec.connection_details))
                  λ c _. Calm-bind (failed_step-Calm c) λ handle _.
                    Calm-bind
                      (Calm-tested
                        (new_mimir_rule_groups M.operator.runtime rule
                          mimir.spec.connection_details)
                        (new_mimir_rule_groups-ne-panic M rule mimir.spec.connection_details))
                      λ g _.
                        Calm-bind (failed_step-Calm g)
                          λ groups _. from_groups-Calm req rule mimir handle groups

    -- Where the reconciler has a recorder and the making of Mimir's client does not fault: every call
    -- of the reconciler of MimirRules ends with a result or an error, whatever the server and Mimir
    -- answer to each request, and whatever RetryOnConflict does.
    pub reconcile_mimir_rule-returned :
        ((details : ConnectionDetails) → new_mimir_client M details ≢ panic)
        → (req : NamespacedName) (w : World M.operator.client.State)
        → (o : Outcome M.operator.runtime.Duration) × ((reconcile_mimir_rule M req w).0 ≡ stop o)
          × (o ≢ panicked)
    reconcile_mimir_rule-returned makes req w =
        returned-Safe (reconcile_mimir_rule M req w).0 ((reconcile-Calm makes req).at w)
