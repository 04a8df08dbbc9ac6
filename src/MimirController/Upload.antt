-- ===== src/MimirController/Upload.antt =====
-- A MimirRule that lives: its groups are uploaded, the finalizers are kept, and its specification
-- is brought in step with the PrometheusRule.
pub mod Tenancy
use osko.Prelude.{Option, some, none, ◌⊎◌, inl, inr, List, [], ◌∷◌, ◌==◌, if◌then◌else◌}
use osko.Errors.{ApiError, GoError, api}
use osko.Api.Meta.{OwnerReference, NamespacedName}
use osko.Api.Monitoring.{PrometheusRule}
use osko.Api.OpenSlo.{Slo, empty_slo}
use osko.Api.Osko.{MimirRule, MimirRuleGroup}
use osko.Cluster.{Reply, found, failed, returned, requeue_after}
use osko.Cluster.Steps.{◌>>=◌, ◌>>◌, pure, call, finish, fail_transient, event_unguarded, tested}
use osko.Mimir.{new_mimir_rule}
use osko.MimirController.Ruler.{MimirOperator, create_mimir_rule_group_api}
use osko.Cluster.Retry.{retry, or_transient, add_finalizer, replace}
use osko.MimirController.Retry.{Act, set_ready, ruler_calls}
use osko.MimirController.Equal.{spec_equal}
use osko.MimirController.Deletion.{
  mimir_rule_finalizer, prometheus_rule_finalizer, mimir_with_meta, rule_with_meta, rule_key,
}

module _ (M : MimirOperator) where
  unfoldable pub failed_step : {A : Type 0} → GoError ⊎ A → Act M A
  failed_step (inr a) = pure a
  failed_step (inl e) = fail_transient (some e)

  unfoldable pub owner_reply : Reply Slo → Act M Slo
  owner_reply (found slo) = pure slo
  owner_reply (failed e) = fail_transient (some (api e))

  unfoldable pub owner_step : NamespacedName → OwnerReference → Slo → Act M Slo
  unfolding owner_reply
  owner_step req ref slo =
      if ref.kind == "SLO"
      then (do
        r ←
            call
              (M.operator.client.slos.get (record { name = ref.name; namespace = req.namespace }))
        owner_reply r)
      else pure slo

  -- The last owner that is an SLO.
  unfoldable pub find_slo : NamespacedName → List OwnerReference → Slo → Act M Slo
  unfolding owner_step
  find_slo req [] slo = pure slo
  find_slo req (ref ∷ refs) slo = do next ← owner_step req ref slo; find_slo req refs next

  unfoldable pub create_groups : M.Handle → List MimirRuleGroup → Act M (Unit {0})
  create_groups handle groups = ruler_calls M (create_mimir_rule_group_api M handle) groups

  unfoldable pub hold_mimir_rule : NamespacedName → MimirRule → Act M MimirRule
  hold_mimir_rule req mimir =
      if M.operator.util.contains_finalizer mimir.meta mimir_rule_finalizer then pure mimir else (do
        r ←
            retry M.operator
              (add_finalizer M.operator.client.mimir_rules (λ m. m.meta) mimir_with_meta
                M.operator.util.contains_finalizer M.operator.util.add_finalizer
                mimir_rule_finalizer req)
              mimir
        or_transient r)

  unfoldable pub hold_prometheus_rule : PrometheusRule → Act M PrometheusRule
  hold_prometheus_rule rule =
      if M.operator.util.contains_finalizer rule.meta prometheus_rule_finalizer
      then pure rule
      else (do
        r ←
            retry M.operator
              (add_finalizer M.operator.client.prometheus_rules (λ m. m.meta) rule_with_meta
                M.operator.util.contains_finalizer M.operator.util.add_finalizer
                prometheus_rule_finalizer (rule_key rule))
              rule
        or_transient r)

  -- Get, and Update of the new MimirRule under the version of the one found. It works on both.
  unfoldable pub replace_mimir_rule :
      NamespacedName
      → MimirRule × MimirRule
      → M.operator.client.State
      → (Option ApiError × (MimirRule × MimirRule)) × M.operator.client.State
  replace_mimir_rule = replace M.operator.client.mimir_rules (λ m. m.meta) mimir_with_meta

  -- The ready status is set back where the replacement failed, and the error is that of the
  -- replacement.
  replaced_reply : Option ApiError × (MimirRule × MimirRule) → Act M MimirRule
  replaced_reply (none, (mimir, new)) = pure mimir
  replaced_reply (some e, (mimir, new)) = do
    call (
        M.operator.client.mimir_rules.update_status
          (record mimir { status = record mimir.status { ready = "False" } }))
    fail_transient (some (api e))

  -- return ctrl.Result{RequeueAfter: r.RequeueAfterPeriod}, nil
  abbrev pub again_later : Act M (Unit {0})
  again_later = finish (returned (requeue_after M.requeue_after_period))

  unfoldable pub bring_in_step : NamespacedName → MimirRule → MimirRule → Act M (Unit {0})
  unfolding replaced_reply
  bring_in_step req mimir new = do
    r ← retry M.operator (replace_mimir_rule req) (mimir, new)
    kept ← replaced_reply r
    s ← retry M.operator (set_ready M.operator.client.mimir_rules req) kept
    ready ← or_transient s
    event_unguarded M.operator.has_recorder (record {
      regarding = ready.meta.name;
      kind = "Normal";
      reason = "MimirRuleUpdated";
      message = "MimirRule updated successfully";
    })
    again_later

  unfoldable pub compare_mimir_rule : NamespacedName → MimirRule → MimirRule → Act M (Unit {0})
  compare_mimir_rule req mimir new =
      if spec_equal mimir.spec new.spec then again_later else bring_in_step req mimir new

  -- From the finalizers on.
  unfoldable pub hold_and_compare :
      NamespacedName → PrometheusRule → MimirRule → Slo → Act M (Unit {0})
  hold_and_compare req rule mimir slo = do
    held ← hold_mimir_rule req mimir
    held_rule ← hold_prometheus_rule rule
    n ← tested (new_mimir_rule M.operator.runtime slo held_rule held.spec.connection_details)
    new ← failed_step n
    compare_mimir_rule req held new

  -- From the owner on.
  unfoldable pub upload :
      M.Handle
      → NamespacedName
      → PrometheusRule
      → MimirRule
      → List MimirRuleGroup
      → Act M (Unit {0})
  upload handle req rule mimir groups = do
    slo ← find_slo req mimir.meta.owner_references empty_slo
    create_groups handle groups
    hold_and_compare req rule mimir slo
