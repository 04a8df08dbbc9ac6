-- ===== src/MimirController/Upload/Tenancy.antt =====
-- The upload of a MimirRule writes in the namespaces of the request and of the PrometheusRule.
use osko.Prelude.{String, refl, Option, some, none, ◌⊎◌, inl, inr, List, [], ◌∷◌, ◌==◌}
use osko.Errors.{ApiError, GoError}
use osko.Api.Meta.{OwnerReference, NamespacedName}
use osko.Api.Monitoring.{PrometheusRule}
use osko.Api.OpenSlo.{Slo, empty_slo}
use osko.Api.Osko.{MimirRule, MimirRuleGroup}
use osko.Cluster.{Reply, found, failed}
use osko.Cluster.Tenancy.{
  Keeps, Keeps-pure, Keeps-finish, Keeps-bind, Keeps-then, Keeps-if, Keeps-tested,
  Keeps-event_unguarded, get-Keeps, update_status-Keeps, Fits, Any, moved,
}
use osko.Cluster.Retry.Tenancy.{
  retry-Keeps, or_transient-Keeps, add_finalizer-Keeps, write_status-Keeps, replace-Keeps,
}
use osko.Mimir.{new_mimir_rule}
use osko.SloController.Mimir.Tenancy.{namespace-new_mimir_rule}
use osko.MimirController.Ruler.{MimirOperator, create_mimir_rule_group_api}
use osko.MimirController.Equal.{spec_equal}
use osko.MimirController.Retry.{set_ready}
use osko.MimirController.Retry.Tenancy.{MimirTenancy, create_group-Keeps, ruler_calls-Keeps}
use osko.MimirController.Deletion.{
  mimir_rule_finalizer, prometheus_rule_finalizer, mimir_with_meta, rule_with_meta, rule_key,
}
use osko.MimirController.Deletion.Tenancy.{MimirIn, RuleIn}
use osko.MimirController.Upload.{
  failed_step, owner_reply, owner_step, find_slo, create_groups, hold_mimir_rule,
  hold_prometheus_rule, replace_mimir_rule, replaced_reply, bring_in_step, compare_mimir_rule,
  hold_and_compare, upload,
}

module _ {M : MimirOperator} {P : M.operator.client.State → Type 0} {Here : String → Type 0}
    (T : MimirTenancy M P Here) where
  pub failed_step-Keeps :
      {A : Type 0} {Q : A → Type 0} (r : GoError ⊎ A) → Fits Q r → Keeps P Q (failed_step M r)
  unfolding failed_step
  failed_step-Keeps (inl e) q = Keeps-finish _
  failed_step-Keeps (inr a) q = Keeps-pure a q

  owner_reply-Keeps : (r : Reply Slo) → Keeps P Any (owner_reply M r)
  unfolding owner_reply
  owner_reply-Keeps (found slo) = Keeps-pure slo tt
  owner_reply-Keeps (failed e) = Keeps-finish _

  find_slo-Keeps :
      (req : NamespacedName) (refs : List OwnerReference) (slo : Slo)
      → Here req.namespace
      → Keeps P Any (find_slo M req refs slo)
  unfolding find_slo owner_step
  find_slo-Keeps req [] slo asked = Keeps-pure slo tt
  find_slo-Keeps req (ref ∷ refs) slo asked =
      Keeps-bind {Q = Any}
        (Keeps-if (ref.kind == "SLO")
          (Keeps-bind
            (get-Keeps T.kubernetes.slos (record { name = ref.name; namespace = req.namespace })
              asked)
            λ r h. owner_reply-Keeps r)
          (Keeps-pure slo tt))
        λ next h. find_slo-Keeps req refs next asked

  hold_mimir_rule-Keeps :
      (req : NamespacedName) (mimir : MimirRule)
      → Here req.namespace
      → MimirIn T mimir
      → Keeps P (MimirIn T) (hold_mimir_rule M req mimir)
  unfolding hold_mimir_rule
  hold_mimir_rule-Keeps req mimir asked here =
      Keeps-if (M.operator.util.contains_finalizer mimir.meta mimir_rule_finalizer)
        (Keeps-pure mimir here)
        (Keeps-bind
          (retry-Keeps T.kubernetes (MimirIn T) _ mimir
            (add_finalizer-Keeps T.kubernetes.mimir_rules mimir_with_meta (λ a m. refl)
              M.operator.util.contains_finalizer M.operator.util.add_finalizer mimir_rule_finalizer
              req T.kubernetes.add_finalizer asked)
            here)
          λ r h. or_transient-Keeps r h)

  hold_prometheus_rule-Keeps :
      (rule : PrometheusRule) → RuleIn T rule → Keeps P (RuleIn T) (hold_prometheus_rule M rule)
  unfolding hold_prometheus_rule
  hold_prometheus_rule-Keeps rule here =
      Keeps-if (M.operator.util.contains_finalizer rule.meta prometheus_rule_finalizer)
        (Keeps-pure rule here)
        (Keeps-bind
          (retry-Keeps T.kubernetes (RuleIn T) _ rule
            (add_finalizer-Keeps T.kubernetes.prometheus_rules rule_with_meta (λ a m. refl)
              M.operator.util.contains_finalizer M.operator.util.add_finalizer
              prometheus_rule_finalizer (rule_key rule) T.kubernetes.add_finalizer here)
            here)
          λ r h. or_transient-Keeps r h)

  replaced_reply-Keeps :
      (r : Option ApiError × (MimirRule × MimirRule))
      → MimirIn T r.1.0
      → Keeps P (MimirIn T) (replaced_reply M r)
  unfolding replaced_reply
  replaced_reply-Keeps (none, (mimir, new)) here = Keeps-pure mimir here
  replaced_reply-Keeps (some e, (mimir, new)) here =
      Keeps-then (update_status-Keeps T.kubernetes.mimir_rules _ here) (Keeps-finish _)

  bring_in_step-Keeps :
      (req : NamespacedName) (mimir new : MimirRule)
      → Here req.namespace
      → MimirIn T mimir
      → MimirIn T new
      → Keeps P Any (bring_in_step M req mimir new)
  unfolding bring_in_step replace_mimir_rule set_ready
  bring_in_step-Keeps req mimir new asked here fresh =
      Keeps-bind
        (retry-Keeps T.kubernetes _ (replace_mimir_rule M req) (mimir, new)
          (replace-Keeps T.kubernetes.mimir_rules mimir_with_meta (λ a m. refl) req asked)
          (here, fresh))
        λ r both. Keeps-bind (replaced_reply-Keeps r both.0) λ kept h.
          Keeps-bind
            (retry-Keeps T.kubernetes (MimirIn T) _ kept
              (write_status-Keeps T.kubernetes.mimir_rules _ req (λ m k. k) asked) h)
            λ s k. Keeps-bind (or_transient-Keeps {Q = MimirIn T} s k) λ ready _.
              Keeps-then (Keeps-event_unguarded M.operator.has_recorder _) (Keeps-finish _)

  module _ (handle : M.Handle) (req : NamespacedName) (rule : PrometheusRule) (mimir : MimirRule)
      (asked : Here req.namespace) (there : RuleIn T rule) (here : MimirIn T mimir) where
    hold_and_compare-Keeps : (slo : Slo) → Keeps P Any (hold_and_compare M req rule mimir slo)
    unfolding hold_and_compare compare_mimir_rule
    hold_and_compare-Keeps slo = Keeps-bind (hold_mimir_rule-Keeps req mimir asked here) λ held h.
        Keeps-bind (hold_prometheus_rule-Keeps rule there) λ held_rule k.
          Keeps-bind
            (Keeps-tested
              (new_mimir_rule M.operator.runtime slo held_rule held.spec.connection_details)
              λ m made.
                moved Here (namespace-new_mimir_rule M.operator.runtime slo held_rule _ m made) k)
            λ n fits. Keeps-bind (failed_step-Keeps {Q = MimirIn T} n fits) λ new fresh.
              Keeps-if (spec_equal held.spec new.spec) (Keeps-finish _)
                (bring_in_step-Keeps req held new asked h fresh)

    pub upload-Keeps :
        (groups : List MimirRuleGroup) → Keeps P Any (upload M handle req rule mimir groups)
    unfolding upload create_groups
    upload-Keeps groups =
        Keeps-bind (find_slo-Keeps req mimir.meta.owner_references empty_slo asked) λ slo h.
          Keeps-then
            (ruler_calls-Keeps M (create_mimir_rule_group_api M handle)
              (λ g s p. create_group-Keeps T handle g s p) groups)
            (hold_and_compare-Keeps slo)
