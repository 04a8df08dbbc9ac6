-- ===== src/MimirController/Deletion/Tenancy.antt =====
-- The deletion of a MimirRule writes in the namespaces of the request and of the PrometheusRule.
use osko.Prelude.{String, ℕ, Option, some, none, List, refl}
use osko.Api.Meta.{NamespacedName}
use osko.Api.Monitoring.{PrometheusRule}
use osko.Api.Osko.{MimirRule, MimirRuleGroup}
use osko.Cluster.Tenancy.{Keeps, Keeps-pure, Keeps-finish, Keeps-bind, Keeps-then, Keeps-if, Any}
use osko.Cluster.Retry.Tenancy.{retry-Keeps, or_transient-Keeps, remove_finalizer-Keeps}
use osko.MimirController.Ruler.{MimirOperator, delete_mimir_rule_group_api}
use osko.MimirController.Retry.Tenancy.{MimirTenancy, delete_group-Keeps, ruler_calls-Keeps}
use osko.MimirController.Deletion.{
  mimir_rule_finalizer, prometheus_rule_finalizer, mimir_with_meta, rule_with_meta, rule_key,
  delete_groups, release_mimir_rule, release_prometheus_rule, release, clean_up, handle_deletion,
}

module _ {M : MimirOperator} {P : M.operator.client.State → Type 0} {Here : String → Type 0}
    (T : MimirTenancy M P Here) where
  abbrev pub MimirIn : MimirRule → Type 0
  MimirIn m = Here m.meta.namespace

  abbrev pub RuleIn : PrometheusRule → Type 0
  RuleIn r = Here r.meta.namespace

  delete_groups-Keeps :
      (handle : M.Handle) (groups : List MimirRuleGroup)
      → Keeps P Any (delete_groups M handle groups)
  unfolding delete_groups
  delete_groups-Keeps handle groups =
      ruler_calls-Keeps M (λ g. delete_mimir_rule_group_api M handle g.name)
        (λ g s p. delete_group-Keeps T handle g.name s p) groups

  release_mimir_rule-Keeps :
      (req : NamespacedName) (mimir : MimirRule)
      → Here req.namespace
      → MimirIn mimir
      → Keeps P Any (release_mimir_rule M req mimir)
  unfolding release_mimir_rule
  release_mimir_rule-Keeps req mimir asked here =
      Keeps-if (M.operator.util.contains_finalizer mimir.meta mimir_rule_finalizer)
        (Keeps-bind
          (retry-Keeps T.kubernetes MimirIn _ mimir
            (remove_finalizer-Keeps T.kubernetes.mimir_rules mimir_with_meta (λ a m. refl)
              M.operator.util.remove_finalizer mimir_rule_finalizer req
              T.kubernetes.remove_finalizer asked)
            here)
          λ r h. Keeps-bind (or_transient-Keeps {Q = Any} r tt) λ _ _. Keeps-pure _ tt)
        (Keeps-pure _ tt)

  release_prometheus_rule-Keeps :
      (rule : PrometheusRule) → RuleIn rule → Keeps P Any (release_prometheus_rule M rule)
  unfolding release_prometheus_rule
  release_prometheus_rule-Keeps rule here =
      Keeps-if (M.operator.util.contains_finalizer rule.meta prometheus_rule_finalizer)
        (Keeps-bind
          (retry-Keeps T.kubernetes RuleIn _ rule
            (remove_finalizer-Keeps T.kubernetes.prometheus_rules rule_with_meta (λ a m. refl)
              M.operator.util.remove_finalizer prometheus_rule_finalizer (rule_key rule)
              T.kubernetes.remove_finalizer here)
            here)
          λ r h. Keeps-bind (or_transient-Keeps {Q = Any} r tt) λ _ _. Keeps-pure _ tt)
        (Keeps-pure _ tt)

  module _ (handle : M.Handle) (req : NamespacedName) (rule : PrometheusRule)
      (groups : List MimirRuleGroup) (asked : Here req.namespace) (there : RuleIn rule) where
    clean_up-Keeps :
        (mimir : MimirRule) → MimirIn mimir → Keeps P Any (clean_up M handle req rule mimir groups)
    unfolding clean_up release
    clean_up-Keeps mimir here = Keeps-then (delete_groups-Keeps handle groups) (
        Keeps-then (release_mimir_rule-Keeps req mimir asked here)
          (Keeps-then (release_prometheus_rule-Keeps rule there) (Keeps-finish _)))

    pub handle_deletion-Keeps :
        (mimir : MimirRule)
        → MimirIn mimir
        → Keeps P Any (handle_deletion M handle req rule mimir groups)
    unfolding handle_deletion
    handle_deletion-Keeps mimir here = by_time mimir.meta.deletion_timestamp
      where
        by_time :
            (t : Option ℕ)
            → Keeps P Any (
                handle_deletion M handle req rule
                  (record mimir { meta = record mimir.meta { deletion_timestamp = t } })
                  groups)
        by_time none = Keeps-pure _ tt
        by_time (some t) = clean_up-Keeps _ here
