-- ===== src/SloController/Mimir/Tenancy.antt =====
-- The MimirRule of an SLO is written in the namespace of its PrometheusRule.
use osko.Prelude.{String, ◌≡◌, ◌⊎◌, inl, inr, arith}
use osko.Errors.{api, GoError, ok}
use osko.Runtime.{Runtime}
use osko.Api.Meta.{ObjectMeta}
use osko.Api.OpenSlo.{Slo}
use osko.Api.Monitoring.{PrometheusRule}
use osko.Api.Osko.{ConnectionDetails, Datasource, MimirRule}
use osko.Cluster.{Reply, found, failed, Operator}
use osko.Cluster.Steps.{is_not_found}
use osko.Cluster.Tenancy.{
  Keeps, Keeps-pure, Keeps-finish, Keeps-bind, Keeps-if, Keeps-event, Keeps-then, Keeps-tested,
  get-Keeps, create-Keeps, update-Keeps, update_status-Keeps, Answered, Fits, moved, Tenancy, Any,
}
use osko.Mimir.{new_mimir_rule, new_mimir_rule_groups}
use osko.SloController.Fetch.Tenancy.{In, update_slo_status-Keeps}
use osko.SloController.Mimir.{
  not_built, mimir_ready_reply, mimir_slo_reply, owned_mimir_reply, own_mimir, unsaved_status,
  created_mimir_reply, built_mimir, mimir_reply, get_mimir_rule, ready_mimir_rule,
}

-- The MimirRule has the metadata of its PrometheusRule.
pub namespace-new_mimir_rule :
    (R : Runtime) (slo : Slo) (rule : PrometheusRule) (details : ConnectionDetails) (m : MimirRule)
    → new_mimir_rule R slo rule details ≡ ok m
    → m.meta.namespace ≡ rule.meta.namespace
unfolding new_mimir_rule new_mimir_rule_groups
namespace-new_mimir_rule R slo rule details m made = ground (arith, made)

module _ {O : Operator} {P : O.client.State → Type 0} {Here : String → Type 0}
    (T : Tenancy O P Here) where
  abbrev MimirIn : MimirRule → Type 0
  MimirIn rule = Here rule.meta.namespace

  not_built-Keeps : (r : Reply Slo) → Keeps P Any (not_built O r)
  unfolding not_built
  not_built-Keeps (found slo) = Keeps-finish _
  not_built-Keeps (failed e) = Keeps-finish _

  mimir_ready_reply-Keeps : (r : Reply MimirRule) → Keeps P Any (mimir_ready_reply O r)
  unfolding mimir_ready_reply
  mimir_ready_reply-Keeps (found rule) = Keeps-finish _
  mimir_ready_reply-Keeps (failed e) = Keeps-finish _

  mimir_slo_reply-Keeps :
      (rule : MimirRule) (r : Reply Slo) → MimirIn rule → Keeps P Any (mimir_slo_reply O rule r)
  unfolding mimir_slo_reply
  mimir_slo_reply-Keeps rule (failed e) here = Keeps-finish _
  mimir_slo_reply-Keeps rule (found slo) here =
      Keeps-bind (update_status-Keeps T.mimir_rules (ready_mimir_rule rule) here)
        λ r h. mimir_ready_reply-Keeps r

  owned_mimir_reply-Keeps :
      (slo : Slo) (r : Reply MimirRule)
      → In T slo
      → Answered MimirIn r
      → Keeps P Any (owned_mimir_reply O slo r)
  unfolding owned_mimir_reply
  owned_mimir_reply-Keeps slo (failed e) here h = Keeps-finish _
  owned_mimir_reply-Keeps slo (found rule) here there =
      Keeps-bind (update_status-Keeps T.slos _ here) λ r h. mimir_slo_reply-Keeps rule r there

  own_mimir-Keeps :
      (slo : Slo) (rule : MimirRule) (m : GoError ⊎ ObjectMeta)
      → In T slo
      → Fits (λ n. Here n.namespace) m
      → Keeps P Any (own_mimir O slo rule m)
  unfolding own_mimir
  own_mimir-Keeps slo rule (inl e) here h = Keeps-finish _
  own_mimir-Keeps slo rule (inr m) here fits =
      Keeps-bind (update-Keeps T.mimir_rules (record rule { meta = m }) fits)
        λ r h. owned_mimir_reply-Keeps slo r here h

  unsaved_status-Keeps :
      (slo : Slo) (e : GoError) (r : Reply Slo) → In T slo → Keeps P Any (unsaved_status O slo e r)
  unfolding unsaved_status
  unsaved_status-Keeps slo e (found kept) here = Keeps-finish _
  unsaved_status-Keeps slo e (failed f) here =
      Keeps-bind (update_slo_status-Keeps T slo _ _ _ here) λ r h. Keeps-finish _

  created_mimir_reply-Keeps :
      (slo : Slo) (r : Reply MimirRule)
      → In T slo
      → Answered MimirIn r
      → Keeps P Any (created_mimir_reply O slo r)
  unfolding created_mimir_reply
  created_mimir_reply-Keeps slo (failed e) here h = Keeps-then (Keeps-event O.has_recorder _) (
      Keeps-bind (update_status-Keeps T.slos slo here)
        λ r i. unsaved_status-Keeps slo (api e) r here)
  created_mimir_reply-Keeps slo (found rule) here there =
      Keeps-then (Keeps-event O.has_recorder _) (
        Keeps-then (Keeps-event O.has_recorder _) (
          Keeps-bind
            (Keeps-tested (O.util.set_owner_reference slo.meta "SLO" rule.meta)
              λ m e. moved Here (T.set_owner_reference slo.meta rule.meta m "SLO" e) there)
            λ m fits. own_mimir-Keeps slo rule m here fits))

  built_mimir-Keeps :
      (slo : Slo) (b : GoError ⊎ MimirRule)
      → In T slo
      → Fits MimirIn b
      → Keeps P Any (built_mimir O slo b)
  unfolding built_mimir
  built_mimir-Keeps slo (inl e) here h =
      Keeps-bind (update_slo_status-Keeps T slo _ _ _ here) λ r i. not_built-Keeps r
  built_mimir-Keeps slo (inr rule) here fits =
      Keeps-bind (create-Keeps T.mimir_rules rule fits)
        λ r h. created_mimir_reply-Keeps slo r here h

  mimir_reply-Keeps :
      (slo : Slo) (rule : PrometheusRule) (ds : Datasource) (r : Reply MimirRule)
      → In T slo
      → Here rule.meta.namespace
      → Keeps P Any (mimir_reply O slo rule ds r)
  unfolding mimir_reply
  mimir_reply-Keeps slo rule ds (found m) here there = Keeps-pure _ tt
  mimir_reply-Keeps slo rule ds (failed e) here there =
      Keeps-if (is_not_found e)
        (Keeps-bind
          (Keeps-tested (new_mimir_rule O.runtime slo rule ds.spec.connection_details)
            λ m made. moved Here (namespace-new_mimir_rule O.runtime slo rule _ m made) there)
          λ b fits. built_mimir-Keeps slo b here fits)
        (Keeps-pure _ tt)

  pub get_mimir_rule-Keeps :
      (slo : Slo) (rule : PrometheusRule) (ds : Datasource)
      → In T slo
      → Here rule.meta.namespace
      → Keeps P Any (get_mimir_rule O slo rule ds)
  unfolding get_mimir_rule
  get_mimir_rule-Keeps slo rule ds here there =
      Keeps-bind (get-Keeps T.mimir_rules _ here) λ r h. mimir_reply-Keeps slo rule ds r here there
