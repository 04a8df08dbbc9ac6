-- ===== src/SloController/Rule/Tenancy.antt =====
-- The PrometheusRule of an SLO is written in the SLO's namespace.
use osko.Prelude.{arith, String, List, ◌≡◌, refl, Option, none, ◌⊎◌, inl, inr}
use osko.Errors.{api, GoError, Result, ok, err, panic}
use osko.Api.Meta.{ObjectMeta}
use osko.Api.OpenSlo.{Slo, Sli}
use osko.Api.Monitoring.{PrometheusRule, RuleGroup}
use osko.Cluster.{Reply, found, failed, Operator}
use osko.Cluster.Steps.{is_not_found, tested}
use osko.Cluster.Tenancy.{
  Keeps, Keeps-pure, Keeps-finish, Keeps-bind, Keeps-if, Keeps-event, Keeps-event_unguarded,
  Keeps-then, Keeps-tested, get-Keeps, create-Keeps, update-Keeps, update_status-Keeps, Answered,
  Fits, moved, Tenancy,
}
use osko.Rules.Setup.{setup_rules}
use osko.Rules.Build.{create_prometheus_rule, rule_set}
use osko.SloController.Fetch.Tenancy.{In, update_slo_status-Keeps}
use osko.SloController.Rule.{
  after_status, rule_status_reply, slo_ready_reply, owned_rule_reply, own_rule, created_rule_reply,
  built_rule, rule_reply, get_prometheus_rule, empty_prometheus_rule,
}
use osko.Runtime.{Runtime}
use osko.Config.{Config}

-- The PrometheusRule has the metadata of its SLO.
pub namespace-create_prometheus_rule :
    (R : Runtime) (cfg : Config R) (slo : Slo) (sli : Sli) (rule : PrometheusRule)
    → create_prometheus_rule R cfg slo sli ≡ ok rule
    → rule.meta.namespace ≡ slo.meta.namespace
namespace-create_prometheus_rule R cfg slo sli rule made =
    by_groups (setup_rules R cfg (rule_set R cfg slo sli)) refl
  where
    by_groups :
        (r : Result (List RuleGroup))
        → setup_rules R cfg (rule_set R cfg slo sli) ≡ r
        → rule.meta.namespace ≡ slo.meta.namespace
    by_groups (ok gs) e = unfold create_prometheus_rule in ground (arith, made, e)
    by_groups (err g) e = absurd (unfold create_prometheus_rule in cc (e, made))
    by_groups panic e = absurd (unfold create_prometheus_rule in cc (e, made))

module _ {O : Operator} {P : O.client.State → Type 0} {Here : String → Type 0}
    (T : Tenancy O P Here) where
  abbrev pub RuleIn : PrometheusRule → Type 0
  RuleIn rule = Here rule.meta.namespace

  after_status-Keeps : (e : Option GoError) (r : Reply Slo) → Keeps P RuleIn (after_status O e r)
  unfolding after_status
  after_status-Keeps e (found slo) = Keeps-finish _
  after_status-Keeps e (failed f) = Keeps-finish _

  rule_status_reply-Keeps :
      (slo : Slo) (e : GoError) (r : Reply PrometheusRule)
      → In T slo
      → Keeps P RuleIn (rule_status_reply O slo e r)
  unfolding rule_status_reply
  rule_status_reply-Keeps slo e (found rule) here = Keeps-finish _
  rule_status_reply-Keeps slo e (failed f) here =
      Keeps-bind (update_slo_status-Keeps T slo _ _ _ here) λ r h. after_status-Keeps none r

  slo_ready_reply-Keeps : (r : Reply Slo) → Keeps P RuleIn (slo_ready_reply O r)
  unfolding slo_ready_reply
  slo_ready_reply-Keeps (found slo) = Keeps-finish _
  slo_ready_reply-Keeps (failed f) = Keeps-finish _

  owned_rule_reply-Keeps :
      (slo : Slo) (r : Reply PrometheusRule) → In T slo → Keeps P RuleIn (owned_rule_reply O slo r)
  unfolding owned_rule_reply
  owned_rule_reply-Keeps slo (failed e) here = Keeps-finish _
  owned_rule_reply-Keeps slo (found rule) here =
      Keeps-bind (update_status-Keeps T.slos _ here) λ r h. slo_ready_reply-Keeps r

  own_rule-Keeps :
      (slo : Slo) (rule : PrometheusRule) (m : GoError ⊎ ObjectMeta)
      → In T slo
      → Fits (λ n. Here n.namespace) m
      → Keeps P RuleIn (own_rule O slo rule m)
  unfolding own_rule
  own_rule-Keeps slo rule (inl e) here h = Keeps-finish _
  own_rule-Keeps slo rule (inr m) here fits =
      Keeps-bind (update-Keeps T.prometheus_rules (record rule { meta = m }) fits)
        λ r h. owned_rule_reply-Keeps slo r here

  created_rule_reply-Keeps :
      (slo : Slo) (sent : PrometheusRule) (r : Reply PrometheusRule)
      → In T slo
      → RuleIn sent
      → Answered RuleIn r
      → Keeps P RuleIn (created_rule_reply O slo sent r)
  unfolding created_rule_reply
  created_rule_reply-Keeps slo sent (failed e) here same h =
      Keeps-then (Keeps-event O.has_recorder _) (
        Keeps-bind (update_status-Keeps T.prometheus_rules sent same)
          λ r i. rule_status_reply-Keeps slo (api e) r here)
  created_rule_reply-Keeps slo sent (found rule) here same there =
      Keeps-then (Keeps-event O.has_recorder _) (
        Keeps-bind
          (Keeps-tested (O.util.set_owner_reference slo.meta "SLO" rule.meta)
            λ m e. moved Here (T.set_owner_reference slo.meta rule.meta m "SLO" e) there)
          λ m fits. own_rule-Keeps slo rule m here fits)

  built_rule-Keeps :
      (slo : Slo) (b : GoError ⊎ PrometheusRule)
      → In T slo
      → Fits RuleIn b
      → Keeps P RuleIn (built_rule O slo b)
  unfolding built_rule
  built_rule-Keeps slo (inl e) here h =
      Keeps-then (Keeps-event_unguarded O.has_recorder _)
        (Keeps-bind (update_slo_status-Keeps T slo _ _ _ here) λ r i. after_status-Keeps _ r)
  built_rule-Keeps slo (inr rule) here same =
      Keeps-bind (create-Keeps T.prometheus_rules rule same)
        λ r h. created_rule_reply-Keeps slo rule r here same h

  -- The PrometheusRule that is made of an SLO.
  pub made_rule-Keeps :
      (slo : Slo) (sli : Sli)
      → In T slo
      → Keeps {D = O.runtime.Duration} P
          (Fits RuleIn)
          (tested (create_prometheus_rule O.runtime O.config slo sli))
  made_rule-Keeps slo sli here =
      Keeps-tested (create_prometheus_rule O.runtime O.config slo sli) λ rule made.
        moved Here (namespace-create_prometheus_rule O.runtime O.config slo sli rule made) here

  rule_reply-Keeps :
      (slo : Slo) (sli : Sli) (r : Reply PrometheusRule)
      → In T slo
      → Answered RuleIn r
      → Keeps P RuleIn (rule_reply O slo sli r)
  unfolding rule_reply
  rule_reply-Keeps slo sli (found rule) here there = Keeps-pure rule there
  rule_reply-Keeps slo sli (failed e) here h =
      Keeps-if (is_not_found e)
        (Keeps-bind (made_rule-Keeps slo sli here) λ b fits. built_rule-Keeps slo b here fits)
        (Keeps-pure empty_prometheus_rule T.nowhere)

  pub get_prometheus_rule-Keeps :
      (slo : Slo) (sli : Sli) → In T slo → Keeps P RuleIn (get_prometheus_rule O slo sli)
  unfolding get_prometheus_rule
  get_prometheus_rule-Keeps slo sli here =
      Keeps-bind (get-Keeps T.prometheus_rules _ here) λ r h. rule_reply-Keeps slo sli r here h
