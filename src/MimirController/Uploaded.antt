-- ===== src/MimirController/Uploaded.antt =====
-- What an upload that ends without an error has done.
use osko.Prelude.{some, none, arith, ◌≡◌, List, [], ◌∷◌}
use osko.Errors.{ok}
use osko.Api.Meta.{NamespacedName}
use osko.Api.Monitoring.{PrometheusRule}
use osko.Api.OpenSlo.{Slo}
use osko.Mimir.{new_mimir_rule, new_mimir_rule_groups}
use osko.Api.Osko.{ConnectionDetails, MimirRule, MimirRuleGroup}
use osko.Cluster.{found, Outcome, ReturnedError, returned_error}
use osko.Cluster.Steps.{World, Flow, next, stop}
use osko.Cluster.Retry.{replace}
use osko.MimirController.Ruler.{RuleNode, ruler_nodes, MimirOperator}
use osko.MimirController.Upload.{hold_and_compare, replace_mimir_rule}

-- What Mimir has been asked for a group: to create it in the namespace `osko`, without an error, or
-- nothing where a duration of the group is refused.
pub data Sent (M : MimirOperator) (handle : M.Handle) (g : MimirRuleGroup)
    (s : M.operator.client.State) : M.operator.client.State → Type 0 where
  refused : ruler_nodes M g.rules ≡ none → Sent M handle g s s
  created :
      {t : M.operator.client.State} (nodes : List (RuleNode M.operator.runtime.Duration))
      → ruler_nodes M g.rules ≡ some nodes
      → M.create_rule_group handle "osko"
          (record { name = g.name; rules = nodes; source_tenants = g.source_tenants })
          s
        ≡ (none, t)
      → Sent M handle g s t

-- The same for groups, one after another.
pub data AllSent (M : MimirOperator) (handle : M.Handle)
    : List MimirRuleGroup → M.operator.client.State → M.operator.client.State → Type 0 where
  none_left : {s : M.operator.client.State} → AllSent M handle [] s s
  sent :
      {g : MimirRuleGroup} {groups : List MimirRuleGroup} {s t u : M.operator.client.State}
      → Sent M handle g s t
      → AllSent M handle groups t u
      → AllSent M handle (g ∷ groups) s u

-- A step that stops does so with an error.
abbrev Errs : {D A : Type 0} → Flow D A → Type 0
Errs (next a) = Unit
Errs (stop o) = (e : ReturnedError) × (o ≡ returned_error e)

module _ (M : MimirOperator) where
  module _ (handle : M.Handle) (req : NamespacedName) (rule : PrometheusRule) (mimir : MimirRule)
      (groups : List MimirRuleGroup) where
    -- What an upload with this outcome has done from the owner on.
    abbrev pub Done :
        Flow M.operator.runtime.Duration Slo
        → Outcome M.operator.runtime.Duration
        → World M.operator.client.State
        → World M.operator.client.State
        → Type 0
    Done r o v w' =
        (slo : Slo) × (t : M.operator.client.State) × (r ≡ next slo)
        × AllSent M handle groups v.cluster t
        × (hold_and_compare M req rule mimir slo (record v { cluster = t }) ≡ (stop o, w'))

module _ (M : MimirOperator) where
  -- The MimirRule that replaces the one in the server, made by NewMimirRule from an SLO and a
  -- PrometheusRule, is written without finalizers, whatever finalizers were there.
  pub replace_without_finalizers :
      (req : NamespacedName) (slo : Slo) (rule : PrometheusRule) (details : ConnectionDetails)
      (old new m : MimirRule) (s s' : M.operator.client.State)
      → new_mimir_rule M.operator.runtime slo rule details ≡ ok new
      → M.operator.client.mimir_rules.get req s ≡ (found m, s')
      → (sent : MimirRule) × (sent.meta.finalizers ≡ [])
        × ((replace_mimir_rule M req (old, new) s).1
            ≡ (M.operator.client.mimir_rules.update sent s').1)
  unfolding replace_mimir_rule replace new_mimir_rule new_mimir_rule_groups
  replace_without_finalizers req slo rule details old new m s s' made got = (
    record new { meta = record new.meta { resource_version = m.meta.resource_version } },
    ground (arith, made),
    ground (arith, made, got),
  )
