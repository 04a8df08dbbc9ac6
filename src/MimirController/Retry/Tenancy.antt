-- ===== src/MimirController/Retry/Tenancy.antt =====
-- The calls of Mimir leave the objects of the API server alone.
use osko.Prelude.{◌≡◌, refl, String, Option, some, none, List, [], ◌∷◌}
use osko.Errors.{GoError}
use osko.Api.Osko.{MimirRuleGroup}
use osko.Cluster.Tenancy.{Keeps, Keeps-pure, Keeps-finish, Keeps-then, Any, Tenancy}
use osko.MimirController.Ruler.{
  MimirOperator, RulerGroup, create_mimir_rule_group_api, delete_mimir_rule_group_api, ruler_nodes,
}
use osko.MimirController.Retry.{ruler_reply, ruler_call, ruler_calls}

-- A reconciler of MimirRules whose server keeps `P` in what is done in the namespaces `Here`, and
-- in every call of Mimir.
pub record MimirTenancy (M : MimirOperator) (P : M.operator.client.State → Type 0)
    (Here : String → Type 0) : Type 1 where
  pub kubernetes : Tenancy M.operator P Here
  pub create_rule_group :
      (handle : M.Handle) (namespace : String) (group : RulerGroup M.operator.runtime.Duration)
      (s : M.operator.client.State)
      → P s
      → P (M.create_rule_group handle namespace group s).1
  pub delete_rule_group :
      (handle : M.Handle) (namespace name : String) (s : M.operator.client.State)
      → P s
      → P (M.delete_rule_group handle namespace name s).1

module _ {M : MimirOperator} {P : M.operator.client.State → Type 0} {Here : String → Type 0}
    (T : MimirTenancy M P Here) where
  pub create_group-Keeps :
      (handle : M.Handle) (group : MimirRuleGroup) (s : M.operator.client.State)
      → P s
      → P (create_mimir_rule_group_api M handle group s).1
  create_group-Keeps handle group s p = by_nodes (ruler_nodes M group.rules) refl
    where
      by_nodes :
          (n : Option (List _))
          → ruler_nodes M group.rules ≡ n
          → P (create_mimir_rule_group_api M handle group s).1
      by_nodes none e = unfold create_mimir_rule_group_api in rw (e, create_mimir_rule_group_api) p
      by_nodes (some nodes) e =
          unfold create_mimir_rule_group_api in
          rw (e, create_mimir_rule_group_api) (T.create_rule_group handle _ _ s p)

  pub delete_group-Keeps :
      (handle : M.Handle) (name : String) (s : M.operator.client.State)
      → P s
      → P (delete_mimir_rule_group_api M handle name s).1
  unfolding delete_mimir_rule_group_api
  delete_group-Keeps handle name s p = T.delete_rule_group handle _ name s p

module _ (M : MimirOperator) {P : M.operator.client.State → Type 0} where
  ruler_reply-Keeps : (e : Option GoError) → Keeps P Any (ruler_reply M e)
  unfolding ruler_reply
  ruler_reply-Keeps none = Keeps-pure _ tt
  ruler_reply-Keeps (some e) = Keeps-finish _

  ruler_call-Keeps :
      (f : M.operator.client.State → Option GoError × M.operator.client.State)
      → ((s : M.operator.client.State) → P s → P (f s).1)
      → Keeps P Any (ruler_call M f)
  unfolding ruler_call
  ruler_call-Keeps f kept = record {
    at = λ w p. (ruler_reply-Keeps (f w.cluster).0).at _ (kept w.cluster p);
  }

  pub ruler_calls-Keeps :
      {A : Type 0} (f : A → M.operator.client.State → Option GoError × M.operator.client.State)
      → ((a : A) (s : M.operator.client.State) → P s → P (f a s).1)
      → (list : List A) → Keeps P Any (ruler_calls M f list)
  unfolding ruler_calls
  ruler_calls-Keeps f kept [] = Keeps-pure _ tt
  ruler_calls-Keeps f kept (a ∷ rest) =
      Keeps-then (ruler_call-Keeps (f a) (kept a)) (ruler_calls-Keeps f kept rest)
