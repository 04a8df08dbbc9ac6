-- ===== src/MimirController/Laws.antt =====
-- What the reconciler of MimirRules does.
use osko.Prelude.{
  String, ◌≡◌, refl, ◌≢◌, false, Option, some, none, inl, List, [], ◌∷◌, ◌++◌, ◌==◌, arith, sym,
  ◌∙◌, ◌*◌,
}
use osko.Errors.{GoError, transient, second}
use osko.Api.Meta.{NamespacedName}
use osko.Api.Monitoring.{PrometheusRule}
use osko.Api.Osko.{MimirRule, MimirRuleNode, MimirRuleGroup}
use osko.Cluster.{Outcome, ReturnedError, returned, returned_error, done, reconcile}
use osko.Cluster.Steps.{World, stop, ◌>>◌}
use osko.MimirController.Ruler.{
  MimirOperator, ruler_node, ruler_nodes, create_mimir_rule_group_api, delete_mimir_rule_group_api,
}
use osko.MimirController.Retry.{Act, ruler_call, ruler_calls}
use osko.MimirController.Deletion.{delete_groups, release, clean_up}

-- One call after another for the elements of a list, from a state to a state, each without an
-- error.
pub data Served {A S : Type 0} (f : A → S → Option GoError × S) : List A → S → S → Type 0 where
  all_served : {s : S} → Served f [] s s
  served :
      {a : A} {rest : List A} {s t u : S}
      → f a s ≡ (none, t)
      → Served f rest t u
      → Served f (a ∷ rest) s u

module _ (M : MimirOperator) where
  -- The calls have all been served, and the step has followed them.
  abbrev pub Then :
      {A : Type 0}
      → (A → M.operator.client.State → Option GoError × M.operator.client.State)
      → List A
      → Act M (Unit {0})
      → Outcome M.operator.runtime.Duration
      → World M.operator.client.State
      → World M.operator.client.State
      → Type 0
  Then f list k o w w' =
      (s : M.operator.client.State) × Served f list w.cluster s
      × (k (record w { cluster = s }) ≡ (stop o, w'))

  Served-of_reply :
      {A : Type 0} (f : A → M.operator.client.State → Option GoError × M.operator.client.State)
      (a : A) (rest : List A) (k : Act M (Unit {0})) (o : Outcome M.operator.runtime.Duration)
      (w w' : World M.operator.client.State)
      → ((e : ReturnedError) → o ≢ returned_error e)
      → ((t : M.operator.client.State)
          → (ruler_calls M f rest >> k) (record w { cluster = t }) ≡ (stop o, w')
          → Then f rest k o (record w { cluster = t }) w')
      → (p : Option GoError × M.operator.client.State) → f a w.cluster ≡ p
      → (ruler_calls M f (a ∷ rest) >> k) w ≡ (stop o, w')
      → Then f (a ∷ rest) k o w w'
  unfolding ruler_calls ruler_call
  Served-of_reply f a rest k o w w' ended later (none, t) e h =
      let (s, all, after) = later t (sym one_call ∙ h) in (s, served e all, after)
    where
      one_call :
          (ruler_calls M f (a ∷ rest) >> k) w
          ≡ (ruler_calls M f rest >> k) (record w { cluster = t })
      one_call = unfold ruler_calls ruler_call in rw e refl
  Served-of_reply f a rest k o w w' ended later (some g, t) e h =
      absurd (ended (reconcile (transient (some g) (5 * second))) (cc (h, refused)))
    where
      refused : (ruler_calls M f (a ∷ rest) >> k) w ≡ (
        stop (returned_error (reconcile (transient (some g) (5 * second)))),
        record w { cluster = t },
      )
      refused = unfold ruler_calls ruler_call in rw e refl

  pub Served-of_stop :
      {A : Type 0} (f : A → M.operator.client.State → Option GoError × M.operator.client.State)
      (list : List A) (k : Act M (Unit {0})) (o : Outcome M.operator.runtime.Duration)
      (w w' : World M.operator.client.State)
      → ((e : ReturnedError) → o ≢ returned_error e)
      → (ruler_calls M f list >> k) w ≡ (stop o, w')
      → Then f list k o w w'
  unfolding ruler_calls ruler_call
  Served-of_stop f [] k o w w' ended h = (w.cluster, all_served, h)
  Served-of_stop f (a ∷ rest) k o w w' ended h =
      Served-of_reply f a rest k o w w' ended
        (λ t g. Served-of_stop f rest k o (record w { cluster = t }) w' ended g) (f a w.cluster)
        refl h

  -- A clean-up that ends without an error has had Mimir delete every group of the PrometheusRule
  -- from the namespace `osko`, one after another and each without an error, and has taken the
  -- finalizers off after that.
  pub clean_up-Served :
      (handle : M.Handle) (req : NamespacedName) (rule : PrometheusRule) (mimir : MimirRule)
      (groups : List MimirRuleGroup) (w w' : World M.operator.client.State)
      → clean_up M handle req rule mimir groups w ≡ (stop (returned done), w')
      → (s : M.operator.client.State) × Served
          (λ (g : MimirRuleGroup). M.delete_rule_group handle "osko" g.name)
          groups
          w.cluster
          s
        × (release M req rule mimir (record w { cluster = s }) ≡ (stop (returned done), w'))
  unfolding clean_up delete_groups delete_mimir_rule_group_api
  clean_up-Served handle req rule mimir groups w w' h =
      Served-of_stop _ groups (release M req rule mimir) (returned done) w w' (λ e p. cc) h

module _ (M : MimirOperator) (r : MimirRuleNode) (d : String) (e : GoError) where
  refused_nodes :
      (before after : List MimirRuleNode)
      → (r.alert == "") ≡ false
      → r.for_duration ≡ some d
      → M.parse_model_duration d ≡ inl e
      → ruler_nodes M (before ++ r ∷ after) ≡ none
  unfolding ruler_nodes ruler_node
  refused_nodes [] after alerts lasts bad = rw (alerts, lasts, bad) refl
  refused_nodes (b ∷ before) after alerts lasts bad =
      rw (refused_nodes before after alerts lasts bad) (ground arith)

  -- A group with an alert whose duration is refused is not uploaded at all, and no error is
  -- reported.
  pub create_of_bad_duration :
      (handle : M.Handle) (group : MimirRuleGroup) (s : M.operator.client.State)
      (before after : List MimirRuleNode)
      → group.rules ≡ before ++ r ∷ after
      → (r.alert == "") ≡ false
      → r.for_duration ≡ some d
      → M.parse_model_duration d ≡ inl e
      → create_mimir_rule_group_api M handle group s ≡ (none, s)
  unfolding create_mimir_rule_group_api
  create_of_bad_duration handle group s before after split alerts lasts bad =
      rw (split, create_mimir_rule_group_api, refused_nodes before after alerts lasts bad) refl
