-- ===== src/Program/Returns.antt =====
-- Which requests of the program always return, and which may fault, as `main` makes the
-- reconcilers.
use osko.Prelude.{String, ◌≡◌, ◌≢◌, refl, true, false, none, List, [], ◌∷◌, ◌==◌}
use osko.Errors.{ApiError, panic}
use osko.Api.Meta.{ObjectMeta, OwnerReference, NamespacedName}
use osko.Api.OpenSlo.{Slo}
use osko.Api.Monitoring.{PrometheusRule}
use osko.Cluster.{found, failed, Outcome, panicked}
use osko.Cluster.Steps.{World, Flow, stop}
use osko.Cluster.Safety.{returned-Safe}
use osko.SloController.Returns.{reconcile-returned}
use osko.SliController.{
  reconcile_alert_policy, reconcile_alert_condition, reconcile_alert_notification_target,
}
use osko.SliController.Returns.{reconcile_sli-Calm}
use osko.DatasourceController.Returns.{reconcile_datasource-returned}
use osko.MimirController.Ruler.{new_mimir_client}
use osko.MimirController.Returns.{reconcile_mimir_rule-returned}
use osko.AlertManagerController.Alertmanager.{new_mimir_client as new_alert_client}
use osko.AlertManagerController.Returns.{reconcile_amc-returned}
use osko.PrometheusRuleController.Equal.{is_empty_slo}
use osko.PrometheusRuleController.Laws.{reconcile_without_recorder, without_sli}
use osko.Program.{
  Parts, State, operator, slo_controller, prometheus_rule_controller, mimir_operator,
  alert_operator, datasource_operator, Request, for_datasource, for_slo, for_sli,
  for_prometheus_rule, for_alert_policy, for_alert_condition, for_alert_notification_target,
  for_mimir_rule, for_alert_manager_config, serve,
}

-- The call ends with a result or an error.
abbrev pub Returns : {D A : Type 0} → Flow D A → Type 0
Returns {D} r = (o : Outcome D) × (r ≡ stop o) × (o ≢ panicked)

-- A request that is not one for a PrometheusRule, the only reconciler that emits events and has no
-- recorder.
abbrev pub IsRecorded : Request → Type 0
IsRecorded (for_prometheus_rule k) = ⊥
IsRecorded _ = Unit

module _ (G : Parts) where
  -- Where SetOwnerReference, the parser of floats and the making of Mimir's client do not fault, and
  -- each SLO that the server answers with has an objective: every request that the program serves
  -- ends with a result or an error, whatever the server, Mimir and the Prometheus API answer, but
  -- for the requests for PrometheusRules.
  pub serve-returned :
      ((a : ObjectMeta) (kind : String) (m : ObjectMeta)
        → G.util.set_owner_reference a kind m ≢ panic)
      → ((s : String) → G.runtime.parse_float s ≢ panic)
      → ((address tenant : String) → G.new_client address tenant ≢ panic)
      → ((key : NamespacedName) (slo : Slo) (s t : G.client.State)
          → G.client.slos.get key s ≡ (found slo, t)
          → slo.spec.objectives ≢ [])
      → (r : Request) (w : World (State G)) → IsRecorded r
      → Returns (serve G r w).0
  unfolding serve new_mimir_client new_alert_client reconcile_alert_policy reconcile_alert_condition
      reconcile_alert_notification_target
  serve-returned owner parses makes objectives (for_datasource k) w h =
      reconcile_datasource-returned (datasource_operator G) refl k _
  serve-returned owner parses makes objectives (for_slo k) w h =
      reconcile-returned (operator G slo_controller) refl owner parses k
        (record { cluster = w.cluster.server; events = w.events })
        (λ slo s got. objectives k slo w.cluster.server s got)
  serve-returned owner parses makes objectives (for_sli k) w h =
      returned-Safe _ ((reconcile_sli-Calm _ k).at _)
  serve-returned owner parses makes objectives (for_prometheus_rule k) w h = absurd h
  serve-returned owner parses makes objectives (for_alert_policy k) w h = (_, refl, λ e. cc)
  serve-returned owner parses makes objectives (for_alert_condition k) w h = (_, refl, λ e. cc)
  serve-returned owner parses makes objectives (for_alert_notification_target k) w h =
      (_, refl, λ e. cc)
  serve-returned owner parses makes objectives (for_mimir_rule k) w h =
      reconcile_mimir_rule-returned (mimir_operator G) refl
        (λ details. makes details.address details.target_tenant) k _
  serve-returned owner parses makes objectives (for_alert_manager_config k) w h =
      reconcile_amc-returned (alert_operator G)
        (λ details. makes details.address details.target_tenant) refl k w

  -- Where the owner of a PrometheusRule is an SLO with neither an SLI nor an indicator, and the
  -- update of that SLO's status fails: the request for the PrometheusRule ends by a fault, as its
  -- reconciler is made without a recorder.
  pub serve-panicked :
      (k : NamespacedName) (w : World (State G)) (rule : PrometheusRule) (owner : OwnerReference)
      (refs : List OwnerReference) (slo : Slo) (e : ApiError) (s t u : G.client.State)
      → G.client.prometheus_rules.get k w.cluster.server ≡ (found rule, s)
      → rule.meta.owner_references ≡ owner ∷ refs
      → (owner.kind == "SLO") ≡ true
      → G.client.slos.get (record { name = owner.name; namespace = k.namespace }) s ≡ (found slo, t)
      → is_empty_slo slo ≡ false
      → slo.spec.indicator_ref ≡ none
      → slo.spec.indicator ≡ none
      → G.client.slos.update_status (without_sli (G.client.now t) slo) t ≡ (failed e, u)
      → (serve G (for_prometheus_rule k) w).0 ≡ stop panicked
  unfolding serve
  serve-panicked k w rule owner refs slo e s t u =
      reconcile_without_recorder (operator G prometheus_rule_controller) k
        (record { cluster = w.cluster.server; events = w.events }) rule owner refs slo e s t u refl
