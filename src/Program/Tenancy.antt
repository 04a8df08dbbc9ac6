-- ===== src/Program/Tenancy.antt =====
-- The whole program stays in the namespaces of its requests.
use osko.Prelude.{String, List, [], ◌∷◌, All}
use osko.Api.Meta.{NamespacedName}
use osko.Cluster.Steps.{World, Step}
use osko.Cluster.Tenancy.{Keeps, Tenancy, Any}
use osko.SloController.Tenancy.{reconcile-Keeps}
use osko.SliController.Tenancy.{
  reconcile_sli-Keeps, reconcile_alert_policy-Keeps, reconcile_alert_condition-Keeps,
  reconcile_alert_notification_target-Keeps,
}
use osko.PrometheusRuleController.Tenancy.{reconcile_prometheus_rule-Keeps}
use osko.DatasourceController.Tenancy.{DatasourceTenancy, reconcile_datasource-Keeps}
use osko.MimirController.Ruler.{RulerGroup}
use osko.MimirController.Retry.Tenancy.{MimirTenancy}
use osko.MimirController.Tenancy.{reconcile_mimir_rule-Keeps}
use osko.AlertManagerController.Alertmanager.Tenancy.{AlertTenancy}
use osko.AlertManagerController.Tenancy.{reconcile_amc-Keeps}
use osko.Program.{
  Parts, Controller, State, operator, slo_controller, sli_controller, prometheus_rule_controller,
  alert_policy_controller, alert_condition_controller, alert_notification_target_controller,
  mimir_rule_controller, alert_manager_config_controller, datasource_controller, config,
  datasource_operator, mimir_operator, alert_operator, beside, Request, for_datasource, for_slo,
  for_sli, for_prometheus_rule, for_alert_policy, for_alert_condition,
  for_alert_notification_target, for_mimir_rule, for_alert_manager_config, request_key, serve,
  serve_all,
}

-- Parts whose server keeps `P` in what is done in the namespaces `Here`, in the reading of a secret,
-- and in the calls of Mimir and of the Prometheus API.
pub record PartsTenancy (G : Parts) (P : G.client.State → Type 0) (Here : String → Type 0)
    : Type 1 where
  pub kubernetes : (c : Controller G.runtime.Duration) → Tenancy (operator G c) P Here
  pub get_secret : (key : NamespacedName) (s : G.client.State) → P s → P (G.get_secret key s).1
  pub create_rule_group :
      (handle : G.Handle) (namespace : String) (group : RulerGroup G.runtime.Duration)
      (s : G.client.State)
      → P s
      → P (G.create_rule_group handle namespace group s).1
  pub delete_rule_group :
      (handle : G.Handle) (namespace name : String) (s : G.client.State)
      → P s
      → P (G.delete_rule_group handle namespace name s).1
  pub create_config :
      (handle : G.Handle) (text : String) (s : G.client.State)
      → P s
      → P (G.create_config handle text s).1
  pub delete_config :
      (handle : G.Handle) (s : G.client.State) → P s → P (G.delete_config handle s).1
  pub query :
      (handle : G.ApiHandle) (text : String) (s : G.client.State)
      → P s
      → P (G.query handle text s).1

module _ {G : Parts} {P : G.client.State → Type 0} {Here : String → Type 0}
    (T : PartsTenancy G P Here) where
  abbrev OnServer : State G → Type 0
  OnServer m = P m.server

  beside-Keeps :
      (m : Step G.runtime.Duration G.client.State (Unit {0}))
      → Keeps P Any m
      → Keeps OnServer Any (beside G m)
  beside-Keeps m kept = record {
    at = λ w p. kept.at (record { cluster = w.cluster.server; events = w.events }) p;
  }

  mimir : MimirTenancy (mimir_operator G) P Here
  mimir = record {
    kubernetes = T.kubernetes (mimir_rule_controller (config G).mimir_rule_requeue_period);
    create_rule_group = T.create_rule_group;
    delete_rule_group = T.delete_rule_group;
  }

  alertmanager : AlertTenancy (alert_operator G) P Here
  alertmanager = record {
    kubernetes = T.kubernetes alert_manager_config_controller;
    get_secret = T.get_secret;
    create_config = T.create_config;
    delete_config = T.delete_config;
  }

  datasource : DatasourceTenancy (datasource_operator G) P Here
  datasource = record { kubernetes = T.kubernetes datasource_controller; query = T.query }

  serve-Keeps : (r : Request) → Here (request_key r).namespace → Keeps OnServer Any (serve G r)
  unfolding serve
  serve-Keeps (for_datasource k) here =
      beside-Keeps _ (reconcile_datasource-Keeps datasource k here)
  serve-Keeps (for_slo k) here =
      beside-Keeps _ (reconcile-Keeps (T.kubernetes slo_controller) k here)
  serve-Keeps (for_sli k) here =
      beside-Keeps _ (reconcile_sli-Keeps (T.kubernetes sli_controller) k here)
  serve-Keeps (for_prometheus_rule k) here =
      beside-Keeps _
        (reconcile_prometheus_rule-Keeps (T.kubernetes prometheus_rule_controller) k here)
  serve-Keeps (for_alert_policy k) here =
      beside-Keeps _ (reconcile_alert_policy-Keeps (operator G alert_policy_controller) k)
  serve-Keeps (for_alert_condition k) here =
      beside-Keeps _ (reconcile_alert_condition-Keeps (operator G alert_condition_controller) k)
  serve-Keeps (for_alert_notification_target k) here = beside-Keeps _ (
      reconcile_alert_notification_target-Keeps (operator G alert_notification_target_controller) k)
  serve-Keeps (for_mimir_rule k) here = beside-Keeps _ (reconcile_mimir_rule-Keeps mimir k here)
  serve-Keeps (for_alert_manager_config k) here = reconcile_amc-Keeps alertmanager k here

  -- Where all that is done in some namespaces keeps a property of the server, as do the reading of
  -- secrets and the calls of Mimir and of the Prometheus API: it is kept by the whole program,
  -- whatever requests for these namespaces it serves, in whatever order.
  pub serve_all-Keeps :
      (requests : List Request) (w : World (State G))
      → All (λ r. Here (request_key r).namespace) requests
      → P w.cluster.server
      → P (serve_all G requests w).cluster.server
  unfolding serve_all
  serve_all-Keeps [] w here p = p
  serve_all-Keeps (r ∷ requests) w (here, later) p =
      serve_all-Keeps requests (serve G r w).1 later ((serve-Keeps r here).at w p).0
