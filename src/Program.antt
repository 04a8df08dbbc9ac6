-- ===== src/Program.antt =====
-- cmd/main.go: the reconcilers as the program makes them, of one manager, and the requests that
-- they serve.
pub mod Tenancy
pub mod Start
pub mod Returns
pub mod Watches
use osko.Prelude.{String, Bool, true, false, Option, some, none, ◌⊎◌, List, [], ◌∷◌}
use osko.Runtime.{Runtime}
use osko.Config.{Config, new_config}
use osko.Errors.{ApiError, GoError, Result}
use osko.Api.Meta.{NamespacedName}
use osko.Cluster.{Reply, Client, Controllerutil, Operator}
use osko.Cluster.Steps.{World, Flow, Step}
use osko.SloController.{reconcile}
use osko.SliController.{
  reconcile_sli, reconcile_alert_policy, reconcile_alert_condition,
  reconcile_alert_notification_target,
}
use osko.PrometheusRuleController.{reconcile_prometheus_rule}
use osko.DatasourceController.{DatasourceOperator, reconcile_datasource}
use osko.MimirController.Ruler.{MimirOperator, RulerGroup}
use osko.MimirController.{reconcile_mimir_rule}
use osko.AlertManagerController.Alertmanager.{AlertOperator, Secret, Memory}
use osko.AlertManagerController.{reconcile_amc}

-- What the manager gives to every reconciler, and the libraries that they call. The clients of
-- Mimir and of the Prometheus API move the same state as the server.
pub record Parts : Type 1 where
  pub runtime : Runtime
  pub client : Client
  pub util : Controllerutil
  pub retry_on_conflict :
      {A : Type 0}
      → (A → client.State → (Option ApiError × A) × client.State)
      → A
      → client.State
      → (Option ApiError × A) × client.State
  pub get_secret : NamespacedName → client.State → Reply Secret × client.State
  pub Handle : Type 0
  pub new_client : String → String → Result Handle
  pub create_rule_group :
      Handle → String → RulerGroup runtime.Duration → client.State → Option GoError × client.State
  pub delete_rule_group : Handle → String → String → client.State → Option GoError × client.State
  pub create_config : Handle → String → client.State → Option GoError × client.State
  pub delete_config : Handle → client.State → Option GoError × client.State
  pub parse_model_duration : String → GoError ⊎ runtime.Duration
  pub ApiHandle : Type 0
  pub new_api_client : String → String → GoError ⊎ ApiHandle
  pub query : ApiHandle → String → client.State → (GoError ⊎ String) × client.State

-- A reconciler as `main` writes it: its name in the log, the name of its event recorder, if it has
-- one, and the period of the MimirRules.
pub record Controller (D : Type 0) : Type 0 where
  pub name : String
  pub recorder : Option String
  pub requeue_after_period : Option D

module _ {D : Type 0} where
  abbrev plain : String → Option String → Controller D
  plain name recorder = record { name = name; recorder = recorder; requeue_after_period = none }

  abbrev pub datasource_controller : Controller D
  datasource_controller = plain "Datasource" (some "datasource-controller")

  abbrev pub slo_controller : Controller D
  slo_controller = plain "SLO" (some "slo-controller")

  abbrev pub sli_controller : Controller D
  sli_controller = plain "SLI" none

  abbrev pub prometheus_rule_controller : Controller D
  prometheus_rule_controller = plain "PrometheusRule" none

  abbrev pub alert_policy_controller : Controller D
  alert_policy_controller = plain "AlertPolicy" none

  abbrev pub alert_condition_controller : Controller D
  alert_condition_controller = plain "AlertCondition" none

  abbrev pub alert_notification_target_controller : Controller D
  alert_notification_target_controller = plain "AlertNotificationTarget" none

  abbrev pub mimir_rule_controller : D → Controller D
  mimir_rule_controller period = record {
    name = "MimirRule";
    recorder = some "mimirrule-controller";
    requeue_after_period = some period;
  }

  abbrev pub alert_manager_config_controller : Controller D
  alert_manager_config_controller =
      plain "AlertManagerConfig" (some "alertmanagerconfig-controller")

abbrev has_recorder : {D : Type 0} → Controller D → Bool
has_recorder c = elim c.recorder [ some name ↦ true | none ↦ false ]

module _ (G : Parts) where
  abbrev pub config : Config G.runtime
  config = new_config G.runtime

  abbrev pub operator : Controller G.runtime.Duration → Operator
  operator c = record {
    runtime = G.runtime;
    config = config;
    client = G.client;
    util = G.util;
    retry_on_conflict = G.retry_on_conflict;
    has_recorder = has_recorder c;
  }

  abbrev pub datasource_operator : DatasourceOperator
  datasource_operator = record {
    operator = operator datasource_controller;
    Handle = G.ApiHandle;
    new_api_client = G.new_api_client;
    query = G.query;
  }

  abbrev pub mimir_operator : MimirOperator
  mimir_operator = record {
    operator = operator (mimir_rule_controller config.mimir_rule_requeue_period);
    Handle = G.Handle;
    new_client = G.new_client;
    create_rule_group = G.create_rule_group;
    delete_rule_group = G.delete_rule_group;
    parse_model_duration = G.parse_model_duration;
    requeue_after_period = config.mimir_rule_requeue_period;
  }

  abbrev pub alert_operator : AlertOperator
  alert_operator = record {
    operator = operator alert_manager_config_controller;
    Handle = G.Handle;
    get_secret = G.get_secret;
    new_client = G.new_client;
    create_config = G.create_config;
    delete_config = G.delete_config;
  }

  -- The server with all that it stands for, and the client that the reconciler of
  -- AlertManagerConfigs keeps.
  abbrev pub State : Type 0
  State = Memory G.client.State G.Handle

  -- A step that leaves the kept client alone.
  abbrev pub beside :
      {A : Type 0} → Step G.runtime.Duration G.client.State A → Step G.runtime.Duration State A
  beside m w =
      let (r, v) = m (record { cluster = w.cluster.server; events = w.events }) in
      (r, record { cluster = record w.cluster { server = v.cluster }; events = v.events })

-- A request that the manager hands to one of the reconcilers.
pub data Request : Type 0 where
  for_datasource for_slo for_sli for_prometheus_rule for_alert_policy for_alert_condition :
      NamespacedName → Request
  for_alert_notification_target for_mimir_rule for_alert_manager_config : NamespacedName → Request

abbrev pub request_key : Request → NamespacedName
request_key (for_datasource k) = k
request_key (for_slo k) = k
request_key (for_sli k) = k
request_key (for_prometheus_rule k) = k
request_key (for_alert_policy k) = k
request_key (for_alert_condition k) = k
request_key (for_alert_notification_target k) = k
request_key (for_mimir_rule k) = k
request_key (for_alert_manager_config k) = k

module _ (G : Parts) where
  unfoldable pub serve : Request → Step G.runtime.Duration (State G) (Unit {0})
  serve (for_datasource k) = beside G (reconcile_datasource (datasource_operator G) k)
  serve (for_slo k) = beside G (reconcile (operator G slo_controller) k)
  serve (for_sli k) = beside G (reconcile_sli (operator G sli_controller) k)
  serve (for_prometheus_rule k) =
      beside G (reconcile_prometheus_rule (operator G prometheus_rule_controller) k)
  serve (for_alert_policy k) =
      beside G (reconcile_alert_policy (operator G alert_policy_controller) k)
  serve (for_alert_condition k) =
      beside G (reconcile_alert_condition (operator G alert_condition_controller) k)
  serve (for_alert_notification_target k) =
      beside G
        (reconcile_alert_notification_target (operator G alert_notification_target_controller) k)
  serve (for_mimir_rule k) = beside G (reconcile_mimir_rule (mimir_operator G) k)
  serve (for_alert_manager_config k) = reconcile_amc (alert_operator G) k

  -- The requests of the reconcilers, in the order in which they are served. What others do between
  -- two calls of a client is a part of these calls.
  pub serve_all : List Request → World (State G) → World (State G)
  serve_all [] w = w
  serve_all (r ∷ requests) w = serve_all requests (serve r w).1
