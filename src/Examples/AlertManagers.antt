-- ===== src/Examples/AlertManagers.antt =====
-- A server with an AlertManagerConfig, and a Mimir that notes what it is told.
use osko.Prelude.{String, ◌<>◌, ◌≡◌, refl, ap, true, none, some, List, [], ◌∷◌}
use osko.Map.{lookup}
use osko.Errors.{ok}
use osko.Api.Meta.{NamespacedName, empty_meta}
use osko.Api.Osko.{AlertManagerConfig}
use osko.Cluster.{found, Access, returned, done}
use osko.Cluster.Steps.{World, stop}
use osko.AlertManagerController.Alertmanager.{
  AlertOperator, Secret, State, new_mimir_client, amc_event, update_amc_status,
}
use osko.AlertManagerController.Deletion.{alertmanager_config_finalizer, delete_amc}
use osko.AlertManagerController.Configure.{with_secret_namespace, configure, send_config}
use osko.AlertManagerController.{reconcile_amc}
use osko.AlertManagerController.Laws.{reconcile_amc_sends, delete_amc-of_configured}
use osko.Examples.Servers.{absent, helpers}
use osko.Examples.Slos.{sample_datasource}
use osko.Examples.Samples.{sample_runtime, sample_config}

abbrev held_amc : AlertManagerConfig
held_amc = record {
  meta = record empty_meta {
    name = "alerts";
    namespace = "shop";
    finalizers = alertmanager_config_finalizer ∷ [];
  };
  spec = record { secret_ref = record { name = "alertmanager"; namespace = "" } };
  status = record { conditions = []; last_evaluation_time = 0; ready = "" };
}

-- Another tenant's.
abbrev other_amc : AlertManagerConfig
other_amc = record held_amc {
  meta = record held_amc.meta { name = "others"; deletion_timestamp = some 9 };
}

abbrev holding : {A : Type 0} → A → Access (List String) A
holding a = record {
  get = λ key s. (found a, s);
  create = λ b s. (found b, s);
  update = λ b s. (found b, s);
  update_status = λ b s. (found b, s);
}

abbrev amc_secret : Secret
amc_secret = record {
  meta = record empty_meta { name = "alertmanager"; namespace = "shop" };
  data_entries = ("alertmanager.yaml", "route:") ∷ [];
}

abbrev amc_operator : AlertOperator
amc_operator = record {
  operator = record {
    runtime = sample_runtime;
    config = sample_config;
    client = record {
      State = List String;
      now = λ s. 7;
      slos = absent (List String) _;
      slis = absent (List String) _;
      datasources = holding sample_datasource;
      prometheus_rules = absent (List String) _;
      mimir_rules = absent (List String) _;
      alert_manager_configs = holding held_amc;
    };
    util = helpers;
    retry_on_conflict = λ f. f;
    has_recorder = true;
  };
  Handle = String;
  get_secret = λ key s. (found amc_secret, s);
  new_client = λ address tenant. ok tenant;
  create_config = λ handle text log. (none, ("create for " <> handle) ∷ log);
  delete_config = λ handle log. (none, ("delete for " <> handle) ∷ log);
}

abbrev mimir : List String → World (State amc_operator)
mimir log = record { cluster = record { server = log; mimir_client = none }; events = [] }

abbrev amc_request : NamespacedName
amc_request = record { name = "alerts"; namespace = "shop" }

abbrev named_amc : AlertManagerConfig
named_amc = record held_amc {
  spec = record { secret_ref = record { name = "alertmanager"; namespace = "shop" } };
}

reconcile_amc_sends_example : reconcile_amc amc_operator amc_request (mimir []) ≡ (
  stop (returned done),
  record {
    cluster = record { server = "create for t" ∷ []; mimir_client = some "t" };
    events =
        amc_event named_amc "Normal" "AlertManagerConfigCreated"
          "AlertManagerConfig created successfully"
        ∷ [];
  },
)
unfolding new_mimir_client lookup with_secret_namespace
reconcile_amc_sends_example =
    reconcile_amc_sends amc_operator amc_request (mimir []) held_amc sample_datasource amc_secret
      "route:" "t" [] [] [] ("create for t" ∷ []) refl refl refl refl refl refl refl refl refl

delete_amc-of_configured_example :
    (delete_amc amc_operator other_amc
      (configure amc_operator held_amc sample_datasource "route:" (mimir [])).1).1.cluster
    ≡ record { server = "delete for t" ∷ "create for t" ∷ []; mimir_client = some "t" }
unfolding new_mimir_client configure send_config update_amc_status
delete_amc-of_configured_example =
    ap (λ (p : _ × World (State amc_operator)). p.1.cluster)
      (delete_amc-of_configured amc_operator held_amc other_amc sample_datasource "route:"
        (mimir []) "t" 9 refl refl refl)
