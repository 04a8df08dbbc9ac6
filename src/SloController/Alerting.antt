-- ===== src/SloController/Alerting.antt =====
-- Magic alerting: the AlertManagerConfig of an SLO.
pub mod Tenancy
use osko.Prelude.{String, ◌<>◌, some, none, ◌⊎◌, inl, inr, [], ◌∷◌, ◌==◌, if◌then◌else◌}
use osko.Map.{get}
use osko.Errors.{GoError, api, Result, ok}
use osko.Api.Meta.{ObjectMeta, empty_meta}
use osko.Api.OpenSlo.{Slo}
use osko.Api.Osko.{Datasource, AlertManagerConfig}
use osko.Cluster.{Reply, found, failed, Operator}
use osko.Cluster.Steps.{pure, ◌>>=◌, ◌>>◌, call, fail_transient, event, tested, is_not_found}
use osko.SloController.Fetch.{Act, update_slo_status, slo_event, datasource_ref}

-- `<slo>-alerting`
abbrev pub alerting_name : Slo → String
alerting_name slo = slo.meta.name <> "-alerting"

unfoldable pub create_alert_manager_config : Slo → Datasource → Result AlertManagerConfig
create_alert_manager_config slo ds = ok (record {
  meta = record empty_meta {
    name = alerting_name slo;
    namespace = slo.meta.namespace;
    labels =
        ("app.kubernetes.io/name", "osko")
        ∷ ("app.kubernetes.io/managed-by", "osko-controller")
        ∷ ("osko.dev/slo", slo.meta.name)
        ∷ [];
    annotations = (datasource_ref, get datasource_ref slo.meta.annotations) ∷ [];
  };
  spec = record {
    secret_ref = record {
      name = slo.meta.name <> "-alerting-config";
      namespace = slo.meta.namespace;
    };
  };
  status = record { conditions = []; last_evaluation_time = 0; ready = "" };
})

module _ (O : Operator) where
  config_not_built : Reply Slo → Act O (Unit {0})
  config_not_built (failed e) = fail_transient (some (api e))
  config_not_built (found slo) = fail_transient none

  owned_config_reply : Slo → Reply AlertManagerConfig → Act O (Unit {0})
  owned_config_reply slo (failed e) = fail_transient (some (api e))
  owned_config_reply slo (found amc) =
      event O.has_recorder (
        slo_event slo "Normal" "AlertManagerConfigCreated"
          "AlertManagerConfig created successfully")

  own_config : Slo → AlertManagerConfig → GoError ⊎ ObjectMeta → Act O (Unit {0})
  unfolding owned_config_reply
  own_config slo amc (inl e) = fail_transient (some e)
  own_config slo amc (inr m) = do
    r ← call (O.client.alert_manager_configs.update (record amc { meta = m }))
    owned_config_reply slo r

  created_config_reply : Slo → Reply AlertManagerConfig → Act O (Unit {0})
  unfolding own_config
  created_config_reply slo (failed e) = do
    event O.has_recorder (
        slo_event slo "Warning" "FailedToCreateAlertManagerConfig"
          "Failed to create AlertManagerConfig")
    fail_transient (some (api e))
  created_config_reply slo (found amc) = do
    m ← tested (O.util.set_owner_reference slo.meta "SLO" amc.meta)
    own_config slo amc m

  built_config : Slo → GoError ⊎ AlertManagerConfig → Act O (Unit {0})
  unfolding config_not_built created_config_reply
  built_config slo (inl e) = do
    r ← update_slo_status O slo "Ready" "False" "Failed to create AlertManagerConfig"
    config_not_built r
  built_config slo (inr amc) = do
    r ← call (O.client.alert_manager_configs.create amc)
    created_config_reply slo r

  config_reply : Slo → Datasource → Reply AlertManagerConfig → Act O (Unit {0})
  unfolding built_config
  config_reply slo ds (found amc) = pure tt
  config_reply slo ds (failed e) =
      if is_not_found e
      then (do b ← tested (create_alert_manager_config slo ds); built_config slo b)
      else fail_transient (some (api e))

  unfoldable pub magic_alerting : Slo → Datasource → Act O (Unit {0})
  unfolding config_reply
  magic_alerting slo ds =
      if get "osko.dev/magicAlerting" slo.meta.annotations == "true"
      then (do
        r ← call (
            O.client.alert_manager_configs.get
              (record { name = alerting_name slo; namespace = slo.meta.namespace }))
        config_reply slo ds r)
      else pure tt
