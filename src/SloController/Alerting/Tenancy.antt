-- ===== src/SloController/Alerting/Tenancy.antt =====
-- The AlertManagerConfig of an SLO is written in the SLO's namespace.
use osko.Prelude.{String, ◌≡◌, ◌⊎◌, inl, inr, arith, ◌==◌}
use osko.Map.{get}
use osko.Errors.{GoError, ok}
use osko.Api.Meta.{ObjectMeta}
use osko.Api.OpenSlo.{Slo}
use osko.Api.Osko.{Datasource, AlertManagerConfig}
use osko.Cluster.{Reply, found, failed, Operator}
use osko.Cluster.Steps.{is_not_found}
use osko.Cluster.Tenancy.{
  Keeps, Keeps-pure, Keeps-finish, Keeps-bind, Keeps-if, Keeps-event, Keeps-then, Keeps-tested,
  get-Keeps, create-Keeps, update-Keeps, Answered, Fits, moved, Tenancy, Any,
}
use osko.SloController.Fetch.Tenancy.{In, update_slo_status-Keeps}
use osko.SloController.Alerting.{
  config_not_built, owned_config_reply, own_config, created_config_reply, built_config,
  config_reply, magic_alerting, create_alert_manager_config,
}

module _ {O : Operator} {P : O.client.State → Type 0} {Here : String → Type 0}
    (T : Tenancy O P Here) where
  abbrev ConfigIn : AlertManagerConfig → Type 0
  ConfigIn amc = Here amc.meta.namespace

  config_not_built-Keeps : (r : Reply Slo) → Keeps P Any (config_not_built O r)
  unfolding config_not_built
  config_not_built-Keeps (found slo) = Keeps-finish _
  config_not_built-Keeps (failed e) = Keeps-finish _

  owned_config_reply-Keeps :
      (slo : Slo) (r : Reply AlertManagerConfig) → Keeps P Any (owned_config_reply O slo r)
  unfolding owned_config_reply
  owned_config_reply-Keeps slo (failed e) = Keeps-finish _
  owned_config_reply-Keeps slo (found amc) = Keeps-event O.has_recorder _

  own_config-Keeps :
      (slo : Slo) (amc : AlertManagerConfig) (m : GoError ⊎ ObjectMeta)
      → Fits (λ n. Here n.namespace) m
      → Keeps P Any (own_config O slo amc m)
  unfolding own_config
  own_config-Keeps slo amc (inl e) h = Keeps-finish _
  own_config-Keeps slo amc (inr m) fits =
      Keeps-bind (update-Keeps T.alert_manager_configs (record amc { meta = m }) fits)
        λ r h. owned_config_reply-Keeps slo r

  created_config_reply-Keeps :
      (slo : Slo) (r : Reply AlertManagerConfig)
      → Answered ConfigIn r
      → Keeps P Any (created_config_reply O slo r)
  unfolding created_config_reply
  created_config_reply-Keeps slo (failed e) h =
      Keeps-then (Keeps-event O.has_recorder _) (Keeps-finish _)
  created_config_reply-Keeps slo (found amc) there =
      Keeps-bind
        (Keeps-tested (O.util.set_owner_reference slo.meta "SLO" amc.meta)
          λ m e. moved Here (T.set_owner_reference slo.meta amc.meta m "SLO" e) there)
        λ m fits. own_config-Keeps slo amc m fits

  built_config-Keeps :
      (slo : Slo) (b : GoError ⊎ AlertManagerConfig)
      → In T slo
      → Fits ConfigIn b
      → Keeps P Any (built_config O slo b)
  unfolding built_config
  built_config-Keeps slo (inl e) here h =
      Keeps-bind (update_slo_status-Keeps T slo _ _ _ here) λ r i. config_not_built-Keeps r
  built_config-Keeps slo (inr amc) here fits =
      Keeps-bind (create-Keeps T.alert_manager_configs amc fits)
        λ r h. created_config_reply-Keeps slo r h

  namespace-config :
      (slo : Slo) (ds : Datasource) (amc : AlertManagerConfig)
      → create_alert_manager_config slo ds ≡ ok amc
      → amc.meta.namespace ≡ slo.meta.namespace
  unfolding create_alert_manager_config
  namespace-config slo ds amc made = ground (arith, made)

  config_reply-Keeps :
      (slo : Slo) (ds : Datasource) (r : Reply AlertManagerConfig)
      → In T slo
      → Keeps P Any (config_reply O slo ds r)
  unfolding config_reply
  config_reply-Keeps slo ds (found amc) here = Keeps-pure _ tt
  config_reply-Keeps slo ds (failed e) here =
      Keeps-if (is_not_found e)
        (Keeps-bind
          (Keeps-tested (create_alert_manager_config slo ds)
            λ amc made. moved Here (namespace-config slo ds amc made) here)
          λ b fits. built_config-Keeps slo b here fits)
        (Keeps-finish _)

  pub magic_alerting-Keeps :
      (slo : Slo) (ds : Datasource) → In T slo → Keeps P Any (magic_alerting O slo ds)
  unfolding magic_alerting
  magic_alerting-Keeps slo ds here =
      Keeps-if (get "osko.dev/magicAlerting" slo.meta.annotations == "true")
        (Keeps-bind (get-Keeps T.alert_manager_configs _ here)
          λ r h. config_reply-Keeps slo ds r here)
        (Keeps-pure _ tt)
