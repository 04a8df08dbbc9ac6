-- ===== src/AlertManagerController/Alertmanager.antt =====
-- What the reconciler of AlertManagerConfigs is given: an operator, the secrets and Mimir's
-- alertmanager, and the client that it keeps from one call to the next.
pub mod Tenancy
use osko.Prelude.{String, Option}
use osko.Map.{Map}
use osko.Errors.{GoError, Result}
use osko.Api.Meta.{ObjectMeta, NamespacedName}
use osko.Api.Osko.{AlertManagerConfig, ConnectionDetails}
use osko.Cluster.{Reply, Operator, Event}
use osko.Cluster.Steps.{Step, next, call}
use osko.Status.{update_condition, new_condition}

-- corev1.Secret, with its data as texts
pub record Secret : Type 0 where
  pub meta : ObjectMeta
  pub data_entries : Map String

pub record AlertOperator : Type 1 where
  pub operator : Operator
  pub Handle : Type 0
  -- Get of a secret
  pub get_secret : NamespacedName → operator.client.State → Reply Secret × operator.client.State
  -- mimirclient.New, of an address and a tenant
  pub new_client : String → String → Result Handle
  -- CreateAlertmanagerConfig and DeleteAlermanagerConfig of a client
  pub create_config :
      Handle → String → operator.client.State → Option GoError × operator.client.State
  pub delete_config : Handle → operator.client.State → Option GoError × operator.client.State

-- The server with Mimir, and the reconciler's field MimirClient.
pub record Memory (S H : Type 0) : Type 0 where
  pub server : S
  pub mimir_client : Option H

-- A call that leaves the field as it is.
abbrev pub on_server : {S H A : Type 0} → (S → A × S) → Memory S H → A × Memory S H
on_server f m = let (r, s) = f m.server in (r, record m { server = s })

abbrev pub amc_event : AlertManagerConfig → String → String → String → Event
amc_event amc kind reason message = record {
  regarding = amc.meta.name;
  kind = kind;
  reason = reason;
  message = message;
}

module _ (A : AlertOperator) where
  abbrev pub State : Type 0
  State = Memory A.operator.client.State A.Handle

  abbrev pub Act : Type 0 → Type 0
  Act = Step A.operator.runtime.Duration State

  -- NewMimirClient of mimirtool_helper.go
  unfoldable pub new_mimir_client : ConnectionDetails → Result A.Handle
  new_mimir_client details = A.new_client details.address details.target_tenant

  -- r.MimirClient
  abbrev pub kept_client : Act (Option A.Handle)
  kept_client w = (next w.cluster.mimir_client, w)

  -- r.MimirClient = client
  abbrev pub keep_client : Option A.Handle → Act (Unit {0})
  keep_client client w =
      (next tt, record w { cluster = record w.cluster { mimir_client = client } })

  -- Status().Update
  abbrev pub write_amc_status : AlertManagerConfig → Act (Reply AlertManagerConfig)
  write_amc_status amc =
      call (on_server (A.operator.client.alert_manager_configs.update_status amc))

  -- utils.UpdateStatus on an AlertManagerConfig
  unfoldable pub update_amc_status :
      AlertManagerConfig → String → String → String → Act (Reply AlertManagerConfig)
  update_amc_status amc condition_type status message w =
      let now = A.operator.client.now w.cluster.server in
      write_amc_status
        (record amc {
          status = record amc.status {
            conditions =
                update_condition now amc.status.conditions
                  (new_condition now condition_type status message);
            ready = status;
          };
        })
        w
