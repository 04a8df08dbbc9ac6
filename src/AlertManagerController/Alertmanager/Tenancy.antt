-- ===== src/AlertManagerController/Alertmanager/Tenancy.antt =====
-- What the secrets and Mimir have to do for the reconciler of AlertManagerConfigs to stay in its
-- namespaces.
use osko.Prelude.{String, Option}
use osko.Api.Meta.{NamespacedName}
use osko.Api.Osko.{AlertManagerConfig}
use osko.Cluster.{Reply}
use osko.Cluster.Steps.{call}
use osko.Cluster.Tenancy.{Keeps, Answered, Any, Tenancy}
use osko.AlertManagerController.Alertmanager.{
  AlertOperator, State, on_server, kept_client, keep_client, write_amc_status, update_amc_status,
}

-- A reconciler of AlertManagerConfigs whose server keeps `P` in what is done in the namespaces
-- `Here`, in the reading of any secret, and in every call of Mimir.
pub record AlertTenancy (A : AlertOperator) (P : A.operator.client.State → Type 0)
    (Here : String → Type 0) : Type 1 where
  pub kubernetes : Tenancy A.operator P Here
  pub get_secret :
      (key : NamespacedName) (s : A.operator.client.State) → P s → P (A.get_secret key s).1
  pub create_config :
      (handle : A.Handle) (text : String) (s : A.operator.client.State)
      → P s
      → P (A.create_config handle text s).1
  pub delete_config :
      (handle : A.Handle) (s : A.operator.client.State) → P s → P (A.delete_config handle s).1

module _ {A : AlertOperator} {P : A.operator.client.State → Type 0} {Here : String → Type 0}
    (T : AlertTenancy A P Here) where
  -- The same, of the server beside the client that is kept.
  abbrev pub OnServer : State A → Type 0
  OnServer m = P m.server

  abbrev pub AmcIn : AlertManagerConfig → Type 0
  AmcIn amc = Here amc.meta.namespace

  pub on_server-Keeps :
      {B : Type 0} {Q : B → Type 0}
      (f : A.operator.client.State → Reply B × A.operator.client.State)
      → ((s : A.operator.client.State) → P s → P (f s).1 × Answered Q (f s).0)
      → Keeps {D = A.operator.runtime.Duration} OnServer (Answered Q) (call (on_server f))
  on_server-Keeps f kept = record { at = λ w p. kept w.cluster.server p }

  pub kept_client-Keeps : Keeps OnServer Any (kept_client A)
  kept_client-Keeps = record { at = λ w p. (p, tt) }

  pub keep_client-Keeps : (client : Option A.Handle) → Keeps OnServer Any (keep_client A client)
  keep_client-Keeps client = record { at = λ w p. (p, tt) }

  pub write_amc_status-Keeps :
      (amc : AlertManagerConfig)
      → AmcIn amc
      → Keeps OnServer (Answered AmcIn) (write_amc_status A amc)
  write_amc_status-Keeps amc here =
      on_server-Keeps _ λ s p. T.kubernetes.alert_manager_configs.status_updated amc s here p

  pub update_amc_status-Keeps :
      (amc : AlertManagerConfig) (condition_type status message : String)
      → AmcIn amc
      → Keeps OnServer (Answered AmcIn) (update_amc_status A amc condition_type status message)
  unfolding update_amc_status
  update_amc_status-Keeps amc condition_type status message here = record {
    at = λ w p. T.kubernetes.alert_manager_configs.status_updated _ w.cluster.server here p;
  }
