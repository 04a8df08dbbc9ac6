-- ===== src/Cluster.antt =====
-- The Kubernetes API server as a reconciler meets it: the client's calls, the helpers of
-- controller-runtime, the events, and the steps of a reconciler, which may return early.
pub mod Steps
pub mod Safety
pub mod Retry
pub mod Tenancy
use osko.Prelude.{ℕ, String, Bool, List, Option}
use osko.Runtime.{Runtime}
use osko.Config.{Config}
use osko.Errors.{ApiError, GoError, ReconcileError, Result}
use osko.Api.Meta.{ObjectMeta, NamespacedName}
use osko.Api.OpenSlo.{Slo, Sli}
use osko.Api.Monitoring.{PrometheusRule}
use osko.Api.Osko.{Datasource, MimirRule, AlertManagerConfig}

-- What the server answers: the object, as it now stands in the server, or an error.
pub data Reply (A : Type 0) : Type 0 where
  found : A → Reply A
  failed : ApiError → Reply A

-- The calls for one kind of resource. Any of them may move the state, also a `get`: between two
-- calls of a reconciler others act on the server.
pub record Access (S A : Type 0) : Type 0 where
  pub get : NamespacedName → S → Reply A × S
  pub create : A → S → Reply A × S
  pub update : A → S → Reply A × S
  -- Status().Update
  pub update_status : A → S → Reply A × S

pub record Client : Type 1 where
  pub State : Type 0
  pub now : State → ℕ
  pub slos : Access State Slo
  pub slis : Access State Sli
  pub datasources : Access State Datasource
  pub prometheus_rules : Access State PrometheusRule
  pub mimir_rules : Access State MimirRule
  pub alert_manager_configs : Access State AlertManagerConfig

-- controllerutil of sigs.k8s.io/controller-runtime
pub record Controllerutil : Type 0 where
  pub contains_finalizer : ObjectMeta → String → Bool
  pub add_finalizer : ObjectMeta → String → ObjectMeta
  pub remove_finalizer : ObjectMeta → String → ObjectMeta
  -- of the owner, its kind and the object
  pub set_owner_reference : ObjectMeta → String → ObjectMeta → Result ObjectMeta

-- A reconciler with all that it is given. `has_recorder` says that its Recorder is not nil.
pub record Operator : Type 1 where
  pub runtime : Runtime
  pub config : Config runtime
  pub client : Client
  pub util : Controllerutil
  -- retry.RetryOnConflict(retry.DefaultRetry, fn) of k8s.io/client-go. `fn` works on the variable
  -- that it captures.
  pub retry_on_conflict :
      {A : Type 0}
      → (A → client.State → (Option ApiError × A) × client.State)
      → A
      → client.State
      → (Option ApiError × A) × client.State
  pub has_recorder : Bool

pub record Event : Type 0 where
  pub regarding : String
  pub kind : String
  pub reason : String
  pub message : String

-- The error that a reconciler returns.
pub data ReturnedError : Type 0 where
  plain : GoError → ReturnedError
  reconcile : ReconcileError → ReturnedError

-- ctrl.Result
pub data CtrlResult (D : Type 0) : Type 0 where
  done requeue : CtrlResult D
  requeue_after : D → CtrlResult D

-- How a call of Reconcile ends.
pub data Outcome (D : Type 0) : Type 0 where
  returned : CtrlResult D → Outcome D
  returned_error : ReturnedError → Outcome D
  panicked : Outcome D
