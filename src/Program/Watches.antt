-- ===== src/Program/Watches.antt =====
-- The SetupWithManager functions: which events ask which reconciler for which requests. The handlers
-- of controller-runtime are a parameter.
pub mod Owners
pub mod Laws
use osko.Prelude.{◌≡◌, false, List, [], ◌∷◌, ◌++◌, All, ◌≢◌}
use osko.Api.Meta.{ObjectMeta, OwnerReference, NamespacedName}
use osko.SloController.Watch.{ListSlos, find_objects_for_sli}
use osko.AlertManagerController.{find_objects_for_secret}
use osko.Program.{Parts, alert_operator}

pub data Kind : Type 0 where
  slo_kind sli_kind datasource_kind prometheus_rule_kind mimir_rule_kind : Kind
  alert_manager_config_kind alert_policy_kind alert_condition_kind : Kind
  alert_notification_target_kind secret_kind : Kind

-- An object of which something has happened.
pub record Object : Type 0 where
  pub kind : Kind
  pub meta : ObjectMeta

-- What a builder is told: For, Owns, Watches with EnqueueRequestForObject, and Watches with
-- EnqueueRequestsFromMapFunc.
pub data Source (S : Type 0) : Type 0 where
  for_kind owns watches : Kind → Source S
  watches_by : Kind → (ObjectMeta → S → List NamespacedName × S) → Source S

abbrev pub source_kind : {S : Type 0} → Source S → Kind
source_kind (for_kind k) = k
source_kind (owns k) = k
source_kind (watches k) = k
source_kind (watches_by k f) = k

-- The requests that a source of a builder makes of an object. The first kind is that of For.
pub record Handlers (S : Type 0) : Type 0 where
  pub enqueue : Kind → Source S → Object → S → List NamespacedName × S

abbrev pub object_key : Object → NamespacedName
object_key o = record { name = o.meta.name; namespace = o.meta.namespace }

-- As documented: a source sees the objects of its kind only. For and EnqueueRequestForObject ask for
-- the object itself, a map function for what it returns, and Owns for the owner that controls the
-- object, if one does.
pub record Documented {S : Type 0} (H : Handlers S) : Type 0 where
  pub of_other :
      (k : Kind) (source : Source S) (o : Object) (s : S)
      → o.kind ≢ source_kind source
      → H.enqueue k source o s ≡ ([], s)
  pub of_for :
      (k : Kind) (o : Object) (s : S) → H.enqueue k (for_kind o.kind) o s ≡ (object_key o ∷ [], s)
  pub of_watches :
      (k : Kind) (o : Object) (s : S) → H.enqueue k (watches o.kind) o s ≡ (object_key o ∷ [], s)
  pub of_map :
      (k : Kind) (f : ObjectMeta → S → List NamespacedName × S) (o : Object) (s : S)
      → H.enqueue k (watches_by o.kind f) o s ≡ f o.meta s
  pub of_uncontrolled :
      (k owned : Kind) (o : Object) (s : S)
      → All (λ (r : OwnerReference). r.controller ≡ false) o.meta.owner_references
      → H.enqueue k (owns owned) o s ≡ ([], s)

-- All that the sources of a builder ask for.
unfoldable pub asked :
    {S : Type 0} → Handlers S → Kind → List (Source S) → Object → S → List NamespacedName × S
asked H k [] o s = ([], s)
asked H k (source ∷ sources) o s =
    let (keys, t) = H.enqueue k source o s in
    let (rest, u) = asked H k sources o t in (keys ++ rest, u)

module _ (G : Parts) (list_slos : ListSlos G.client.State) where
  abbrev pub datasource_sources : List (Source G.client.State)
  datasource_sources = for_kind datasource_kind ∷ []

  abbrev pub slo_sources : List (Source G.client.State)
  slo_sources =
      for_kind slo_kind
      ∷ owns prometheus_rule_kind
      ∷ owns mimir_rule_kind
      ∷ owns sli_kind
      ∷ owns alert_manager_config_kind
      ∷ watches_by sli_kind (find_objects_for_sli list_slos)
      ∷ []

  abbrev pub sli_sources : List (Source G.client.State)
  sli_sources = for_kind sli_kind ∷ []

  abbrev pub prometheus_rule_sources : List (Source G.client.State)
  prometheus_rule_sources = for_kind prometheus_rule_kind ∷ watches slo_kind ∷ []

  abbrev pub alert_policy_sources : List (Source G.client.State)
  alert_policy_sources = for_kind alert_policy_kind ∷ []

  abbrev pub alert_condition_sources : List (Source G.client.State)
  alert_condition_sources = for_kind alert_condition_kind ∷ []

  abbrev pub alert_notification_target_sources : List (Source G.client.State)
  alert_notification_target_sources = for_kind alert_notification_target_kind ∷ []

  abbrev pub mimir_rule_sources : List (Source G.client.State)
  mimir_rule_sources = for_kind mimir_rule_kind ∷ []

  abbrev pub alert_manager_config_sources : List (Source G.client.State)
  alert_manager_config_sources =
      for_kind alert_manager_config_kind
      ∷ watches_by secret_kind (find_objects_for_secret (alert_operator G))
      ∷ []
