-- ===== src/Examples/Events.antt =====
-- Handlers and helpers for owners that are as documented, and events of the sample SLO's objects.
use mathlib.Core.List.{Mem}
use osko.Prelude.{
  sym, ◌∙◌, ap, ◌==◌, if◌then◌else◌, eq_iff, String, ◌≡◌, ◌≢◌, ◌↔◌, refl, true, false, Bool-cases,
  inl, inr, List, [], ◌∷◌, All,
}
use mathlib.Core.Path.{subst}
use osko.Errors.{ok}
use osko.Map.{get}
use osko.SloController.Fetch.{datasource_ref}
use osko.Examples.Watches.{list_kept, selects_kept}
use osko.Api.Meta.{empty_meta, ObjectMeta, OwnerReference, NamespacedName}
use osko.Api.OpenSlo.{Slo}
use osko.Api.Osko.{AlertManagerConfig}
use osko.SloController.Alerting.{alerting_name, create_alert_manager_config}
use osko.SloController.Rule.{key_of}
use osko.SloController.Watch.{Names}
use osko.Rules.Build.{slo_group_version}
use osko.Program.{Parts}
use osko.Program.Watches.{
  Kind, slo_kind, sli_kind, datasource_kind, prometheus_rule_kind, mimir_rule_kind,
  alert_manager_config_kind, alert_policy_kind, alert_condition_kind,
  alert_notification_target_kind, secret_kind, Object, object_key, Source, for_kind, owns, watches,
  watches_by, source_kind, Handlers, Documented, asked, slo_sources,
}
use osko.Program.Watches.Owners.{Uncontrolled, AddsNoController}
use osko.Program.Watches.Laws.{asked_of_config, mem-asked_of_sli}
use osko.Examples.Samples.{sample_sli}
use osko.Examples.Slos.{kept, key, sample_datasource}
use osko.Examples.Servers.{helpers}
use osko.Examples.Tenants.{noting}

abbrev rank : Kind → String
rank slo_kind = "slo"
rank sli_kind = "sli"
rank datasource_kind = "datasource"
rank prometheus_rule_kind = "prometheus_rule"
rank mimir_rule_kind = "mimir_rule"
rank alert_manager_config_kind = "alert_manager_config"
rank alert_policy_kind = "alert_policy"
rank alert_condition_kind = "alert_condition"
rank alert_notification_target_kind = "alert_notification_target"
rank secret_kind = "secret"

abbrev of_rank : String → Kind
of_rank s =
    if s == "slo"
    then slo_kind
    else if s == "sli"
    then sli_kind
    else if s == "datasource"
    then datasource_kind
    else if s == "prometheus_rule"
    then prometheus_rule_kind
    else if s == "mimir_rule"
    then mimir_rule_kind
    else if s == "alert_manager_config"
    then alert_manager_config_kind
    else if s == "alert_policy"
    then alert_policy_kind
    else if s == "alert_condition"
    then alert_condition_kind
    else if s == "alert_notification_target"
    then alert_notification_target_kind
    else secret_kind

of_rank-rank : (k : Kind) → of_rank (rank k) ≡ k
of_rank-rank slo_kind = refl
of_rank-rank sli_kind = refl
of_rank-rank datasource_kind = refl
of_rank-rank prometheus_rule_kind = refl
of_rank-rank mimir_rule_kind = refl
of_rank-rank alert_manager_config_kind = refl
of_rank-rank alert_policy_kind = refl
of_rank-rank alert_condition_kind = refl
of_rank-rank alert_notification_target_kind = refl
of_rank-rank secret_kind = refl

same_kind-false : (j k : Kind) → j ≢ k → (rank j == rank k) ≡ false
same_kind-false j k other = elim (Bool-cases (rank j == rank k)) [
  | inl e ↦ absurd (other (sym (of_rank-rank j) ∙ ap of_rank ((eq_iff _ _).0 e) ∙ of_rank-rank k))
  | inr e ↦ e
]

same_kind-true : (k : Kind) → (rank k == rank k) ≡ true
same_kind-true k = (eq_iff (rank k) (rank k)).1 refl

-- The requests for the owners that control an object.
abbrev controllers : String → List OwnerReference → List NamespacedName
controllers namespace [] = []
controllers namespace (r ∷ refs) =
    let rest = controllers namespace refs in
    if r.controller then record { name = r.name; namespace = namespace } ∷ rest else rest

controllers-none :
    (namespace : String) (refs : List OwnerReference)
    → All (λ (r : OwnerReference). r.controller ≡ false) refs
    → controllers namespace refs ≡ []
controllers-none namespace [] free = refl
controllers-none namespace (r ∷ refs) (here, later) =
    rw (here, controllers-none namespace refs later) refl

module _ {S : Type 0} where
  abbrev answer : Source S → Object → S → List NamespacedName × S
  answer (for_kind k) o s = (object_key o ∷ [], s)
  answer (owns k) o s = (controllers o.meta.namespace o.meta.owner_references, s)
  answer (watches k) o s = (object_key o ∷ [], s)
  answer (watches_by k f) o s = f o.meta s

  abbrev asked_here : Source S → Object → S → List NamespacedName × S
  asked_here source o s =
      if rank o.kind == rank (source_kind source) then answer source o s else ([], s)

  abbrev handlers : Handlers S
  handlers = record { enqueue = λ k source o s. asked_here source o s }

  uncontrolled :
      (owned : Kind) (o : Object) (s : S)
      → All (λ (r : OwnerReference). r.controller ≡ false) o.meta.owner_references
      → asked_here (owns owned) o s ≡ ([], s)
  uncontrolled owned o s free =
      rw (controllers-none o.meta.namespace o.meta.owner_references free)
        (elim (Bool-cases (rank o.kind == rank owned)) [ inl e ↦ rw e refl | inr e ↦ rw e refl ])

  handlers-Documented : Documented handlers
  handlers-Documented = record {
    of_other = λ k source o s other. rw (same_kind-false o.kind (source_kind source) other) refl;
    of_for = λ k o s. rw (same_kind-true o.kind) refl;
    of_watches = λ k o s. rw (same_kind-true o.kind) refl;
    of_map = λ k f o s. rw (same_kind-true o.kind) refl;
    of_uncontrolled = λ k owned o s free. uncontrolled owned o s free;
  }

abbrev owning : Parts
owning = record noting {
  util = record helpers {
    set_owner_reference = λ owner kind m. ok (record m {
      owner_references =
          record {
            api_version = slo_group_version;
            kind = kind;
            name = owner.name;
            uid = owner.uid;
            controller = false;
          }
          ∷ m.owner_references;
    });
  };
}

abbrev added : Slo → OwnerReference
added slo = record {
  api_version = slo_group_version;
  kind = "SLO";
  name = slo.meta.name;
  uid = slo.meta.uid;
  controller = false;
}

ok_inv : {A : Type 0} {a b : A} → ok a ≡ ok b → a ≡ b
ok_inv e = cc

owning-AddsNoController : AddsNoController owning.util
owning-AddsNoController owner m n free set = subst Uncontrolled (ok_inv set) (refl, free)

abbrev made_config : AlertManagerConfig
made_config = record {
  meta = record empty_meta {
    name = alerting_name kept;
    namespace = "shop";
    labels =
        ("app.kubernetes.io/name", "osko")
        ∷ ("app.kubernetes.io/managed-by", "osko-controller")
        ∷ ("osko.dev/slo", "checkout")
        ∷ [];
    annotations = (datasource_ref, get datasource_ref kept.meta.annotations) ∷ [];
  };
  spec = record { secret_ref = record { name = "checkout-alerting-config"; namespace = "shop" } };
  status = record { conditions = []; last_evaluation_time = 0; ready = "" };
}

makes_config : create_alert_manager_config kept sample_datasource ≡ ok made_config
unfolding create_alert_manager_config
makes_config = refl

abbrev owned_config : ObjectMeta
owned_config = record made_config.meta { owner_references = added kept ∷ [] }

asked_of_config_example :
    asked handlers slo_kind
      (slo_sources owning list_kept)
      (record { kind = alert_manager_config_kind; meta = owned_config })
      []
    ≡ ([], [])
asked_of_config_example =
    asked_of_config owning list_kept handlers-Documented owning-AddsNoController kept
      sample_datasource made_config made_config.meta owned_config owned_config [] makes_config refl
      refl (inr refl)

mem-asked_of_sli_example :
    Mem key
      (asked handlers slo_kind
        (slo_sources owning list_kept)
        (record { kind = sli_kind; meta = sample_sli.meta })
        []).0
    ↔ ∥ ((slo : Slo) × Names (kept ∷ []) sample_sli.meta slo × (key_of slo ≡ key)) ∥₁
mem-asked_of_sli_example =
    mem-asked_of_sli owning list_kept handlers-Documented (kept ∷ []) (kept ∷ []) sample_sli.meta []
      [] tt refl selects_kept key
