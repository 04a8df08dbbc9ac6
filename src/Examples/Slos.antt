-- ===== src/Examples/Slos.antt =====
-- A server that holds at most one SLO, and the sample SLO reconciled against it.
use osko.Prelude.{false, ◌↔◌, ℕ, String, arith, ◌≢◌, ◌≡◌, refl, true, Option, none, some, [], ◌∷◌}
use osko.Errors.{panic, not_found, api, dependency_not_ready}
use osko.Api.Meta.{NamespacedName, empty_meta}
use osko.Api.OpenSlo.{Slo, Indicator}
use osko.Api.Osko.{Datasource}
use osko.Cluster.{
  Outcome, panicked, Reply, found, failed, Access, Client, Operator, returned_error,
  reconcile as reconcile_error,
}
use osko.Cluster.Steps.{World, stop}
use osko.SloController.Fetch.{slo_finalizer, slo_event}
use osko.SloController.{reconcile}
use osko.SloController.Dependencies.{reconcile_of_missing_datasource, reconcile_of_missing_sli}
use osko.SloController.Indicator.{updated_sli}
use osko.SloController.Indicator.Laws.{updated_sli-eq}
use osko.Status.{update_condition, new_condition, find_condition, other_conditions}
use osko.SloController.Returns.{reconcile-returned}
use osko.Examples.Servers.{absent, helpers}
use osko.Examples.Samples.{
  sample_sli, sample_runtime, sample_config, slo_with, objective, team_label,
}

abbrev stored : Option Slo → Reply Slo
stored (some slo) = found slo
stored none = failed (not_found "slos checkout not found")

abbrev pub slo_access : Access (Option Slo) Slo
slo_access = record {
  get = λ key s. (stored s, s);
  create = λ slo s. (found slo, some slo);
  update = λ slo s. (found slo, some slo);
  update_status = λ slo s. (found slo, some slo);
}

abbrev pub one_slo : Client
one_slo = record {
  State = Option Slo;
  now = λ s. 7;
  slos = slo_access;
  slis = absent (Option Slo) _;
  datasources = absent (Option Slo) _;
  prometheus_rules = absent (Option Slo) _;
  mimir_rules = absent (Option Slo) _;
  alert_manager_configs = absent (Option Slo) _;
}

abbrev pub operator : Operator
operator = record {
  runtime = sample_runtime;
  config = sample_config;
  client = one_slo;
  util = helpers;
  retry_on_conflict = λ f. f;
  has_recorder = true;
}

abbrev pub key : NamespacedName
key = record { name = "checkout"; namespace = "shop" }

abbrev pub server : Option Slo → World (Option Slo)
server s = record { cluster = s; events = [] }

abbrev fresh : Slo
fresh = slo_with (objective "0.99" ∷ []) team_label

abbrev pub kept : Slo
kept = record fresh { meta = record fresh.meta { finalizers = slo_finalizer ∷ [] } }

pub parses_calmly : (s : String) → sample_runtime.parse_float s ≢ panic
parses_calmly s = ground arith

has_objective :
    (slo : Slo) (s : Option Slo)
    → one_slo.slos.get key (some kept) ≡ (found slo, s)
    → slo.spec.objectives ≢ []
has_objective slo s h bare = ground (arith, h, bare)

reconcile-returned_example :
    (o : Outcome ℕ) × ((reconcile operator key (server (some kept))).0 ≡ stop o) × (o ≢ panicked)
reconcile-returned_example =
    reconcile-returned operator refl (λ a kind m h. cc) parses_calmly key (server (some kept))
      has_objective

abbrev pub sample_datasource : Datasource
sample_datasource = record {
  meta = record empty_meta { name = "mimir"; namespace = "shop" };
  spec = record {
    description = "";
    type = "mimir";
    connection_details = record {
      address = "http://mimir";
      target_tenant = "t";
      source_tenants = [];
      sync_prometheus_rules = false;
    };
  };
}

-- The sample SLI's specification, described.
abbrev pub sample_indicator : Indicator
sample_indicator = record {
  metadata = empty_meta;
  spec = record sample_sli.spec { description = "Requests that succeed." };
}

-- The server with a datasource, for any name.
abbrev with_datasource : Operator
with_datasource = record operator {
  client = record one_slo {
    datasources = record {
      get = λ key s. (found sample_datasource, s);
      create = λ a s. (found a, s);
      update = λ a s. (found a, s);
      update_status = λ a s. (found a, s);
    };
  };
}

reconcile_of_missing_datasource_example : reconcile operator key (server (some kept)) ≡ (
  stop (
      returned_error (reconcile_error (dependency_not_ready (some (api (not_found "not found")))))),
  record {
    cluster = some (record kept { status = record kept.status { ready = "False" } });
    events =
        slo_event kept "Warning" "datasourceRef"
          "Unable to get Datasource. Check if the referenced datasource exists."
        ∷ [];
  },
)
reconcile_of_missing_datasource_example =
    reconcile_of_missing_datasource operator key (server (some kept)) kept (some kept) (some kept)
      (not_found "not found") refl refl refl refl refl refl

reconcile_of_missing_sli_example : reconcile with_datasource key (server (some kept)) ≡ (
  stop (returned_error (reconcile_error (dependency_not_ready none))),
  server (
      some (record kept {
        status = record kept.status {
          conditions = new_condition 7 "Ready" "False" "SLI Object not found" ∷ [];
          ready = "False";
        };
      })),
)
unfolding update_condition new_condition find_condition other_conditions
reconcile_of_missing_sli_example =
    reconcile_of_missing_sli with_datasource key (server (some kept)) kept (some kept) (some kept)
      (some kept) "availability" sample_datasource (not_found "not found") refl refl refl refl refl
      refl refl

updated_sli-eq_example :
    ((updated_sli sample_indicator sample_sli).0
      ≡ record sample_sli { spec = sample_indicator.spec })
    × (((updated_sli sample_indicator sample_sli).1 ≡ false)
        ↔ (sample_sli.spec ≡ sample_indicator.spec))
updated_sli-eq_example = updated_sli-eq sample_indicator sample_sli
