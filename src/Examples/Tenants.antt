-- ===== src/Examples/Tenants.antt =====
-- A server that notes in which namespaces it is written to, and the whole program against it.
use osko.Prelude.{String, ◌≡◌, refl, ◌⊎◌, inl, inr, none, List, [], ◌∷◌, All, arith}
use osko.Errors.{not_found, ok}
use osko.Api.Meta.{ObjectMeta, NamespacedName}
use osko.Api.OpenSlo.{Slo}
use osko.Api.Osko.{Datasource}
use osko.Cluster.{Reply, found, failed, Access}
use osko.Cluster.Steps.{World}
use osko.Cluster.Tenancy.{Local, Confined, Tenancy, Answered}
use osko.Program.{
  Parts, Controller, State, operator, for_slo, for_prometheus_rule, for_mimir_rule, Request,
  serve_all,
}
use osko.Program.Tenancy.{PartsTenancy, serve_all-Keeps}
use osko.Examples.Servers.{helpers}
use osko.Examples.Slos.{key, kept, sample_datasource}
use osko.Examples.Samples.{sample_runtime}

-- The journal holds the namespace of each write.
abbrev pub Journal : Type 0
Journal = List String

abbrev pub journaled :
    {A : Type 0} → (A → ObjectMeta) → (NamespacedName → Reply A) → Access Journal A
journaled meta answer = record {
  get = λ key s. (answer key, s);
  create = λ a s. (found a, (meta a).namespace ∷ s);
  update = λ a s. (found a, (meta a).namespace ∷ s);
  update_status = λ a s. (found a, (meta a).namespace ∷ s);
}

abbrev pub missing : {A : Type 0} → NamespacedName → Reply A
missing k = failed (not_found "not found")

abbrev slo_at : NamespacedName → Reply Slo
slo_at k = found (record kept { meta = record kept.meta { namespace = k.namespace } })

abbrev datasource_at : NamespacedName → Reply Datasource
datasource_at k =
    found (record sample_datasource {
      meta = record sample_datasource.meta { namespace = k.namespace };
    })

abbrev pub noting : Parts
noting = record {
  runtime = sample_runtime;
  client = record {
    State = Journal;
    now = λ s. 7;
    slos = journaled (λ a. a.meta) slo_at;
    slis = journaled (λ a. a.meta) missing;
    datasources = journaled (λ a. a.meta) datasource_at;
    prometheus_rules = journaled (λ a. a.meta) missing;
    mimir_rules = journaled (λ a. a.meta) missing;
    alert_manager_configs = journaled (λ a. a.meta) missing;
  };
  util = helpers;
  retry_on_conflict = λ f. f;
  get_secret = λ key s. (missing key, s);
  Handle = String;
  new_client = λ address tenant. ok tenant;
  create_rule_group = λ handle namespace group s. (none, s);
  delete_rule_group = λ handle namespace name s. (none, s);
  create_config = λ handle text s. (none, s);
  delete_config = λ handle s. (none, s);
  parse_model_duration = λ text. inr 0;
  ApiHandle = String;
  new_api_client = λ address tenant. inr tenant;
  query = λ handle text s. (inr "1", s);
}

-- The namespace `shop`, and that of an object without one.
abbrev Shop : String → Type 0
Shop n = (n ≡ "shop") ⊎ (n ≡ "")

module _ {A : Type 0} (meta : A → ObjectMeta) (answer : NamespacedName → Reply A)
    (local : (key : NamespacedName)
      → Shop key.namespace
      → Answered (Local Shop meta) (answer key)) where
  journaled-Confined : Confined (All Shop) Shop meta (journaled meta answer)
  journaled-Confined = record {
    got = λ key s here p. (p, local key here);
    created = λ a s here p. ((here, p), here);
    updated = λ a s here p. ((here, p), here);
    status_updated = λ a s here p. ((here, p), here);
  }

noting-Tenancy :
    (c : Controller sample_runtime.Duration) → Tenancy (operator noting c) (All Shop) Shop
noting-Tenancy c = record {
  slos = journaled-Confined _ slo_at (λ k here. here);
  slis = journaled-Confined _ missing (λ k here. tt);
  datasources = journaled-Confined _ datasource_at (λ k here. here);
  prometheus_rules = journaled-Confined _ missing (λ k here. tt);
  mimir_rules = journaled-Confined _ missing (λ k here. tt);
  alert_manager_configs = journaled-Confined _ missing (λ k here. tt);
  nowhere = inr refl;
  add_finalizer = λ m f. refl;
  remove_finalizer = λ m f. refl;
  set_owner_reference = λ owner m n kind e. ground (arith, e);
  retry_on_conflict = λ A Q f keeps. keeps;
}

noting-PartsTenancy : PartsTenancy noting (All Shop) Shop
noting-PartsTenancy = record {
  kubernetes = noting-Tenancy;
  get_secret = λ key s p. p;
  create_rule_group = λ handle namespace group s p. p;
  delete_rule_group = λ handle namespace name s p. p;
  create_config = λ handle text s p. p;
  delete_config = λ handle s p. p;
  query = λ handle text s p. p;
}

abbrev requests : List Request
requests = for_slo key ∷ for_prometheus_rule key ∷ for_mimir_rule key ∷ for_slo key ∷ []

abbrev pub unwritten : World (State noting)
unwritten = record { cluster = record { server = []; mimir_client = none }; events = [] }

serve_all-Keeps_example : All Shop (serve_all noting requests unwritten).cluster.server
serve_all-Keeps_example =
    serve_all-Keeps noting-PartsTenancy requests unwritten
      (inl refl, (inl refl, (inl refl, (inl refl, tt)))) tt
