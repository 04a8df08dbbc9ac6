-- ===== src/Examples/Programs.antt =====
-- The whole program against sample libraries: its start, and requests that return or fault.
use osko.Prelude.{ℕ, suc, ◌≡◌, ◌≢◌, ◌↔◌, refl, none, [], arith}
use osko.Errors.{conflict}
use osko.Api.Meta.{NamespacedName}
use osko.Api.OpenSlo.{Slo}
use osko.Cluster.{found, failed, panicked}
use osko.Cluster.Steps.{stop}
use osko.MimirController.Laws.{Served}
use osko.PrometheusRuleController.Equal.{is_empty_slo, meta_equal}
use osko.Program.{Parts, serve, for_slo, for_prometheus_rule}
use osko.Program.Start.{Manager, default_flags, main, ended}
use osko.Program.Start.Laws.{asks, main-eq-ended_iff}
use osko.Program.Returns.{Returns, serve-returned, serve-panicked}
use osko.Examples.Slos.{key, kept, parses_calmly}
use osko.Examples.PrometheusRules.{owned_rule, slo_owner}
use osko.Examples.Tenants.{Journal, journaled, noting, unwritten}

answered_with_objective :
    (k : NamespacedName) (slo : Slo) (s t : Journal)
    → noting.client.slos.get k s ≡ (found slo, t)
    → slo.spec.objectives ≢ []
answered_with_objective k slo s t h bare = ground (arith, h, bare)

serve-returned_example : Returns (serve noting (for_slo key) unwritten).0
serve-returned_example =
    serve-returned noting (λ a kind m h. cc) parses_calmly (λ address tenant h. cc)
      answered_with_objective (for_slo key) unwritten tt

-- An SLO that names no SLI and has none of its own.
abbrev aimless : Slo
aimless = record kept { spec = record kept.spec { indicator_ref = none; indicator = none } }

-- The server with a PrometheusRule of that SLO, whose status it does not take.
abbrev refusing : Parts
refusing = record noting {
  client = record noting.client {
    slos = record {
      get = λ k s. (found aimless, s);
      create = λ a s. (found a, s);
      update = λ a s. (found a, s);
      update_status = λ a s. (failed (conflict "changed"), s);
    };
    prometheus_rules = journaled (λ a. a.meta) (λ k. found owned_rule);
  };
}

serve-panicked_example : (serve refusing (for_prometheus_rule key) unwritten).0 ≡ stop panicked
unfolding is_empty_slo meta_equal
serve-panicked_example =
    serve-panicked refusing key unwritten owned_rule slo_owner [] aimless (conflict "changed") [] []
      [] refl refl refl refl refl refl refl refl

-- A manager that does what it is asked, and counts.
abbrev obliging : Manager ℕ
obliging = record {
  State = ℕ;
  answer = λ asked n. (none, suc n);
  config_message = "unable to get kubeconfig";
}

main-eq-ended_iff_example :
    (main obliging default_flags 60 0 ≡ (ended, 15))
    ↔ Served obliging.answer (asks default_flags 60) 0 15
main-eq-ended_iff_example = main-eq-ended_iff obliging default_flags 60 0 15
