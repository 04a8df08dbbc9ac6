-- ===== src/SloController/Returns.antt =====
-- Every call of `Reconcile` returns.
use osko.Prelude.{String, ◌≡◌, ◌≢◌, refl, sym, ap, ◌∙◌, true, List, []}
use osko.Runtime.{Runtime}
use osko.Config.{Config}
use osko.Errors.{Result, ok, err, panic}
use osko.Api.Meta.{ObjectMeta, NamespacedName}
use osko.Api.OpenSlo.{Slo, Sli}
use osko.Api.Monitoring.{RuleGroup}
use osko.Cluster.{found, Operator, Outcome, panicked}
use osko.Cluster.Steps.{World, stop, ◌>>=◌}
use osko.Cluster.Safety.{Never, Safe-bind, returned-Safe}
use osko.Rules.Setup.{setup_rules}
use osko.Rules.Setup.Outcomes.{setup_rules-eq-panic_iff}
use osko.Rules.Build.{create_prometheus_rule, rule_set}
use osko.SloController.Fetch.{get_slo, handle_deletion, ensure_finalizer}
use osko.SloController.Safety.{get_slo-Safe, handle_deletion-Safe, ensure_finalizer-Safe, live-Safe}
use osko.SloController.{reconcile, reconcile_live}

module _ (R : Runtime) (cfg : Config R) (parses : (s : String) → R.parse_float s ≢ panic) where
  pub create_rule-ne-panic :
      (slo : Slo) (sli : Sli)
      → slo.spec.objectives ≢ []
      → create_prometheus_rule R cfg slo sli ≢ panic
  unfolding rule_set
  create_rule-ne-panic slo sli some_objective h =
      by_groups (setup_rules R cfg (rule_set R cfg slo sli)) refl
    where
      by_groups : (r : Result (List RuleGroup)) → setup_rules R cfg (rule_set R cfg slo sli) ≡ r → ⊥
      by_groups (ok gs) e = unfold create_prometheus_rule in cc (e, h)
      by_groups (err g) e = unfold create_prometheus_rule in cc (e, h)
      by_groups panic e =
          some_objective ((setup_rules-eq-panic_iff R cfg (rule_set R cfg slo sli) parses).0 e).1

module _ (O : Operator) where
  -- Where the reconciler has a recorder, SetOwnerReference and the parser of floats do not fault,
  -- and an SLO that the server answers with has an objective: the call ends, whatever the server
  -- answers to each request, with a result or an error, and not with a fault.
  pub reconcile-returned :
      O.has_recorder ≡ true
      → ((a : ObjectMeta) (kind : String) (m : ObjectMeta)
          → O.util.set_owner_reference a kind m ≢ panic)
      → ((s : String) → O.runtime.parse_float s ≢ panic)
      → (req : NamespacedName) (w : World O.client.State)
      → ((slo : Slo) (s : O.client.State)
          → O.client.slos.get req w.cluster ≡ (found slo, s)
          → slo.spec.objectives ≢ [])
      → (o : Outcome O.runtime.Duration) × ((reconcile O req w).0 ≡ stop o) × (o ≢ panicked)
  reconcile-returned recorded owner parses req w objectives = returned-Safe (reconcile O req w).0 (
      unfold reconcile in
      Safe-bind HasObjective Never (get_slo O req)
        (λ slo. handle_deletion O slo >>= λ live. ensure_finalizer O live >>= reconcile_live O) w
        (get_slo-Safe O HasObjective req w objectives)
        λ slo v some_objective.
          Safe-bind (λ s. s ≡ slo) Never (handle_deletion O slo)
            (λ live. ensure_finalizer O live >>= reconcile_live O) v (handle_deletion-Safe O slo v)
            λ live u same.
              Safe-bind (λ s. s ≡ live) Never (ensure_finalizer O live) (reconcile_live O) u
                (ensure_finalizer-Safe O live u)
                λ kept x also. live-Safe O recorded owner kept x λ sli.
                  create_rule-ne-panic O.runtime O.config parses kept sli (λ bare.
                    some_objective
                      (sym (ap (λ (s : Slo). s.spec.objectives) (also ∙ same)) ∙ bare)))
    where
      HasObjective : Slo → Type 0
      HasObjective slo = slo.spec.objectives ≢ []
