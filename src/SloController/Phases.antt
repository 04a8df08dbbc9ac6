-- ===== src/SloController/Phases.antt =====
-- The phases in which the resources of an SLO come into being, and a server that answers every
-- request as the phase that it is in has it.
use osko.Prelude.{ℕ, ◌≡◌, String, Bool, true, false, some, none, ◌==◌}
use osko.Errors.{ApiError, ok}
use osko.Map.{get}
use osko.Api.Meta.{ObjectMeta, NamespacedName}
use osko.Api.OpenSlo.{Slo, Sli}
use osko.Api.Monitoring.{PrometheusRule}
use osko.Api.Osko.{MimirRule}
use osko.Cluster.{Reply, found, failed, Operator}
use osko.Cluster.Steps.{is_not_found}
use osko.Rules.Build.{create_prometheus_rule}
use osko.SloController.Fetch.{slo_finalizer, datasource_ref}
use osko.SloController.Rule.{key_of}

-- The SLO is new; it has the finalizer; it has its PrometheusRule; it has its MimirRule as well.
pub data Phase : Type 0 where
  bare held ruled mirrored : Phase

-- What one call of the reconciler is to make of a phase.
unfoldable pub advance : Phase → Phase
advance bare = held
advance held = ruled
advance ruled = mirrored
advance mirrored = mirrored

-- The calls that are left until the phase `mirrored`.
abbrev pub distance : Phase → ℕ
distance bare = 3
distance held = 2
distance ruled = 1
distance mirrored = 0

abbrev pub has_finalizer : Phase → Bool
has_finalizer bare = false
has_finalizer _ = true

-- A request that is answered with an object, and leaves a state with the property.
abbrev pub Answers : {A S : Type 0} → (S → Reply A × S) → (S → Type 0) → S → Type 0
Answers f Q s = (a : _) × (t : _) × (f s ≡ (found a, t)) × Q t

-- A request that is answered with an object that has the one property, and leaves a state with the
-- other.
abbrev pub AnswersWith :
    {A S : Type 0} → (S → Reply A × S) → (A → Type 0) → (S → Type 0) → S → Type 0
AnswersWith f P Q s = (a : _) × (t : _) × (f s ≡ (found a, t)) × P a × Q t

-- An object under the key of the SLO.
abbrev pub Named : Slo → ObjectMeta → Type 0
Named slo m = (m.name ≡ slo.meta.name) × (m.namespace ≡ slo.meta.namespace)

-- A request that is answered with NotFound.
abbrev pub Lacks : {A S : Type 0} → (S → Reply A × S) → (S → Type 0) → S → Type 0
Lacks f Q s = (e : ApiError) × (t : _) × (f s ≡ (failed e, t)) × (is_not_found e ≡ true) × Q t

-- A server that refuses no request for an SLO that lives, names an SLI and asks for no alerting.
-- `At p` says of a state that the resources of the SLO are in phase p, and `Current p` of an SLO
-- that it is the server's in that phase. A PrometheusRule or a MimirRule brings them to the next
-- phase only where it is created under the key of the SLO. The reconciler has a recorder.
pub record Quiet (O : Operator) (req : NamespacedName) : Type 1 where
  pub At : Phase → O.client.State → Type 0
  pub Current : Phase → Slo → Type 0
  pub recorded : O.has_recorder ≡ true
  pub live : (p : Phase) (slo : Slo) → Current p slo → slo.meta.deletion_timestamp ≡ none
  pub finalizer :
      (p : Phase) (slo : Slo)
      → Current p slo
      → O.util.contains_finalizer slo.meta slo_finalizer ≡ has_finalizer p
  pub unalerted :
      (p : Phase) (slo : Slo)
      → Current p slo
      → (get "osko.dev/magicAlerting" slo.meta.annotations == "true") ≡ false
  -- A rule can be made from an SLI that the server answers with.
  pub Source : Sli → Type 0
  pub buildable :
      (p : Phase) (slo : Slo) (sli : Sli)
      → Current p slo
      → Source sli
      → (rule : PrometheusRule) × (create_prometheus_rule O.runtime O.config slo sli ≡ ok rule)
  pub owned :
      (slo : Slo) (m : ObjectMeta)
      → (n : ObjectMeta) × (O.util.set_owner_reference slo.meta "SLO" m ≡ ok n)
        × (n.name ≡ m.name)
        × (n.namespace ≡ m.namespace)
  pub get_slo :
      (p : Phase) (s : O.client.State)
      → At p s
      → (slo : Slo) × (t : O.client.State) × (O.client.slos.get req s ≡ (found slo, t))
        × Current p slo
        × At p t
  pub get_datasource :
      (p : Phase) (s : O.client.State) (slo : Slo)
      → At p s
      → Current p slo
      → Answers
          (O.client.datasources.get (record {
            name = get datasource_ref slo.meta.annotations;
            namespace = slo.meta.namespace;
          }))
          (At p)
          s
  pub get_sli :
      (p : Phase) (s : O.client.State) (slo : Slo)
      → At p s
      → Current p slo
      → (ref : String) × (slo.spec.indicator_ref ≡ some ref)
        × (sli : Sli) × (t : O.client.State) × (O.client.slis.get
              (record { name = ref; namespace = slo.meta.namespace })
              s
            ≡ (found sli, t))
        × Source sli
        × At p t
  -- The finalizer and the status.
  pub hold :
      (s : O.client.State) (slo : Slo)
      → At bare s
      → Current bare slo
      → Answers
          (O.client.slos.update (record slo { meta = O.util.add_finalizer slo.meta slo_finalizer }))
          (At held)
          s
  pub write_status :
      (p : Phase) (s : O.client.State) (slo : Slo)
      → At p s
      → Answers (O.client.slos.update_status slo) (At p) s
  -- The PrometheusRule is there from the phase `ruled` on.
  pub no_rule :
      (s : O.client.State) (slo : Slo)
      → At held s
      → Current held slo
      → Lacks (O.client.prometheus_rules.get (key_of slo)) (At held) s
  pub create_rule :
      (s : O.client.State) (slo : Slo) (rule : PrometheusRule)
      → At held s
      → Current held slo
      → Named slo rule.meta
      → AnswersWith (O.client.prometheus_rules.create rule) (λ a. Named slo a.meta) (At ruled) s
  pub update_rule :
      (s : O.client.State) (slo : Slo) (rule : PrometheusRule)
      → At ruled s
      → Current held slo
      → Named slo rule.meta
      → Answers (O.client.prometheus_rules.update rule) (At ruled) s
  pub get_rule_ruled :
      (s : O.client.State) (slo : Slo)
      → At ruled s
      → Current ruled slo
      → AnswersWith
          (O.client.prometheus_rules.get (key_of slo))
          (λ a. Named slo a.meta)
          (At ruled)
          s
  pub get_rule_mirrored :
      (s : O.client.State) (slo : Slo)
      → At mirrored s
      → Current mirrored slo
      → Answers (O.client.prometheus_rules.get (key_of slo)) (At mirrored) s
  -- The MimirRule is there in the phase `mirrored`.
  pub no_mimir_rule :
      (s : O.client.State) (slo : Slo)
      → At ruled s
      → Current ruled slo
      → Lacks (O.client.mimir_rules.get (key_of slo)) (At ruled) s
  pub create_mimir_rule :
      (s : O.client.State) (slo : Slo) (rule : MimirRule)
      → At ruled s
      → Current ruled slo
      → Named slo rule.meta
      → AnswersWith (O.client.mimir_rules.create rule) (λ a. Named slo a.meta) (At mirrored) s
  pub update_mimir_rule :
      (s : O.client.State) (slo : Slo) (rule : MimirRule)
      → At mirrored s
      → Current ruled slo
      → Named slo rule.meta
      → Answers (O.client.mimir_rules.update rule) (At mirrored) s
  pub write_mimir_status :
      (s : O.client.State) (rule : MimirRule)
      → At mirrored s
      → Answers (O.client.mimir_rules.update_status rule) (At mirrored) s
  pub get_mimir_rule :
      (s : O.client.State) (slo : Slo)
      → At mirrored s
      → Current mirrored slo
      → Answers (O.client.mimir_rules.get (key_of slo)) (At mirrored) s
