-- ===== src/Rules/Setup/Outcomes.antt =====
-- When `SetupRules` succeeds, when it fails, and when it faults.
use osko.Prelude.{
  String, ◌≡◌, refl, ◌≢◌, ◌↔◌, true, false, List, [], ◌∷◌, arith, Bool-cases, inl, inr,
}
use osko.Runtime.{Runtime, IsIeee}
use osko.Config.{Config}
use osko.Errors.{GoError, Result, ok, err, panic, wrapped}
use osko.Api.OpenSlo.{ObjectivesSpec}
use osko.Api.Monitoring.{RuleGroup}
use osko.Rules.Labels.{MonitoringRuleSet}
use osko.Rules.Recording.{is_prometheus_source, parse_target, validate_target}
use osko.Rules.Setup.{groups_of, setup_rules}

module _ (R : Runtime) where
  -- The first objective has a target that is parsed as a float that is neither >= 1 nor <= 0.
  pub record Accepted (mrs : MonitoringRuleSet) (o : ObjectivesSpec) (t : R.Float) : Type 0 where
    pub rest : List ObjectivesSpec
    pub source : is_prometheus_source mrs ≡ true
    pub first : mrs.slo.spec.objectives ≡ o ∷ rest
    pub parsed : R.parse_float o.target ≡ ok t
    pub below_one : R.ge t R.one ≡ false
    pub above_zero : R.le t R.zero_float ≡ false

-- An error that errors.Is finds `e` in.
abbrev pub Wraps {ℓ} : {A : Type ℓ} → GoError → Result A → Type 0
Wraps e (err (wrapped m d)) = d ≡ e
Wraps e _ = ⊥

module _ (R : Runtime) (cfg : Config R) (mrs : MonitoringRuleSet) where
  setup_rules_of_Accepted :
      (o : ObjectivesSpec) (t : R.Float)
      → Accepted R mrs o t
      → setup_rules R cfg mrs ≡ ok (groups_of R cfg mrs (R.sub R.one t) o.target)
  unfolding setup_rules parse_target validate_target
  setup_rules_of_Accepted o t a = rw (a.source, a.first, a.parsed, a.below_one, a.above_zero) refl

  -- What the call gives at a list of objectives and a parsed target.
  abbrev pub Succeeds : List RuleGroup → Type 0
  Succeeds gs =
      (o : ObjectivesSpec) × (t : R.Float) × Accepted R mrs o t
      × (gs ≡ groups_of R cfg mrs (R.sub R.one t) o.target)

  accepted_of_parsed :
      (gs : List RuleGroup) (o : ObjectivesSpec) (rest : List ObjectivesSpec) (p : Result R.Float)
      → is_prometheus_source mrs ≡ true
      → mrs.slo.spec.objectives ≡ o ∷ rest
      → R.parse_float o.target ≡ p
      → setup_rules R cfg mrs ≡ ok gs
      → Succeeds gs
  unfolding setup_rules parse_target validate_target
  accepted_of_parsed gs o rest (ok t) src first parsed h = (
    o,
    t,
    record {
      rest = rest;
      source = src;
      first = first;
      parsed = parsed;
      below_one = ground (arith, src, first, parsed);
      above_zero = ground (arith, src, first, parsed);
    },
    ground (arith, src, first, parsed),
  )
  accepted_of_parsed gs o rest (err e) src first parsed h =
      absurd (ground (arith, src, first, parsed))
  accepted_of_parsed gs o rest panic src first parsed h =
      absurd (ground (arith, src, first, parsed))

  accepted_of_objectives :
      (gs : List RuleGroup) (os : List ObjectivesSpec)
      → is_prometheus_source mrs ≡ true
      → mrs.slo.spec.objectives ≡ os
      → setup_rules R cfg mrs ≡ ok gs
      → Succeeds gs
  accepted_of_objectives gs [] src first h =
      absurd (unfold setup_rules in ground (arith, src, first))
  accepted_of_objectives gs (o ∷ rest) src first h =
      accepted_of_parsed gs o rest (R.parse_float o.target) src first refl h

  -- `SetupRules` returns groups exactly for an accepted target, and then they are the groups of the
  -- error budget 1.0 - target.
  pub setup_rules-eq-ok_iff : (gs : List RuleGroup) → (setup_rules R cfg mrs ≡ ok gs) ↔ Succeeds gs
  setup_rules-eq-ok_iff gs = (
    λ h. elim (Bool-cases (is_prometheus_source mrs)) [
      | inl src ↦ accepted_of_objectives gs mrs.slo.spec.objectives src refl h
      | inr none ↦ absurd (unfold setup_rules in ground (arith, none))
    ],
    λ s. rw s.3 (setup_rules_of_Accepted s.0 s.1 s.2),
  )

  no_fault_of_parsed :
      (o : ObjectivesSpec) (rest : List ObjectivesSpec) (p : Result R.Float)
      → is_prometheus_source mrs ≡ true
      → mrs.slo.spec.objectives ≡ o ∷ rest
      → R.parse_float o.target ≡ p
      → setup_rules R cfg mrs ≡ panic
      → R.parse_float o.target ≡ panic
  unfolding setup_rules parse_target validate_target
  no_fault_of_parsed o rest (ok t) src first parsed h = absurd (ground (arith, src, first, parsed))
  no_fault_of_parsed o rest (err e) src first parsed h = absurd (ground (arith, src, first, parsed))
  no_fault_of_parsed o rest panic src first parsed h = parsed

  fault_cause :
      ((s : String) → R.parse_float s ≢ panic)
      → (os : List ObjectivesSpec) → is_prometheus_source mrs ≡ true
      → mrs.slo.spec.objectives ≡ os
      → setup_rules R cfg mrs ≡ panic
      → mrs.slo.spec.objectives ≡ []
  fault_cause parses [] src first h = first
  fault_cause parses (o ∷ rest) src first h =
      absurd (parses o.target (no_fault_of_parsed o rest (R.parse_float o.target) src first refl h))

  -- `SetupRules` faults exactly if the metric source is supported and there is no objective, where
  -- parsing a float never faults.
  pub setup_rules-eq-panic_iff :
      ((s : String) → R.parse_float s ≢ panic)
      → (setup_rules R cfg mrs ≡ panic)
        ↔ ((is_prometheus_source mrs ≡ true) × (mrs.slo.spec.objectives ≡ []))
  setup_rules-eq-panic_iff parses = (
    λ h. elim (Bool-cases (is_prometheus_source mrs)) [
      | inl src ↦ (src, fault_cause parses mrs.slo.spec.objectives src refl h)
      | inr other ↦ absurd (unfold setup_rules in ground (arith, other))
    ],
    λ (src, empty). unfold setup_rules in rw (src, empty) refl,
  )

module _ (R : Runtime) (IsNan : R.Float → Type 0) (ieee : IsIeee R IsNan) (cfg : Config R) where
  -- With a supported metric source, a target of the first objective that parses as NaN passes the
  -- validation, as its comparisons are false: the groups are those of the error budget 1.0 - NaN.
  pub setup_rules_of_nan :
      (mrs : MonitoringRuleSet) (o : ObjectivesSpec) (rest : List ObjectivesSpec) (t : R.Float)
      → is_prometheus_source mrs ≡ true
      → mrs.slo.spec.objectives ≡ o ∷ rest
      → R.parse_float o.target ≡ ok t
      → IsNan t
      → setup_rules R cfg mrs ≡ ok (groups_of R cfg mrs (R.sub R.one t) o.target)
  setup_rules_of_nan mrs o rest t src first parsed nan =
      setup_rules_of_Accepted R cfg mrs o t (record {
        rest = rest;
        source = src;
        first = first;
        parsed = parsed;
        below_one = ieee.ge_nan t R.one nan;
        above_zero = ieee.le_nan t R.zero_float nan;
      })
