-- ===== src/Rules/Setup/Refusals.antt =====
-- When `SetupRules` refuses a target.
use osko.Prelude.{String, ◌≡◌, refl, ◌≢◌, ◌↔◌, ◌⊎◌, true, List, [], ◌∷◌, Bool-cases, inl, inr}
use osko.Runtime.{Runtime}
use osko.Config.{Config}
use osko.Errors.{Result, ok, err, panic, err_invalid_target}
use osko.Api.OpenSlo.{ObjectivesSpec}
use osko.Rules.Labels.{MonitoringRuleSet}
use osko.Rules.Recording.{is_prometheus_source, parse_target, validate_target}
use osko.Rules.Setup.{setup_rules}
use osko.Rules.Setup.Outcomes.{Wraps}

module _ (R : Runtime) (cfg : Config R) (mrs : MonitoringRuleSet) where
  -- The first objective has a target that is parsed as a float that is >= 1 or <= 0.
  pub record Refused (o : ObjectivesSpec) (t : R.Float) : Type 0 where
    pub rest : List ObjectivesSpec
    pub source : is_prometheus_source mrs ≡ true
    pub first : mrs.slo.spec.objectives ≡ o ∷ rest
    pub parsed : R.parse_float o.target ≡ ok t
    pub outside : (R.ge t R.one ≡ true) ⊎ (R.le t R.zero_float ≡ true)

  abbrev pub IsRefused : Type 0
  IsRefused = (o : ObjectivesSpec) × (t : R.Float) × Refused o t

  abbrev RefusedHere : Type 0
  RefusedHere = Wraps err_invalid_target (setup_rules R cfg mrs)

  module _ (parser : (s : String) → R.parse_float s ≢ err err_invalid_target) where
    refused_of_number :
        (o : ObjectivesSpec) (rest : List ObjectivesSpec) (t : R.Float)
        → is_prometheus_source mrs ≡ true
        → mrs.slo.spec.objectives ≡ o ∷ rest
        → R.parse_float o.target ≡ ok t
        → RefusedHere
        → (R.ge t R.one ≡ true) ⊎ (R.le t R.zero_float ≡ true)
    unfolding setup_rules parse_target validate_target
    refused_of_number o rest t src first parsed h = elim (Bool-cases (R.ge t R.one)) [
      | inl big ↦ inl big
      | inr less ↦ elim (Bool-cases (R.le t R.zero_float)) [
        | inl small ↦ inr small
        | inr above ↦ absurd (rw (src, first, parsed, less, above) at h)
      ]
    ]

    refused_of_parsed :
        (o : ObjectivesSpec) (rest : List ObjectivesSpec) (p : Result R.Float)
        → is_prometheus_source mrs ≡ true
        → mrs.slo.spec.objectives ≡ o ∷ rest
        → R.parse_float o.target ≡ p
        → RefusedHere
        → IsRefused
    unfolding setup_rules parse_target validate_target
    refused_of_parsed o rest (ok t) src first parsed h = (
      o,
      t,
      record {
        rest = rest;
        source = src;
        first = first;
        parsed = parsed;
        outside = refused_of_number o rest t src first parsed h;
      },
    )
    refused_of_parsed o rest (err e) src first parsed h =
        let same : e ≡ err_invalid_target = rw (src, first, parsed) at h in
        absurd (parser o.target (cc (parsed, same)))
    refused_of_parsed o rest panic src first parsed h = absurd (rw (src, first, parsed) at h)

    refused_of_objectives :
        (os : List ObjectivesSpec)
        → is_prometheus_source mrs ≡ true
        → mrs.slo.spec.objectives ≡ os
        → RefusedHere
        → IsRefused
    unfolding setup_rules
    refused_of_objectives [] src first h = absurd (rw (src, first) at h)
    refused_of_objectives (o ∷ rest) src first h =
        refused_of_parsed o rest (R.parse_float o.target) src first refl h

    -- Where the parser of floats does not itself return ErrInvalidTarget: `SetupRules` returns an
    -- error that wraps ErrInvalidTarget exactly if the metric source is supported and the target of
    -- the first objective is parsed as a float that is >= 1 or <= 0.
    pub setup_rules-Wraps_iff :
        Wraps err_invalid_target (setup_rules R cfg mrs)
        ↔ ((o : ObjectivesSpec) × (t : R.Float) × Refused o t)
    unfolding setup_rules parse_target validate_target
    setup_rules-Wraps_iff = (
      λ h. elim (Bool-cases (is_prometheus_source mrs)) [
        | inl src ↦ refused_of_objectives mrs.slo.spec.objectives src refl h
        | inr other ↦ absurd (rw other at h)
      ],
      λ (o, t, r). elim (Bool-cases (R.ge t R.one)) [
        | inl big ↦ rw (r.source, r.first, r.parsed, big) refl
        | inr less ↦ elim r.outside [
          | inl big ↦ absurd (cc (big, less))
          | inr small ↦ rw (r.source, r.first, r.parsed, less, small) refl
        ]
      ],
    )
