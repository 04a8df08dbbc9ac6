-- ===== src/PrometheusRuleController/Laws.antt =====
-- What the reconciler of PrometheusRules does with a rule that no SLO owns, with an SLI that is
-- missing, and with a rule that it has made before.
use osko.Status.{update_condition, new_condition}
use osko.Prelude.{
  Bool, ℕ, ◌≡◌, refl, ◌⊎◌, true, false, some, none, List, [], ◌∷◌, ◌==◌, Bool-cases, inl, inr,
  arith, All, if◌then◌else◌, String,
}
use osko.Equal.{maps_equal, within}
use osko.Errors.{ApiError, GoError, ok, err, panic, Result, api}
use osko.Api.Meta.{OwnerReference, NamespacedName}
use osko.Api.OpenSlo.{Slo, Sli, empty_slo}
use osko.Api.Monitoring.{PrometheusRule}
use osko.Cluster.{
  Reply, found, failed, Operator, Outcome, returned, returned_error, plain, done, panicked,
}
use osko.Cluster.Steps.{World, next, stop, tested, fail, ◌>>=◌}
use osko.Rules.Build.{create_prometheus_rule}
use osko.SloController.Fetch.{Act, update_slo_status}
use osko.PrometheusRuleController.Equal.{
  prometheus_rules_equal, meta_equal, is_empty_slo, is_empty_spec, is_empty_status,
}
use osko.PrometheusRuleController.Fetch.{
  fetch_rule, fetch_slo, fetch_owner, check_managed, fetch_sli, find_sli, unmanaged,
}
use osko.PrometheusRuleController.Update.{update_rule, replace_rule, compare_rule}
use osko.PrometheusRuleController.{reconcile_prometheus_rule, reconcile_rule}

-- An owner that is not an SLO.
abbrev pub OtherOwner : OwnerReference → Type 0
OtherOwner ref = (ref.kind == "SLO") ≡ false

-- What the reconciler returns after the status update of an SLO that has no usable SLI.
abbrev pub status_outcome : {D : Type 0} → Reply Slo → Outcome D
status_outcome (found slo) = returned done
status_outcome (failed e) = returned_error (plain (api e))

-- The SLO as it is written where its SLI is missing.
abbrev pub without_sli : ℕ → Slo → Slo
without_sli now slo = record slo {
  status = record slo.status {
    conditions =
        update_condition now slo.status.conditions
          (new_condition now "Ready" "False" "SLI Object not found");
    ready = "False";
  };
}

-- How the call ends after the status of an SLO that has no SLI was written.
abbrev pub unnamed_outcome : {D : Type 0} → Bool → Reply Slo → Outcome D
unnamed_outcome recorded (found slo) = returned done
unnamed_outcome recorded (failed e) = if recorded then returned done else panicked

module _ (O : Operator) where
  fetch_owner-of_unowned :
      (req : NamespacedName) (refs : List OwnerReference) (w : World O.client.State)
      → All OtherOwner refs
      → fetch_owner O req refs w ≡ (next empty_slo, w)
  unfolding fetch_owner
  fetch_owner-of_unowned req [] w h = refl
  fetch_owner-of_unowned req (ref ∷ refs) w (other, h) =
      rw other (fetch_owner-of_unowned req refs w h)

  -- A PrometheusRule that has no SLO among its owners is not written, whether the label
  -- osko.dev/manage says "true" or not: without it nothing more is done, and with it the status of
  -- an SLO without a name is written. The call ends without an error, but that it faults where the
  -- label says "true", that write is refused, and the reconciler has no recorder.
  pub reconcile_of_unowned :
      (req : NamespacedName) (w : World O.client.State) (rule : PrometheusRule) (s : O.client.State)
      → O.client.prometheus_rules.get req w.cluster ≡ (found rule, s)
      → All OtherOwner rule.meta.owner_references
      → let r = O.client.slos.update_status (without_sli (O.client.now s) empty_slo) s in
        ((reconcile_prometheus_rule O req w).0
          ≡ stop (
              if unmanaged rule.meta.labels
              then returned done
              else unnamed_outcome O.has_recorder r.0))
        × ((reconcile_prometheus_rule O req w).1.cluster
            ≡ (if unmanaged rule.meta.labels then s else r.1))
  unfolding reconcile_prometheus_rule fetch_rule reconcile_rule check_managed fetch_sli find_sli
      update_slo_status is_empty_slo is_empty_spec is_empty_status meta_equal maps_equal within
  reconcile_of_unowned req w rule s h unowned =
      rw
        (
          h,
          fetch_owner-of_unowned req rule.meta.owner_references (record w { cluster = s }) unowned,
        )
        (elim (Bool-cases (unmanaged rule.meta.labels)) [
          | inl un ↦ rw un (refl, refl)
          | inr managed ↦ rw managed (elim (Bool-cases O.has_recorder) [
            | inl recorded ↦ rw recorded (ground arith)
            | inr bare ↦ rw bare (ground arith)
          ])
        ])

  -- Where the SLI that an SLO names cannot be read, whatever the error, the status of the SLO is
  -- written, and the call ends without an error, unless that of the status update.
  pub reconcile_of_unread_sli :
      (req : NamespacedName) (w : World O.client.State) (rule : PrometheusRule)
      (owner : OwnerReference) (refs : List OwnerReference) (slo : Slo) (ref : String)
      (e : ApiError) (s t u : O.client.State)
      → O.client.prometheus_rules.get req w.cluster ≡ (found rule, s)
      → rule.meta.owner_references ≡ owner ∷ refs
      → (owner.kind == "SLO") ≡ true
      → O.client.slos.get (record { name = owner.name; namespace = req.namespace }) s
        ≡ (found slo, t)
      → is_empty_slo slo ≡ false
      → slo.spec.indicator_ref ≡ some ref
      → O.client.slis.get (record { name = ref; namespace = slo.meta.namespace }) t ≡ (failed e, u)
      → let r = O.client.slos.update_status (without_sli (O.client.now u) slo) u in
        reconcile_prometheus_rule O req w ≡ (stop (status_outcome r.0), record w { cluster = r.1 })
  unfolding reconcile_prometheus_rule fetch_rule fetch_slo fetch_owner reconcile_rule check_managed
      fetch_sli find_sli update_slo_status
  reconcile_of_unread_sli req w rule owner refs slo ref e s t u h owners owns got not_empty named
        unread =
      ground (arith, h, owners, owns, got, not_empty, named, unread)

  create_prometheus_rule-version :
      (slo : Slo) (sli : Sli) (new : PrometheusRule)
      → create_prometheus_rule O.runtime O.config slo sli ≡ ok new
      → new.meta.resource_version ≡ ""
  unfolding create_prometheus_rule
  create_prometheus_rule-version slo sli new made = ground (arith, made)

  prometheus_rules_equal-of_version :
      (a b : PrometheusRule)
      → (a.meta.resource_version == b.meta.resource_version) ≡ false
      → prometheus_rules_equal a b ≡ false
  unfolding prometheus_rules_equal meta_equal
  prometheus_rules_equal-of_version a b other = rw other (ground arith)

  -- What follows the construction of the new rule, where the comparison is left out.
  abbrev pub replace_made :
      NamespacedName → PrometheusRule → Slo → GoError ⊎ PrometheusRule → Act O (Unit {0})
  replace_made req rule slo (inl e) = fail e
  replace_made req rule slo (inr new) = replace_rule O req rule new slo

  compare_rule-eq :
      (req : NamespacedName) (rule : PrometheusRule) (slo : Slo) (sli : Sli)
      (r : Result PrometheusRule) (w : World O.client.State)
      → create_prometheus_rule O.runtime O.config slo sli ≡ r
      → (rule.meta.resource_version == "") ≡ false
      → (tested r >>= compare_rule O req rule slo) w ≡ (tested r >>= replace_made req rule slo) w
  unfolding compare_rule
  compare_rule-eq req rule slo sli (ok new) w made stored =
      rw
        (prometheus_rules_equal-of_version rule new
          (rw (create_prometheus_rule-version slo sli new made) stored))
        refl
  compare_rule-eq req rule slo sli (err e) w made stored = refl
  compare_rule-eq req rule slo sli panic w made stored = refl

  -- A PrometheusRule that the server has given a resource version is written again by every call
  -- that makes its new version, whatever the two hold: the comparison never finds them equal.
  pub update_rule-eq :
      (req : NamespacedName) (rule : PrometheusRule) (slo : Slo) (sli : Sli)
      (w : World O.client.State)
      → (rule.meta.resource_version == "") ≡ false
      → update_rule O req (rule, slo) sli w
        ≡ (tested (create_prometheus_rule O.runtime O.config slo sli) >>= replace_made req rule slo)
            w
  unfolding update_rule
  update_rule-eq req rule slo sli w stored =
      compare_rule-eq req rule slo sli (create_prometheus_rule O.runtime O.config slo sli) w refl
        stored

  -- Where the reconciler has no recorder, the SLO has neither an SLI nor an indicator, and the
  -- update of its status fails, the call ends by a fault.
  pub reconcile_without_recorder :
      (req : NamespacedName) (w : World O.client.State) (rule : PrometheusRule)
      (owner : OwnerReference) (refs : List OwnerReference) (slo : Slo) (e : ApiError)
      (s t u : O.client.State)
      → O.has_recorder ≡ false
      → O.client.prometheus_rules.get req w.cluster ≡ (found rule, s)
      → rule.meta.owner_references ≡ owner ∷ refs
      → (owner.kind == "SLO") ≡ true
      → O.client.slos.get (record { name = owner.name; namespace = req.namespace }) s
        ≡ (found slo, t)
      → is_empty_slo slo ≡ false
      → slo.spec.indicator_ref ≡ none
      → slo.spec.indicator ≡ none
      → O.client.slos.update_status (without_sli (O.client.now t) slo) t ≡ (failed e, u)
      → (reconcile_prometheus_rule O req w).0 ≡ stop panicked
  unfolding reconcile_prometheus_rule fetch_rule fetch_slo fetch_owner reconcile_rule check_managed
      fetch_sli find_sli update_slo_status
  reconcile_without_recorder req w rule owner refs slo e s t u bare h owners owns got not_empty
        no_ref no_indicator refused =
      ground (arith, bare, h, owners, owns, got, not_empty, no_ref, no_indicator, refused)
