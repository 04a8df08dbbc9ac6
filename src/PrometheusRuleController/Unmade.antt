-- ===== src/PrometheusRuleController/Unmade.antt =====
-- The branch of the reconciler that makes a missing PrometheusRule is never taken.
use osko.Prelude.{◌≡◌, refl, Option, some, none, arith}
use osko.Errors.{ApiError}
use osko.Api.Meta.{NamespacedName}
use osko.Api.OpenSlo.{Slo, Sli, Indicator}
use osko.Api.Monitoring.{PrometheusRule}
use osko.Cluster.{Operator}
use osko.Cluster.Steps.{World, Flow, next, stop, Step, continue, ◌>>=◌, ◌>>◌}
use osko.SloController.Fetch.{Act, update_slo_status}
use osko.PrometheusRuleController.Fetch.{
  fetch_rule, fetch_owner, check_managed, fetch_sli, find_sli,
}
use osko.PrometheusRuleController.Update.{create_missing, update_rule}
use osko.PrometheusRuleController.{reconcile_prometheus_rule, reconcile_rule, build_rule}

-- The value of `err` is nil.
abbrev NoError : {A : Type 0} → Option ApiError × A → Type 0
NoError r = r.0 ≡ none

-- What a step goes on with has the property.
abbrev Gives : {D A : Type 0} → (A → Type 0) → Flow D A → Type 0
Gives P (next a) = P a
Gives P (stop o) = Unit

continue-cong :
    {D S A B : Type 0} (P : A → Type 0) (f g : A → Step D S B) (r : Flow D A) (w : World S)
    → Gives P r
    → ((a : A) (v : World S) → P a → f a v ≡ g a v)
    → continue r f w ≡ continue r g w
continue-cong P f g (next a) w h same = same a w h
continue-cong P f g (stop o) w h same = refl

module _ (O : Operator) where
  -- The reconciler without the branch: a PrometheusRule that is there is made again, compared and
  -- replaced.
  unfoldable pub revise_rule : NamespacedName → PrometheusRule → Act O (Unit {0})
  revise_rule req rule = do
    slo ← fetch_owner O req rule.meta.owner_references
    check_managed O rule slo
    r ← fetch_sli O none slo
    update_rule O req (rule, slo) r.1

  unfoldable pub revise : NamespacedName → Act O (Unit {0})
  revise req = do r ← fetch_rule O req; revise_rule req r.1

  find_sli-Gives :
      (slo : Slo) (ref : Option _) (ind : Option Indicator) (w : World O.client.State)
      → Gives NoError (find_sli O none slo ref ind w).0
  unfolding find_sli update_slo_status
  find_sli-Gives slo (some ref) ind w = ground arith
  find_sli-Gives slo none (some ind) w = refl
  find_sli-Gives slo none none w = ground arith

  build_rule-eq :
      (req : NamespacedName) (rule : PrometheusRule) (slo : Slo) (r : Option ApiError × Sli)
      (w : World O.client.State)
      → NoError r
      → build_rule O req rule slo r w ≡ update_rule O req (rule, slo) r.1 w
  unfolding build_rule create_missing
  build_rule-eq req rule slo (none, sli) w h = refl
  build_rule-eq req rule slo (some e, sli) w h = ground (arith, h)

  from_sli-eq :
      (req : NamespacedName) (rule : PrometheusRule) (slo : Slo) (w : World O.client.State)
      → (fetch_sli O none slo >>= build_rule O req rule slo) w
        ≡ (fetch_sli O none slo >>= λ r. update_rule O req (rule, slo) r.1) w
  unfolding fetch_sli
  from_sli-eq req rule slo w =
      continue-cong NoError (build_rule O req rule slo) (λ r. update_rule O req (rule, slo) r.1)
        (fetch_sli O none slo w).0 (fetch_sli O none slo w).1
        (find_sli-Gives slo slo.spec.indicator_ref slo.spec.indicator w)
        (build_rule-eq req rule slo)

  anything : {A : Type 0} (r : Flow O.runtime.Duration A) → Gives (λ _. Unit {0}) r
  anything (next a) = tt
  anything (stop o) = tt

  reconcile_rule-eq :
      (req : NamespacedName) (r : Option ApiError × PrometheusRule) (w : World O.client.State)
      → NoError r
      → reconcile_rule O req r w ≡ revise_rule req r.1 w
  unfolding reconcile_rule revise_rule
  reconcile_rule-eq req (some e, rule) w h = ground (arith, h)
  reconcile_rule-eq req (none, rule) w h =
      continue-cong (λ _. Unit) _ _ (fetch_owner O req rule.meta.owner_references w).0 _
        (anything _)
        λ slo v i.
          continue-cong (λ _. Unit) _ _ (check_managed O rule slo v).0 _ (anything _)
            λ _ u j. from_sli-eq req rule slo u

  fetch_rule-Gives :
      (req : NamespacedName) (w : World O.client.State) → Gives NoError (fetch_rule O req w).0
  unfolding fetch_rule
  fetch_rule-Gives req w = ground arith

  -- The reconciler does what it does without the branch that creates a PrometheusRule, whatever
  -- the server answers: the error that the branch tests is always nil.
  pub reconcile_prometheus_rule-eq :
      (req : NamespacedName) (w : World O.client.State)
      → reconcile_prometheus_rule O req w ≡ revise req w
  unfolding reconcile_prometheus_rule revise
  reconcile_prometheus_rule-eq req w =
      continue-cong NoError (reconcile_rule O req) (λ r. revise_rule req r.1) (fetch_rule O req w).0
        (fetch_rule O req w).1 (fetch_rule-Gives req w) (reconcile_rule-eq req)
