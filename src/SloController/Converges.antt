-- ===== src/SloController/Converges.antt =====
-- One call of the reconciler moves the resources of an SLO on by one phase.
mod Rules
pub use Rules.{Ends}
use Rules.{rules-mirrored, rules-ruled, rules-held}
use osko.Prelude.{
  ℕ, zero, suc, ◌≤◌, ◌≡◌, refl, sym, ◌∙◌, String, Bool, true, false, Option, some, none, ◌==◌,
  arith, [],
}
use mathlib.Core.Path.{subst}
use osko.Status.{update_condition, new_condition}
use osko.Errors.{ApiError, Result, ok}
use osko.Map.{get}
use osko.Api.Meta.{ObjectMeta, NamespacedName}
use osko.Api.OpenSlo.{Slo, Sli}
use osko.Api.Monitoring.{PrometheusRule}
use osko.Api.Osko.{Datasource, MimirRule}
use osko.Cluster.{Reply, found, failed, Operator, CtrlResult, returned, done, requeue}
use osko.Cluster.Steps.{World, Flow, next, stop, is_not_found}
use osko.Mimir.{new_mimir_rule, new_mimir_rule_groups, mimir_groups}
use osko.Rules.Build.{create_prometheus_rule, owned_meta, slo_group_version}
use osko.SloController.Fetch.{
  get_slo, handle_deletion, ensure_finalizer, get_datasource, update_slo_status, slo_finalizer,
  datasource_ref,
}
use osko.SloController.Indicator.{get_sli}
use osko.SloController.Rule.{
  get_prometheus_rule, rule_reply, built_rule, created_rule_reply, key_of, ready_slo,
}
use osko.SloController.Mimir.{get_mimir_rule, mimir_reply, created_mimir_reply, ready_mimir_rule}
use osko.SloController.Alerting.{magic_alerting}
use osko.SloController.Phases.{
  Phase, bare, held, ruled, mirrored, advance, distance, has_finalizer, Quiet, Answers,
}
use osko.SloController.{reconcile, reconcile_live, reconcile_rules, complete}

module _ (O : Operator) (req : NamespacedName) where
  -- The reconciler, called a number of times.
  abbrev pub calls : ℕ → World O.client.State → World O.client.State
  calls zero w = w
  calls (suc n) w = calls n (reconcile O req w).1

module _ (O : Operator) (req : NamespacedName) (S : Quiet O req) where
  handle_deletion-of_live :
      (slo : Slo) (w : World O.client.State)
      → slo.meta.deletion_timestamp ≡ none
      → handle_deletion O slo w ≡ (next slo, w)
  unfolding handle_deletion
  handle_deletion-of_live slo w live = ground (arith, live)

  ensure_finalizer-of_held :
      (slo : Slo) (w : World O.client.State)
      → O.util.contains_finalizer slo.meta slo_finalizer ≡ true
      → ensure_finalizer O slo w ≡ (next slo, w)
  unfolding ensure_finalizer
  ensure_finalizer-of_held slo w holds = ground (arith, holds)

  get_sli-of_found :
      (slo : Slo) (ref : String) (sli : Sli) (t : O.client.State) (w : World O.client.State)
      → slo.spec.indicator_ref ≡ some ref
      → O.client.slis.get (record { name = ref; namespace = slo.meta.namespace }) w.cluster
        ≡ (found sli, t)
      → get_sli O slo w ≡ (next sli, record w { cluster = t })
  unfolding get_sli
  get_sli-of_found slo ref sli t w named e = ground (arith, named, e)

  -- From the SLO on, once it has the finalizer.
  from_rules :
      (p : Phase) (Q : O.client.State → Type 0) (w : World O.client.State)
      → has_finalizer p ≡ true
      → ((slo : Slo) (ds : Datasource) (sli : Sli) (v : World O.client.State)
          → S.At p v.cluster
          → S.Current p slo
          → S.Source sli
          → Ends O Q (reconcile_rules O slo ds sli v))
      → S.At p w.cluster
      → Ends O Q (reconcile O req w)
  unfolding reconcile get_slo reconcile_live get_datasource
  from_rules p Q w holds rules at =
      let (slo, t1, e1, current, at1) = S.get_slo p w.cluster at in
      let (ds, t2, e2, at2) = S.get_datasource p t1 slo at1 current in
      let (ref, named, sli, t3, e3, source, at3) = S.get_sli p t2 slo at2 current in
      let v = record w { cluster = t1 } in
      rw
        (
          e1,
          handle_deletion-of_live slo v (S.live p slo current),
          ensure_finalizer-of_held slo v (S.finalizer p slo current ∙ holds),
          e2,
          get_sli-of_found slo ref sli t3 (record w { cluster = t2 }) named e3,
        )
        (rules slo ds sli (record w { cluster = t3 }) at3 current source)

  ensure_finalizer-of_bare :
      (slo kept : Slo) (t : O.client.State) (w : World O.client.State)
      → O.util.contains_finalizer slo.meta slo_finalizer ≡ false
      → O.client.slos.update
          (record slo { meta = O.util.add_finalizer slo.meta slo_finalizer })
          w.cluster
        ≡ (found kept, t)
      → ensure_finalizer O slo w ≡ (stop (returned requeue), record w { cluster = t })
  unfolding ensure_finalizer
  ensure_finalizer-of_bare slo kept t w lacks e = ground (arith, lacks, e)

  reconcile-bare :
      (w : World O.client.State) → S.At bare w.cluster → Ends O (S.At held) (reconcile O req w)
  unfolding reconcile get_slo
  reconcile-bare w at =
      let (slo, t1, e1, current, at1) = S.get_slo bare w.cluster at in
      let (kept, t2, e2, at2) = S.hold t1 slo at1 current in
      let v = record w { cluster = t1 } in
      rw
        (
          e1,
          handle_deletion-of_live slo v (S.live bare slo current),
          ensure_finalizer-of_bare slo kept t2 v (S.finalizer bare slo current) e2,
        )
        (requeue, refl, at2)

  -- With a server that refuses no request, for an SLO that lives, names an SLI from which a rule
  -- can be made, and asks for no alerting (`Quiet`): one call of the reconciler ends without an
  -- error and moves the resources of the SLO to the next phase. An SLO without the finalizer gets
  -- it, then it gets its PrometheusRule, then its MimirRule, and then they stay as they are.
  pub reconcile-advances :
      (p : Phase) (w : World O.client.State)
      → S.At p w.cluster
      → Ends O (S.At (advance p)) (reconcile O req w)
  unfolding advance
  reconcile-advances bare w at = reconcile-bare w at
  reconcile-advances held w at = from_rules held (S.At ruled) w refl (rules-held O req S) at
  reconcile-advances ruled w at =
      from_rules ruled (S.At mirrored) w refl
        (λ slo ds sli v h current source. rules-ruled O req S slo ds sli v h current) at
  reconcile-advances mirrored w at =
      from_rules mirrored (S.At mirrored) w refl
        (λ slo ds sli v h current source. rules-mirrored O req S slo ds sli v h current) at

  distance-advance : (p : Phase) (n : ℕ) → distance p ≤ suc n → distance (advance p) ≤ n
  unfolding advance
  distance-advance bare n h = omega (arith, h)
  distance-advance held n h = omega (arith, h)
  distance-advance ruled n h = omega (arith, h)
  distance-advance mirrored n h = omega (arith, h)

  distance-eq-zero : (p : Phase) → distance p ≤ 0 → p ≡ mirrored
  distance-eq-zero bare h = absurd (omega (arith, h))
  distance-eq-zero held h = absurd (omega (arith, h))
  distance-eq-zero ruled h = absurd (omega (arith, h))
  distance-eq-zero mirrored h = refl

  -- With such a server (`Quiet`), the calls that are left in a phase, at most three, and any
  -- further ones bring the resources of the SLO to the last phase.
  pub calls-converge :
      (n : ℕ) (p : Phase) (w : World O.client.State)
      → distance p ≤ n
      → S.At p w.cluster
      → S.At mirrored (calls O req n w).cluster
  calls-converge zero p w h at = subst (λ (q : Phase). S.At q w.cluster) (distance-eq-zero p h) at
  calls-converge (suc n) p w h at =
      calls-converge n (advance p) (reconcile O req w).1 (distance-advance p n h)
        (reconcile-advances p w at).2
