-- ===== src/SloController/Safety.antt =====
-- The phases of `Reconcile` do not fault.
use osko.Prelude.{
  String, ◌≡◌, ◌≢◌, refl, true, Option, some, none, ◌⊎◌, inl, inr, arith, Bool-cases,
}
use osko.Errors.{GoError, panic}
use osko.Api.Meta.{ObjectMeta, NamespacedName}
use osko.Api.OpenSlo.{Slo, Sli, Indicator}
use osko.Api.Monitoring.{PrometheusRule}
use osko.Api.Osko.{Datasource, MimirRule}
use osko.Cluster.{Reply, found, failed, Operator}
use osko.Cluster.Steps.{World, is_not_found, call, tested, ◌>>=◌, ◌>>◌}
use osko.SloController.Fetch.{
  get_slo, handle_deletion, ensure_finalizer, get_datasource, update_slo_status,
}
use osko.SloController.Indicator.{
  get_sli, choose_sli, inline_sli, create_or_update_inline_sli, new_inline_sli,
}
use osko.SloController.Rule.{
  get_prometheus_rule, rule_reply, built_rule, created_rule_reply, key_of,
}
use osko.Rules.Build.{create_prometheus_rule}
use osko.SloController.Mimir.{get_mimir_rule, mimir_reply, created_mimir_reply}
use osko.SloController.Alerting.{magic_alerting, create_alert_manager_config}
use osko.Mimir.{new_mimir_rule, new_mimir_rule_groups}
use osko.SloController.{complete, reconcile_rules, reconcile_live}
use osko.Cluster.Safety.{Any, Never, Safe, Safe-bind, tested-Safe}

module _ (O : Operator) where
  get_datasource-Safe : (slo : Slo) (w : World O.client.State) → Safe Any (get_datasource O slo w).0
  unfolding get_datasource
  get_datasource-Safe slo w = ground arith

  complete-Safe : (slo : Slo) (w : World O.client.State) → Safe Never (complete O slo w).0
  unfolding complete update_slo_status
  complete-Safe slo w = ground arith

  pub handle_deletion-Safe :
      (slo : Slo) (w : World O.client.State) → Safe (λ s. s ≡ slo) (handle_deletion O slo w).0
  unfolding handle_deletion
  handle_deletion-Safe slo w = ground arith

  pub ensure_finalizer-Safe :
      (slo : Slo) (w : World O.client.State) → Safe (λ s. s ≡ slo) (ensure_finalizer O slo w).0
  unfolding ensure_finalizer
  ensure_finalizer-Safe slo w = ground arith

  pub get_slo-Safe :
      (P : Slo → Type 0) (req : NamespacedName) (w : World O.client.State)
      → ((slo : Slo) (s : O.client.State)
          → O.client.slos.get req w.cluster ≡ (found slo, s)
          → P slo)
      → Safe P (get_slo O req w).0
  unfolding get_slo
  get_slo-Safe P req w served = by_reply (O.client.slos.get req w.cluster) refl
    where
      by_reply :
          (p : Reply Slo × O.client.State)
          → O.client.slos.get req w.cluster ≡ p
          → Safe P (get_slo O req w).0
      by_reply (found slo, s) e = unfold get_slo in rw e (served slo s e)
      by_reply (failed m, s) e = unfold get_slo in rw e (ground (arith, is_not_found m))

  module _ (recorded : O.has_recorder ≡ true)
      (owner : (a : ObjectMeta) (kind : String) (m : ObjectMeta)
        → O.util.set_owner_reference a kind m ≢ panic) where
    inline-Safe :
        (slo : Slo) (ind : Indicator) (w : World O.client.State)
        → Safe Any (create_or_update_inline_sli O slo ind w).0
    unfolding create_or_update_inline_sli
    inline-Safe slo ind w = ground (arith, owner slo.meta "SLO" (new_inline_sli slo ind).meta)

    created_mimir-Safe :
        (slo : Slo) (r : Reply MimirRule) (w : World O.client.State)
        → Safe Any (created_mimir_reply O slo r w).0
    unfolding created_mimir_reply update_slo_status
    created_mimir-Safe slo (found m) w = ground (arith, owner slo.meta "SLO" m.meta)
    created_mimir-Safe slo (failed e) w = rw recorded (ground arith)

    mimir_reply-Safe :
        (slo : Slo) (rule : PrometheusRule) (ds : Datasource) (r : Reply MimirRule)
        (w : World O.client.State)
        → Safe Any (mimir_reply O slo rule ds r w).0
    unfolding mimir_reply new_mimir_rule new_mimir_rule_groups
    mimir_reply-Safe slo rule ds (found m) w = tt
    mimir_reply-Safe slo rule ds (failed e) w = elim (Bool-cases (is_not_found e)) [
      | inl gone ↦ rw gone (
          Safe-bind Any Any (call (O.client.mimir_rules.create _)) (created_mimir_reply O slo) w tt
            λ r v h. created_mimir-Safe slo r v)
      | inr other ↦ rw other tt
    ]

    get_mimir_rule-Safe :
        (slo : Slo) (rule : PrometheusRule) (ds : Datasource) (w : World O.client.State)
        → Safe Any (get_mimir_rule O slo rule ds w).0
    unfolding get_mimir_rule
    get_mimir_rule-Safe slo rule ds w =
        Safe-bind Any Any (call (O.client.mimir_rules.get (key_of slo))) (mimir_reply O slo rule ds)
          w tt λ r v h. mimir_reply-Safe slo rule ds r v

    created_rule-Safe :
        (slo : Slo) (sent : PrometheusRule) (r : Reply PrometheusRule) (w : World O.client.State)
        → Safe Any (created_rule_reply O slo sent r w).0
    unfolding created_rule_reply update_slo_status
    created_rule-Safe slo sent (found m) w = ground (arith, owner slo.meta "SLO" m.meta)
    created_rule-Safe slo sent (failed e) w = rw recorded (ground arith)

    built_rule-Safe :
        (slo : Slo) (b : GoError ⊎ PrometheusRule) (w : World O.client.State)
        → Safe Any (built_rule O slo b w).0
    unfolding built_rule update_slo_status
    built_rule-Safe slo (inl e) w = rw recorded (ground arith)
    built_rule-Safe slo (inr rule) w =
        Safe-bind Any Any (call (O.client.prometheus_rules.create rule))
          (created_rule_reply O slo rule) w tt λ r v h. created_rule-Safe slo rule r v

    rule_reply-Safe :
        (slo : Slo) (sli : Sli) (r : Reply PrometheusRule) (w : World O.client.State)
        → create_prometheus_rule O.runtime O.config slo sli ≢ panic
        → Safe Any (rule_reply O slo sli r w).0
    unfolding rule_reply
    rule_reply-Safe slo sli (found m) w calm = tt
    rule_reply-Safe slo sli (failed e) w calm = elim (Bool-cases (is_not_found e)) [
      | inl gone ↦ rw gone (
          Safe-bind Any Any (tested (create_prometheus_rule O.runtime O.config slo sli))
            (built_rule O slo) w
            (tested-Safe O.runtime.Duration (create_prometheus_rule O.runtime O.config slo sli) w
              calm)
            λ b v h. built_rule-Safe slo b v)
      | inr other ↦ rw other tt
    ]

    get_prometheus_rule-Safe :
        (slo : Slo) (sli : Sli) (w : World O.client.State)
        → create_prometheus_rule O.runtime O.config slo sli ≢ panic
        → Safe Any (get_prometheus_rule O slo sli w).0
    unfolding get_prometheus_rule
    get_prometheus_rule-Safe slo sli w calm =
        Safe-bind Any Any (call (O.client.prometheus_rules.get (key_of slo))) (rule_reply O slo sli)
          w tt λ r v h. rule_reply-Safe slo sli r v calm

    inline_sli-Safe :
        (slo : Slo) (r : GoError ⊎ Sli) (w : World O.client.State)
        → Safe Any (inline_sli O slo r w).0
    unfolding inline_sli update_slo_status
    inline_sli-Safe slo r w = ground arith

    choose_sli-Safe :
        (slo : Slo) (ref : Option String) (ind : Option Indicator) (w : World O.client.State)
        → Safe Any (choose_sli O slo ref ind w).0
    unfolding choose_sli update_slo_status
    choose_sli-Safe slo (some ref) ind w = ground arith
    choose_sli-Safe slo none (some ind) w =
        Safe-bind Any Any (create_or_update_inline_sli O slo ind) (inline_sli O slo) w
          (inline-Safe slo ind w) λ r v h. inline_sli-Safe slo r v
    choose_sli-Safe slo none none w = rw recorded (ground arith)

    get_sli-Safe : (slo : Slo) (w : World O.client.State) → Safe Any (get_sli O slo w).0
    unfolding get_sli
    get_sli-Safe slo w = choose_sli-Safe slo slo.spec.indicator_ref slo.spec.indicator w

    magic_alerting-Safe :
        (slo : Slo) (ds : Datasource) (w : World O.client.State)
        → Safe Any (magic_alerting O slo ds w).0
    unfolding magic_alerting create_alert_manager_config
    magic_alerting-Safe slo ds w = grind (arith, owner slo.meta "SLO")

    rules-Safe :
        (slo : Slo) (ds : Datasource) (sli : Sli) (w : World O.client.State)
        → create_prometheus_rule O.runtime O.config slo sli ≢ panic
        → Safe Never (reconcile_rules O slo ds sli w).0
    unfolding reconcile_rules
    rules-Safe slo ds sli w calm =
        Safe-bind Any Never (get_prometheus_rule O slo sli)
          (λ rule. get_mimir_rule O slo rule ds >> (magic_alerting O slo ds >> complete O slo)) w
          (get_prometheus_rule-Safe slo sli w calm)
          λ rule v h.
            Safe-bind Any Never (get_mimir_rule O slo rule ds)
              (λ m. magic_alerting O slo ds >> complete O slo) v (get_mimir_rule-Safe slo rule ds v)
              λ m u i.
                Safe-bind Any Never (magic_alerting O slo ds) (λ _. complete O slo) u
                  (magic_alerting-Safe slo ds u) λ _ x j. complete-Safe slo x

    pub live-Safe :
        (slo : Slo) (w : World O.client.State)
        → ((sli : Sli) → create_prometheus_rule O.runtime O.config slo sli ≢ panic)
        → Safe Never (reconcile_live O slo w).0
    unfolding reconcile_live
    live-Safe slo w calm =
        Safe-bind Any Never (get_datasource O slo)
          (λ ds. get_sli O slo >>= λ sli. reconcile_rules O slo ds sli) w
          (get_datasource-Safe slo w)
          λ ds v h.
            Safe-bind Any Never (get_sli O slo) (λ sli. reconcile_rules O slo ds sli) v
              (get_sli-Safe slo v) λ sli u i. rules-Safe slo ds sli u (calm sli)
