-- ===== src/SloController/Converges/Rules.antt =====
-- What the reconciler does from the PrometheusRule on, phase by phase.
use osko.Prelude.{◌≡◌, ◌∙◌, refl, []}
use osko.Errors.{ok}
use osko.Rules.Build.Meta.{meta-create_prometheus_rule}
use osko.Status.{update_condition, new_condition}
use osko.Api.Meta.{NamespacedName}
use osko.Api.OpenSlo.{Slo, Sli}
use osko.Api.Monitoring.{PrometheusRule}
use osko.Api.Osko.{Datasource, MimirRule}
use osko.Cluster.{Operator, CtrlResult, returned, done}
use osko.Cluster.Steps.{World, Flow, stop}
use osko.Mimir.{new_mimir_rule, new_mimir_rule_groups, mimir_groups}
use osko.Rules.Build.{create_prometheus_rule, owned_meta, slo_group_version}
use osko.SloController.Fetch.{update_slo_status}
use osko.SloController.Rule.{
  get_prometheus_rule, rule_reply, built_rule, created_rule_reply, ready_slo,
}
use osko.SloController.Mimir.{get_mimir_rule, mimir_reply, created_mimir_reply, ready_mimir_rule}
use osko.SloController.Alerting.{magic_alerting}
use osko.SloController.Phases.{Phase, held, ruled, mirrored, Quiet, Named}
use osko.SloController.{reconcile_rules, complete}

module _ (O : Operator) where
  -- The call ends without an error, in a state with the property.
  abbrev pub Ends :
      (O.client.State → Type 0) → Flow O.runtime.Duration (Unit {0}) × World O.client.State → Type 0
  Ends Q r = (c : CtrlResult O.runtime.Duration) × (r.0 ≡ stop (returned c)) × Q r.1.cluster

module _ (O : Operator) (req : NamespacedName) (S : Quiet O req) where
  complete-Ends :
      (p : Phase) (slo : Slo) (w : World O.client.State)
      → S.At p w.cluster
      → Ends O (S.At p) (complete O slo w)
  unfolding complete update_slo_status
  complete-Ends p slo w at =
      let now = O.client.now w.cluster in
      let (a, t, e, at') =
        S.write_status p w.cluster
          (record slo {
            status = record slo.status {
              conditions =
                  update_condition now slo.status.conditions
                    (new_condition now "Ready" "True" "PrometheusRule created");
              ready = "True";
            };
          })
          at in
      rw e (done, refl, at')

  pub rules-mirrored :
      (slo : Slo) (ds : Datasource) (sli : Sli) (w : World O.client.State)
      → S.At mirrored w.cluster
      → S.Current mirrored slo
      → Ends O (S.At mirrored) (reconcile_rules O slo ds sli w)
  unfolding reconcile_rules get_prometheus_rule rule_reply get_mimir_rule mimir_reply magic_alerting
  rules-mirrored slo ds sli w at current =
      let (rule, t, e, at') = S.get_rule_mirrored w.cluster slo at current in
      let (m, u, e', at'') = S.get_mimir_rule t slo at' current in
      rw (e, e', S.unalerted mirrored slo current)
        (complete-Ends mirrored slo (record w { cluster = u }) at'')

  pub rules-ruled :
      (slo : Slo) (ds : Datasource) (sli : Sli) (w : World O.client.State)
      → S.At ruled w.cluster
      → S.Current ruled slo
      → Ends O (S.At mirrored) (reconcile_rules O slo ds sli w)
  unfolding reconcile_rules get_prometheus_rule rule_reply get_mimir_rule mimir_reply new_mimir_rule
      new_mimir_rule_groups created_mimir_reply
  rules-ruled slo ds sli w at current =
      let (rule, t1, e1, under, at1) = S.get_rule_ruled w.cluster slo at current in
      let (m, t2, e2, gone, at2) = S.no_mimir_rule t1 slo at1 current in
      let new = made slo rule ds in
      let (mimir, t3, e3, stored, at3) = S.create_mimir_rule t2 slo new at2 current under in
      let (meta, e4, name, namespace) = S.owned slo mimir.meta in
      let (kept, t5, e5, at5) =
        S.update_mimir_rule t3 slo (record mimir { meta = meta }) at3 current
          (name ∙ stored.0, namespace ∙ stored.1) in
      let (slo', t6, e6, at6) = S.write_status mirrored t5 (ready_slo slo) at5 in
      let (kept', t7, e7, at7) = S.write_mimir_status t6 (ready_mimir_rule kept) at6 in
      rw (S.recorded, e1, e2, gone, e3, e4, e5, e6, e7) (done, refl, at7)
    where
      made : Slo → PrometheusRule → Datasource → MimirRule
      made slo rule ds = record {
        meta = owned_meta (O.runtime.new_controller_ref slo.meta slo_group_version "SLO") rule.meta;
        spec = record {
          connection_details = ds.spec.connection_details;
          groups = mimir_groups O.runtime rule.groups ds.spec.connection_details;
        };
        status = record { conditions = []; last_evaluation_time = 0; ready = "" };
      }

  Named-rule :
      (slo : Slo) (sli : Sli) (rule : PrometheusRule)
      → create_prometheus_rule O.runtime O.config slo sli ≡ ok rule
      → Named slo rule.meta
  Named-rule slo sli rule made =
      rw (meta-create_prometheus_rule O.runtime O.config slo sli rule made) (refl, refl)

  pub rules-held :
      (slo : Slo) (ds : Datasource) (sli : Sli) (w : World O.client.State)
      → S.At held w.cluster
      → S.Current held slo
      → S.Source sli
      → Ends O (S.At ruled) (reconcile_rules O slo ds sli w)
  unfolding reconcile_rules get_prometheus_rule rule_reply built_rule created_rule_reply
  rules-held slo ds sli w at current source =
      let (m, t1, e1, gone, at1) = S.no_rule w.cluster slo at current in
      let (new, e2) = S.buildable held slo sli current source in
      let (rule, t3, e3, stored, at3) =
        S.create_rule t1 slo new at1 current (Named-rule slo sli new e2) in
      let (meta, e4, name, namespace) = S.owned slo rule.meta in
      let (kept, t5, e5, at5) =
        S.update_rule t3 slo (record rule { meta = meta }) at3 current
          (name ∙ stored.0, namespace ∙ stored.1) in
      let (slo', t6, e6, at6) = S.write_status ruled t5 (ready_slo slo) at5 in
      rw (S.recorded, e1, gone, e2, e3, e4, e5, e6) (done, refl, at6)
