-- ===== src/SloController/Mimir.antt =====
-- The MimirRule of an SLO.
pub mod Tenancy
use osko.Prelude.{Bool, some, none, ◌⊎◌, inl, inr, [], if◌then◌else◌}
use osko.Errors.{GoError, api}
use osko.Api.Meta.{ObjectMeta, empty_meta}
use osko.Api.OpenSlo.{Slo}
use osko.Api.Monitoring.{PrometheusRule}
use osko.Api.Osko.{ConnectionDetails, Datasource, MimirRule}
use osko.Cluster.{Reply, found, failed, Operator}
use osko.Cluster.Steps.{
  pure, ◌>>=◌, ◌>>◌, call, fail_transient, finished, event, tested, is_not_found,
}
use osko.Mimir.{new_mimir_rule}
use osko.SloController.Fetch.{Act, update_slo_status, slo_event}
use osko.SloController.Rule.{key_of, ready_slo}

abbrev pub ready_mimir_rule : MimirRule → MimirRule
ready_mimir_rule rule = record rule { status = record rule.status { ready = "True" } }

abbrev no_details : ConnectionDetails
no_details = record {
  address = "";
  target_tenant = "";
  source_tenants = [];
  sync_prometheus_rules = Bool.false;
}

-- The zero MimirRule that a failed `Get` leaves behind.
abbrev pub empty_mimir_rule : MimirRule
empty_mimir_rule = record {
  meta = empty_meta;
  spec = record { connection_details = no_details; groups = [] };
  status = record { conditions = []; last_evaluation_time = 0; ready = "" };
}

module _ (O : Operator) where
  not_built : Reply Slo → Act O MimirRule
  not_built (failed e) = fail_transient (some (api e))
  not_built (found slo) = fail_transient none

  mimir_ready_reply : Reply MimirRule → Act O MimirRule
  mimir_ready_reply (failed e) = fail_transient (some (api e))
  mimir_ready_reply (found rule) = finished

  mimir_slo_reply : MimirRule → Reply Slo → Act O MimirRule
  unfolding mimir_ready_reply
  mimir_slo_reply rule (failed e) = fail_transient (some (api e))
  mimir_slo_reply rule (found slo) = do
    r ← call (O.client.mimir_rules.update_status (ready_mimir_rule rule))
    mimir_ready_reply r

  owned_mimir_reply : Slo → Reply MimirRule → Act O MimirRule
  unfolding mimir_slo_reply
  owned_mimir_reply slo (failed e) = fail_transient (some (api e))
  owned_mimir_reply slo (found rule) = do
    r ← call (O.client.slos.update_status (ready_slo slo))
    mimir_slo_reply rule r

  own_mimir : Slo → MimirRule → GoError ⊎ ObjectMeta → Act O MimirRule
  unfolding owned_mimir_reply
  own_mimir slo rule (inl e) = fail_transient (some e)
  own_mimir slo rule (inr m) = do
    r ← call (O.client.mimir_rules.update (record rule { meta = m }))
    owned_mimir_reply slo r

  -- Whatever becomes of the status updates, the error is that of the creation.
  unsaved_status : Slo → GoError → Reply Slo → Act O MimirRule
  unsaved_status slo e (found slo') = fail_transient (some e)
  unsaved_status slo e (failed f) = do
    update_slo_status O slo "Ready" "False" "Failed to create Mimir Rule"
    fail_transient (some e)

  unfoldable pub created_mimir_reply : Slo → Reply MimirRule → Act O MimirRule
  unfolding unsaved_status own_mimir
  created_mimir_reply slo (failed e) = do
    event O.has_recorder
        (slo_event slo "Warning" "FailedToCreateMimirRule" "Failed to create Mimir Rule")
    r ← call (O.client.slos.update_status slo)
    unsaved_status slo (api e) r
  created_mimir_reply slo (found rule) = do
    event O.has_recorder
        (slo_event slo "Normal" "MimirRuleCreated" "MimirRule created successfully")
    event O.has_recorder (record {
      regarding = rule.meta.name;
      kind = "Normal";
      reason = "MimirRuleCreated";
      message = "MimirRule created successfully";
    })
    m ← tested (O.util.set_owner_reference slo.meta "SLO" rule.meta)
    own_mimir slo rule m

  built_mimir : Slo → GoError ⊎ MimirRule → Act O MimirRule
  unfolding not_built created_mimir_reply
  built_mimir slo (inl e) = do
    r ← update_slo_status O slo "Ready" "False" "Failed to create Mimir Rule Object"
    not_built r
  built_mimir slo (inr rule) = do
    r ← call (O.client.mimir_rules.create rule)
    created_mimir_reply slo r

  -- As for the PrometheusRule, only IsNotFound is tested.
  unfoldable pub mimir_reply : Slo → PrometheusRule → Datasource → Reply MimirRule → Act O MimirRule
  unfolding built_mimir
  mimir_reply slo rule ds (found m) = pure m
  mimir_reply slo rule ds (failed e) =
      if is_not_found e
      then (do
        b ← tested (new_mimir_rule O.runtime slo rule ds.spec.connection_details)
        built_mimir slo b)
      else pure empty_mimir_rule

  unfoldable pub get_mimir_rule : Slo → PrometheusRule → Datasource → Act O MimirRule
  unfolding mimir_reply
  get_mimir_rule slo rule ds = do
    r ← call (O.client.mimir_rules.get (key_of slo))
    mimir_reply slo rule ds r
