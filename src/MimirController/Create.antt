-- ===== src/MimirController/Create.antt =====
-- The branch of the reconciler of MimirRules that makes a missing MimirRule.
pub mod Tenancy
use osko.Prelude.{Bool, false, Option, some, none, ◌⊎◌, inl, inr, if◌then◌else◌}
use osko.Errors.{ApiError, GoError, api, text, wrapped}
use osko.Api.Meta.{NamespacedName}
use osko.Api.Monitoring.{PrometheusRule}
use osko.Api.OpenSlo.{empty_slo}
use osko.Api.Osko.{MimirRule}
use osko.Cluster.{Reply, found, failed, panicked}
use osko.Cluster.Steps.{
  ◌>>=◌, ◌>>◌, pure, call, finish, fail_transient, event_unguarded, tested, is_not_found,
}
use osko.Cluster.Retry.{retry, or_transient, write_status}
use osko.Mimir.{new_mimir_rule}
use osko.MimirController.Ruler.{MimirOperator}
use osko.MimirController.Retry.{Act, set_ready}
use osko.MimirController.Upload.{again_later}

-- apierrors.IsNotFound, which looks through wrapped errors
abbrev pub is_not_found_error : GoError → Bool
is_not_found_error (api e) = is_not_found e
is_not_found_error (text m) = false
is_not_found_error (wrapped m e) = is_not_found_error e

module _ (M : MimirOperator) where
  -- The error is that of the status update, if it failed, and else that of the creation.
  creation_failed : ApiError → Option ApiError × MimirRule → Act M (Unit {0})
  creation_failed e (some f, m) = fail_transient (some (api f))
  creation_failed e (none, m) = fail_transient (some (api e))

  mimir_created : NamespacedName → MimirRule → Reply MimirRule → Act M (Unit {0})
  unfolding creation_failed
  mimir_created req sent (failed e) = do
    event_unguarded M.operator.has_recorder (record {
      regarding = sent.meta.name;
      kind = "Error";
      reason = "FailedToCreateMimirRule";
      message = "Failed to create Mimir Rule";
    })
    r ← retry M.operator (write_status M.operator.client.mimir_rules (λ m. m) req) sent
    creation_failed e r
  mimir_created req sent (found m) = do
    event_unguarded M.operator.has_recorder (record {
      regarding = m.meta.name;
      kind = "Normal";
      reason = "MimirRuleCreated";
      message = "MimirRule created successfully";
    })
    r ← retry M.operator (set_ready M.operator.client.mimir_rules req) m
    or_transient r
    again_later M

  -- The error of NewMimirRule is overwritten; the object is then nil, and its creation a fault.
  create_new : NamespacedName → GoError ⊎ MimirRule → Act M (Unit {0})
  unfolding mimir_created
  create_new req (inl e) = finish panicked
  create_new req (inr new) = do
    r ← call (M.operator.client.mimir_rules.create new)
    mimir_created req new r

  -- if apierrors.IsNotFound(err)
  unfoldable pub create_missing_mimir_rule :
      NamespacedName → Option GoError → PrometheusRule → MimirRule → Act M (Unit {0})
  unfolding create_new
  create_missing_mimir_rule req none rule mimir = pure tt
  create_missing_mimir_rule req (some e) rule mimir =
      if is_not_found_error e
      then (do
        n ← tested (new_mimir_rule M.operator.runtime empty_slo rule mimir.spec.connection_details)
        create_new req n)
      else pure tt
