-- ===== src/Examples/Conflicts.antt =====
-- A server in which the first write meets a conflict, and a RetryOnConflict that runs at most twice.
use osko.Prelude.{ℕ, zero, suc, ◌≡◌, refl, true, Option, some, none, [], ◌∷◌}
use osko.Errors.{ApiError, not_found, conflict, other}
use osko.Api.Meta.{empty_meta}
use osko.Api.Osko.{MimirRule}
use osko.Cluster.{Reply, found, failed}
use osko.Cluster.Retry.{retry, or_transient, add_finalizer}
use osko.Cluster.Retry.Runs.{Runs, last_run, again, Retries, Held}
use osko.SloController.Mimir.{empty_mimir_rule}
use osko.MimirController.Ruler.{MimirOperator}
use osko.MimirController.Deletion.{mimir_rule_finalizer, mimir_with_meta}
use osko.MimirController.Upload.{hold_mimir_rule}
use osko.MimirController.Held.{hold_mimir_rule-Held}
use osko.Examples.Servers.{absent, helpers}
use osko.Examples.Rulers.{sample_ruler, rule_request}
use osko.Examples.Samples.{sample_runtime, sample_config}

abbrev second_run :
    {A S : Type 0}
    → (A → S → (Option ApiError × A) × S)
    → (Option ApiError × A) × S
    → (Option ApiError × A) × S
second_run f ((some (conflict m), b), t) = f b t
second_run f ((some (not_found m), b), t) = ((some (not_found m), b), t)
second_run f ((some (other m), b), t) = ((some (other m), b), t)
second_run f ((none, b), t) = ((none, b), t)

-- The number of writes is the state.
abbrev written_to : ℕ → MimirRule → Reply MimirRule
written_to zero m = failed (conflict "changed")
written_to (suc n) m = found m

abbrev conflicting : MimirOperator
conflicting = record {
  operator = record {
    runtime = sample_runtime;
    config = sample_config;
    client = record {
      State = ℕ;
      now = λ s. 7;
      slos = absent ℕ _;
      slis = absent ℕ _;
      datasources = absent ℕ _;
      prometheus_rules = absent ℕ _;
      mimir_rules = record {
        get = λ k s. (found empty_mimir_rule, s);
        create = λ m s. (found m, suc s);
        update = λ m s. (written_to s m, suc s);
        update_status = λ m s. (found m, suc s);
      };
      alert_manager_configs = absent ℕ _;
    };
    util = helpers;
    retry_on_conflict = λ f a s. second_run f (f a s);
    has_recorder = true;
  };
  Handle = sample_ruler.Handle;
  new_client = sample_ruler.new_client;
  create_rule_group = λ handle namespace group s. (none, s);
  delete_rule_group = λ handle namespace name s. (none, s);
  parse_model_duration = sample_ruler.parse_model_duration;
  requeue_after_period = 60;
}

retries : Retries conflicting.operator
retries A f a s = by_run (f a s) refl
  where
    by_run : (r : (Option ApiError × A) × ℕ) → f a s ≡ r → Runs f a s (second_run f r)
    by_run ((none, b), t) e = last_run e
    by_run ((some (conflict m), b), t) e = again e (last_run refl)
    by_run ((some (not_found m), b), t) e = last_run e
    by_run ((some (other m), b), t) e = last_run e

abbrev with_finalizer : MimirRule
with_finalizer = record empty_mimir_rule {
  meta = record empty_meta { finalizers = mimir_rule_finalizer ∷ [] };
}

hold_mimir_rule-Held_example :
    Held conflicting.operator.client.mimir_rules
      (λ (r : MimirRule). r.meta)
      mimir_with_meta
      helpers.contains_finalizer
      helpers.add_finalizer
      mimir_rule_finalizer
      with_finalizer
unfolding hold_mimir_rule retry or_transient add_finalizer
hold_mimir_rule-Held_example =
    hold_mimir_rule-Held conflicting retries rule_request empty_mimir_rule with_finalizer
      (record { cluster = 0; events = [] }) (record { cluster = 2; events = [] }) refl
