-- ===== src/Cluster/Retry.antt =====
-- The reads and writes that a reconciler repeats on a conflict.
pub mod Runs
pub mod Tenancy
use osko.Prelude.{String, Bool, Option, some, none, if◌then◌else◌}
use osko.Errors.{ApiError, api}
use osko.Api.Meta.{ObjectMeta, NamespacedName}
use osko.Cluster.{Reply, found, failed, Access, Operator}
use osko.Cluster.Steps.{next, Step, pure, fail_transient, fail}

-- What an attempt leaves in the variable that it captures, after a write of `sent`.
abbrev pub after_write : {A S : Type 0} → A → Reply A × S → (Option ApiError × A) × S
after_write sent (found a, s) = ((none, a), s)
after_write sent (failed e, s) = ((some e, sent), s)

-- An attempt: `Get`, which leaves the variable as it is on an error, and then a function of the
-- object found.
abbrev pub after_get :
    {A S : Type 0}
    → A
    → (A → S → (Option ApiError × A) × S)
    → Reply A × S
    → (Option ApiError × A) × S
after_get old f (found a, s) = f a s
after_get old f (failed e, s) = ((some e, old), s)

module _ {A S : Type 0} (kind : Access S A) (meta : A → ObjectMeta)
    (with_meta : A → ObjectMeta → A) where
  -- Get, RemoveFinalizer, Update
  unfoldable pub remove_finalizer :
      (ObjectMeta → String → ObjectMeta)
      → String
      → NamespacedName
      → A
      → S
      → (Option ApiError × A) × S
  remove_finalizer edit finalizer key old s =
      after_get old
        (λ a s'.
          let sent = with_meta a (edit (meta a) finalizer) in
          after_write sent (kind.update sent s'))
        (kind.get key s)

  -- Get, and AddFinalizer and Update unless it is there
  unfoldable pub add_finalizer :
      (ObjectMeta → String → Bool)
      → (ObjectMeta → String → ObjectMeta)
      → String
      → NamespacedName
      → A
      → S
      → (Option ApiError × A) × S
  add_finalizer contains edit finalizer key old s =
      after_get old
        (λ a s'.
          let sent = with_meta a (edit (meta a) finalizer) in
          if contains (meta a) finalizer
          then ((none, a), s')
          else after_write sent (kind.update sent s'))
        (kind.get key s)

  -- Get, and Update of a new object under the resource version of the one found. It works on both
  -- variables.
  written : A → A → Reply A × S → (Option ApiError × (A × A)) × S
  written a sent (found b, s) = ((none, (a, b)), s)
  written a sent (failed e, s) = ((some e, (a, sent)), s)

  abbrev pub versioned : A → A → A
  versioned a new =
      with_meta new (record (meta new) { resource_version = (meta a).resource_version })

  replaced : A → A → Reply A × S → (Option ApiError × (A × A)) × S
  unfolding written
  replaced old new (failed e, s) = ((some e, (old, new)), s)
  replaced old new (found a, s) = written a (versioned a new) (kind.update (versioned a new) s)

  unfoldable pub replace : NamespacedName → A × A → S → (Option ApiError × (A × A)) × S
  unfolding replaced
  replace key (old, new) s = replaced old new (kind.get key s)

-- Get, an edit, and Status().Update
unfoldable pub write_status :
    {A S : Type 0} (kind : Access S A) (edit : A → A) (key : NamespacedName)
    → A
    → S
    → (Option ApiError × A) × S
write_status kind edit key old s =
    after_get old (λ a s'. after_write (edit a) (kind.update_status (edit a) s')) (kind.get key s)

module _ (O : Operator) where
  -- retry.RetryOnConflict on a captured variable
  unfoldable pub retry :
      {A : Type 0}
      → (A → O.client.State → (Option ApiError × A) × O.client.State)
      → A
      → Step O.runtime.Duration O.client.State (Option ApiError × A)
  retry f a w = let (r, s) = O.retry_on_conflict f a w.cluster in (next r, record w { cluster = s })

module _ {D S : Type 0} where
  -- return ctrl.Result{}, errors.Transient(err, 5*time.Second) on an error
  unfoldable pub or_transient : {A : Type 0} → Option ApiError × A → Step D S A
  or_transient (none, a) = pure a
  or_transient (some e, a) = fail_transient (some (api e))

  -- return ctrl.Result{}, err on an error
  unfoldable pub or_fail : {A : Type 0} → Option ApiError × A → Step D S A
  or_fail (none, a) = pure a
  or_fail (some e, a) = fail (api e)
