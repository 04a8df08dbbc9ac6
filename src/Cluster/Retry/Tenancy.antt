-- ===== src/Cluster/Retry/Tenancy.antt =====
-- The attempts that are repeated on a conflict stay in the namespaces of their objects.
use osko.Prelude.{String, Bool, true, false, ◌≡◌, ap, Option, some, none, if◌then◌else◌}
use osko.Errors.{ApiError}
use osko.Api.Meta.{ObjectMeta, NamespacedName}
use osko.Cluster.{Reply, found, failed, Access, Operator}
use osko.Cluster.Retry.{
  after_write, after_get, remove_finalizer, add_finalizer, written, replaced, replace, versioned,
  write_status, retry, or_transient, or_fail,
}
use osko.Cluster.Tenancy.{
  Keeps, Keeps-pure, Keeps-finish, Answered, Local, Confined, AttemptKeeps, Tenancy, moved,
}

module _ {A S : Type 0} (P : S → Type 0) (Q : A → Type 0) where
  after_write-Keeps :
      (sent : A) (r : Reply A × S)
      → Q sent
      → P r.1 × Answered Q r.0
      → P (after_write sent r).1 × Q (after_write sent r).0.1
  after_write-Keeps sent (found a, s) here h = h
  after_write-Keeps sent (failed e, s) here (p, h) = (p, here)

  after_get-Keeps :
      (old : A) (f : A → S → (Option ApiError × A) × S) (r : Reply A × S)
      → Q old
      → P r.1 × Answered Q r.0
      → AttemptKeeps P Q f
      → P (after_get old f r).1 × Q (after_get old f r).0.1
  after_get-Keeps old f (found a, s) here (p, h) k = k a s h p
  after_get-Keeps old f (failed e, s) here (p, h) k = (p, here)

module _ {A S : Type 0} {P : S → Type 0} {Here : String → Type 0} {meta : A → ObjectMeta}
    {kind : Access S A} where
  pub write_status-Keeps :
      (C : Confined P Here meta kind) (edit : A → A) (key : NamespacedName)
      → ((a : A) → Local Here meta a → Local Here meta (edit a))
      → Here key.namespace
      → AttemptKeeps P (Local Here meta) (write_status kind edit key)
  unfolding write_status
  write_status-Keeps C edit key kept here old s at p =
      after_get-Keeps P (Local Here meta) old _ (kind.get key s) at (C.got key s here p) λ a t h q.
        after_write-Keeps P (Local Here meta) (edit a) (kind.update_status (edit a) t) (kept a h)
          (C.status_updated (edit a) t (kept a h) q)

  module _ (C : Confined P Here meta kind) (with_meta : A → ObjectMeta → A)
      (meta-with_meta : (a : A) (m : ObjectMeta) → meta (with_meta a m) ≡ m) where
    with_meta-Local : (a : A) (m : ObjectMeta) → Here m.namespace → Local Here meta (with_meta a m)
    with_meta-Local a m here =
        moved Here (ap (λ (n : ObjectMeta). n.namespace) (meta-with_meta a m)) here

    pub remove_finalizer-Keeps :
        (edit : ObjectMeta → String → ObjectMeta) (finalizer : String) (key : NamespacedName)
        → ((m : ObjectMeta) (f : String) → (edit m f).namespace ≡ m.namespace)
        → Here key.namespace
        → AttemptKeeps P (Local Here meta) (remove_finalizer kind meta with_meta edit finalizer key)
    unfolding remove_finalizer
    remove_finalizer-Keeps edit finalizer key same here old s at p =
        after_get-Keeps P (Local Here meta) old _ (kind.get key s) at (C.got key s here p)
          λ a t h q.
            let sent = with_meta a (edit (meta a) finalizer) in
            let kept : Local Here meta sent =
              with_meta-Local a _ (moved Here (same (meta a) finalizer) h) in
            after_write-Keeps P (Local Here meta) sent (kind.update sent t) kept
              (C.updated sent t kept q)

    held-Keeps :
        (b : Bool) (a sent : A) (t : S)
        → Local Here meta a
        → Local Here meta sent
        → P t
        → P (if b then ((none, a), t) else after_write sent (kind.update sent t)).1
          × Local Here meta
              (if b then ((none, a), t) else after_write sent (kind.update sent t)).0.1
    held-Keeps true a sent t h kept q = (q, h)
    held-Keeps false a sent t h kept q =
        after_write-Keeps P (Local Here meta) sent (kind.update sent t) kept
          (C.updated sent t kept q)

    pub add_finalizer-Keeps :
        (contains : ObjectMeta → String → Bool) (edit : ObjectMeta → String → ObjectMeta)
        (finalizer : String) (key : NamespacedName)
        → ((m : ObjectMeta) (f : String) → (edit m f).namespace ≡ m.namespace)
        → Here key.namespace
        → AttemptKeeps P
            (Local Here meta)
            (add_finalizer kind meta with_meta contains edit finalizer key)
    unfolding add_finalizer
    add_finalizer-Keeps contains edit finalizer key same here old s at p =
        after_get-Keeps P (Local Here meta) old _ (kind.get key s) at (C.got key s here p)
          λ a t h q.
            held-Keeps (contains (meta a) finalizer) a (with_meta a (edit (meta a) finalizer)) t h
              (with_meta-Local a _ (moved Here (same (meta a) finalizer) h)) q

    abbrev pub Both : A × A → Type 0
    Both (a, b) = Local Here meta a × Local Here meta b

    written-Keeps :
        (a sent : A) (r : Reply A × S)
        → Local Here meta a
        → Local Here meta sent
        → P r.1 × Answered (Local Here meta) r.0
        → P (written kind meta with_meta a sent r).1
          × Both (written kind meta with_meta a sent r).0.1
    unfolding written
    written-Keeps a sent (found b, s) h kept (p, k) = (p, (h, k))
    written-Keeps a sent (failed e, s) h kept (p, k) = (p, (h, kept))

    replaced-Keeps :
        (old new : A) (r : Reply A × S)
        → Local Here meta old
        → Local Here meta new
        → P r.1 × Answered (Local Here meta) r.0
        → P (replaced kind meta with_meta old new r).1
          × Both (replaced kind meta with_meta old new r).0.1
    unfolding replaced
    replaced-Keeps old new (failed e, s) h kept (p, k) = (p, (h, kept))
    replaced-Keeps old new (found a, s) h kept (p, k) =
        let sent = versioned kind meta with_meta a new in
        let here : Local Here meta sent = with_meta-Local new _ kept in
        written-Keeps a sent (kind.update sent s) k here (C.updated sent s here p)

    pub replace-Keeps :
        (key : NamespacedName)
        → Here key.namespace
        → AttemptKeeps P Both (replace kind meta with_meta key)
    unfolding replace
    replace-Keeps key here (old, new) s (h, kept) p =
        replaced-Keeps old new (kind.get key s) h kept (C.got key s here p)

module _ {O : Operator} {P : O.client.State → Type 0} {Here : String → Type 0}
    (T : Tenancy O P Here) where
  pub retry-Keeps :
      {A : Type 0} (Q : A → Type 0)
      (f : A → O.client.State → (Option ApiError × A) × O.client.State) (a : A)
      → AttemptKeeps P Q f
      → Q a
      → Keeps P (λ (r : Option ApiError × A). Q r.1) (retry O f a)
  unfolding retry
  retry-Keeps {A} Q f a keeps q = record {
    at = λ w p. T.retry_on_conflict A Q f keeps a w.cluster q p;
  }

module _ {D S : Type 0} {P : S → Type 0} where
  pub or_transient-Keeps :
      {A : Type 0} {Q : A → Type 0} (r : Option ApiError × A)
      → Q r.1
      → Keeps {D = D} P Q (or_transient r)
  unfolding or_transient
  or_transient-Keeps (none, a) q = Keeps-pure a q
  or_transient-Keeps (some e, a) q = Keeps-finish _

  pub or_fail-Keeps :
      {A : Type 0} {Q : A → Type 0} (r : Option ApiError × A)
      → Q r.1
      → Keeps {D = D} P Q (or_fail r)
  unfolding or_fail
  or_fail-Keeps (none, a) q = Keeps-pure a q
  or_fail-Keeps (some e, a) q = Keeps-finish _
