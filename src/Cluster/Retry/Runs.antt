-- ===== src/Cluster/Retry/Runs.antt =====
-- What RetryOnConflict is documented to do: it runs a function, and runs it again as long as that
-- returns a conflict.
use osko.Prelude.{
  ◌≡◌, refl, String, Bool, true, Option, some, none, ◌⊎◌, inl, inr, arith, Bool-cases,
}
use osko.Errors.{ApiError, conflict}
use osko.Api.Meta.{ObjectMeta, NamespacedName}
use osko.Cluster.{Reply, found, failed, Access, Operator}
use osko.Cluster.Retry.{add_finalizer, after_write}

-- One run after another on a captured variable, each but the last with a conflict. Between two runs
-- the server may have moved on.
pub data Runs {A S : Type 0} (f : A → S → (Option ApiError × A) × S)
    : A → S → (Option ApiError × A) × S → Type 0 where
  last_run : {a : A} {s : S} {r : (Option ApiError × A) × S} → f a s ≡ r → Runs f a s r
  again :
      {a b : A} {s t u : S} {m : String} {r : (Option ApiError × A) × S}
      → f a s ≡ ((some (conflict m), b), t)
      → Runs f b u r
      → Runs f a s r

abbrev pub Retries : Operator → Type 1
Retries O =
    (A : Type 0) (f : A → O.client.State → (Option ApiError × A) × O.client.State) (a : A)
    (s : O.client.State)
    → Runs f a s (O.retry_on_conflict f a s)

-- What a run establishes where it succeeds holds after all runs, where those succeed.
pub Runs-ind :
    {A S : Type 0} (f : A → S → (Option ApiError × A) × S) (Q : A → Type 0)
    → ((a b : A) (s t : S) → f a s ≡ ((none, b), t) → Q b)
    → (a : A) (s : S) (b : A) (t : S) → Runs f a s ((none, b), t)
    → Q b
Runs-ind f Q step a s b t (last_run e) = step a b s t e
Runs-ind f Q step a s b t (again e later) = Runs-ind f Q step _ _ b t later

module _ {A S : Type 0} (kind : Access S A) (meta : A → ObjectMeta) (with_meta : A → ObjectMeta → A)
    (contains : ObjectMeta → String → Bool) (edit : ObjectMeta → String → ObjectMeta)
    (finalizer : String) where
  -- An object that has the finalizer, or that the server answered a write of the finalizer with.
  abbrev pub Held : A → Type 0
  Held b =
      (contains (meta b) finalizer ≡ true)
      ⊎ ((a : A) × (s : S) × (t : S) × (kind.update (with_meta a (edit (meta a) finalizer)) s
            ≡ (found b, t)))

  by_write :
      (a b : A) (u t : S) (r : Reply A × S)
      → kind.update (with_meta a (edit (meta a) finalizer)) u ≡ r
      → after_write (with_meta a (edit (meta a) finalizer)) r ≡ ((none, b), t)
      → Held b
  by_write a b u t (found c, v) e h = inr (a, u, v, cc (e, h))
  by_write a b u t (failed m, v) e h = absurd (ground (arith, h))

  by_get :
      (key : NamespacedName) (old b : A) (s t : S) (r : Reply A × S)
      → kind.get key s ≡ r
      → add_finalizer kind meta with_meta contains edit finalizer key old s ≡ ((none, b), t)
      → Held b
  unfolding add_finalizer
  by_get key old b s t (found a, u) e h = elim (Bool-cases (contains (meta a) finalizer)) [
    | inl has ↦ inl (ground (arith, has, e, h))
    | inr lacks ↦
        by_write a b u t (kind.update (with_meta a (edit (meta a) finalizer)) u) refl
          (rw (e, lacks) at h)
  ]
  by_get key old b s t (failed m, u) e h = absurd (ground (arith, e, h))

  pub add_finalizer-Held :
      (key : NamespacedName) (old b : A) (s t : S)
      → add_finalizer kind meta with_meta contains edit finalizer key old s ≡ ((none, b), t)
      → Held b
  add_finalizer-Held key old b s t h = by_get key old b s t (kind.get key s) refl h
