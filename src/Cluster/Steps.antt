-- ===== src/Cluster/Steps.antt =====
-- The steps of a reconciler: they thread the server's state and the events, and may end the call.
use osko.Prelude.{◌*◌, ◌⊎◌, inl, inr, Bool, true, false, Option, List, [], ◌∷◌, ◌++◌, if◌then◌else◌}
use osko.Errors.{ApiError, not_found, GoError, transient, second, Result, ok, err, panic}
use osko.Cluster.{Reply, Event, plain, reconcile, done, Outcome, returned, returned_error, panicked}

pub record World (S : Type 0) : Type 0 where
  pub cluster : S
  pub events : List Event

-- `next` goes on with a value; `stop` is a return of the reconciler, or a fault.
pub data Flow (D A : Type 0) : Type 0 where
  next : A → Flow D A
  stop : Outcome D → Flow D A

abbrev pub is_not_found : ApiError → Bool
is_not_found (not_found _) = true
is_not_found _ = false

abbrev pub Step : Type 0 → Type 0 → Type 0 → Type 0
Step D S A = World S → Flow D A × World S

module _ {D S : Type 0} where
  abbrev pub pure : {A : Type 0} → A → Step D S A
  pure a w = (next a, w)

  abbrev pub finish : {A : Type 0} → Outcome D → Step D S A
  finish o w = (stop o, w)

  abbrev pub continue : {A B : Type 0} → Flow D A → (A → Step D S B) → World S → Flow D B × World S
  continue (next a) f w = f a w
  continue (stop o) f w = (stop o, w)

  infixl 5 ◌>>=◌ ◌>>◌
  abbrev pub ◌>>=◌ : {A B : Type 0} → Step D S A → (A → Step D S B) → Step D S B
  ◌>>=◌ m f w = let (r, w') = m w in continue r f w'

  abbrev pub ◌>>◌ : {A B : Type 0} → Step D S A → Step D S B → Step D S B
  m >> k = m >>= λ _. k

  -- A call of the client.
  abbrev pub call : {A : Type 0} → (S → Reply A × S) → Step D S (Reply A)
  call f w = let (r, s) = f w.cluster in (next r, record w { cluster = s })

  -- return ctrl.Result{}, errors.Transient(err, 5*time.Second)
  abbrev pub fail_transient : {A : Type 0} → Option GoError → Step D S A
  fail_transient e = finish (returned_error (reconcile (transient e (5 * second))))

  -- return ctrl.Result{}, err
  abbrev pub fail : {A : Type 0} → GoError → Step D S A
  fail e = finish (returned_error (plain e))

  -- return ctrl.Result{}, nil
  abbrev pub finished : {A : Type 0} → Step D S A
  finished = finish (returned done)

  -- if r.Recorder != nil { r.Recorder.Event(...) }
  abbrev pub event : Bool → Event → Step D S (Unit {0})
  event has_recorder e w =
      (next tt, if has_recorder then record w { events = w.events ++ e ∷ [] } else w)

  -- r.Recorder.Event(...), a fault on a nil Recorder
  abbrev pub event_unguarded : Bool → Event → Step D S (Unit {0})
  event_unguarded true e w = (next tt, record w { events = w.events ++ e ∷ [] })
  event_unguarded false e w = (stop panicked, w)

  -- A result that the code tests for an error; a fault ends the call.
  abbrev pub tested : {A : Type 0} → Result A → Step D S (GoError ⊎ A)
  tested (ok a) = pure (inr a)
  tested (err e) = pure (inl e)
  tested panic = finish panicked
