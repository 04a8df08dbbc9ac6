-- ===== src/Cluster/Safety.antt =====
-- Steps that do not fault.
use osko.Prelude.{◌≡◌, ◌≢◌, refl, Bool, true, false, if◌then◌else◌}
use osko.Errors.{Result, ok, err, panic}
use osko.Cluster.{
  Reply, Event, CtrlResult, ReturnedError, Outcome, returned, returned_error, panicked,
}
use osko.Cluster.Steps.{
  World, Flow, next, stop, Step, continue, tested, pure, finish, call, event_unguarded, ◌>>=◌, ◌>>◌,
}

abbrev pub Any : {A : Type 0} → A → Type 0
Any a = Unit

abbrev pub Never : {A : Type 0} → A → Type 0
Never a = ⊥

module _ {D : Type 0} where
  -- A step that does not fault, and goes on only with a value that has the property.
  abbrev pub Safe : {A : Type 0} → (A → Type 0) → Flow D A → Type 0
  Safe P (next a) = P a
  Safe P (stop o) = o ≢ panicked

  Safe-continue :
      {S A B : Type 0} (P : A → Type 0) (Q : B → Type 0) (f : A → Step D S B) (r : Flow D A)
      (w : World S)
      → Safe P r
      → ((a : A) (v : World S) → P a → Safe Q (f a v).0)
      → Safe Q (continue r f w).0
  Safe-continue P Q f (next a) w h k = k a w h
  Safe-continue P Q f (stop o) w h k = h

  pub Safe-bind :
      {S A B : Type 0} (P : A → Type 0) (Q : B → Type 0) (m : Step D S A) (f : A → Step D S B)
      (w : World S)
      → Safe P (m w).0
      → ((a : A) (v : World S) → P a → Safe Q (f a v).0)
      → Safe Q ((m >>= f) w).0
  Safe-bind P Q m f w h k = Safe-continue P Q f (m w).0 (m w).1 h k

pub tested-Safe :
    (D : Type 0) {S A : Type 0} (r : Result A) (w : World S)
    → r ≢ panic
    → Safe Any (tested {D = D} r w).0
tested-Safe D (ok a) w h = tt
tested-Safe D (err e) w h = tt
tested-Safe D panic w h = absurd (h refl)

-- A step that never goes on and does not fault has returned.
pub returned-Safe :
    {D A : Type 0} (r : Flow D A) → Safe Never r → (o : Outcome D) × (r ≡ stop o) × (o ≢ panicked)
returned-Safe (next a) h = absurd h
returned-Safe (stop o) h = (o, refl, h)

-- A step that never faults, and goes on only with a value that has the property.
pub record Calm {D S A : Type 0} (P : A → Type 0) (m : Step D S A) : Type 0 where
  pub at : (w : World S) → Safe P (m w).0

module _ {D S : Type 0} where
  pub Calm-pure : {A : Type 0} {P : A → Type 0} (a : A) → P a → Calm {D = D} {S = S} P (pure a)
  Calm-pure a p = record { at = λ w. p }

  pub Calm-returned :
      {A : Type 0} {P : A → Type 0} (r : CtrlResult D)
      → Calm {D = D} {S = S} P (finish (returned r))
  Calm-returned r = record { at = λ w h. cc }

  pub Calm-error :
      {A : Type 0} {P : A → Type 0} (e : ReturnedError)
      → Calm {D = D} {S = S} P (finish (returned_error e))
  Calm-error e = record { at = λ w h. cc }

  pub Calm-bind :
      {A B : Type 0} {P : A → Type 0} {Q : B → Type 0} {m : Step D S A} {f : A → Step D S B}
      → Calm P m
      → ((a : A) → P a → Calm Q (f a))
      → Calm Q (m >>= f)
  Calm-bind {P} {Q} {m} {f} h k = record {
    at = λ w. Safe-bind P Q m f w (h.at w) λ a v p. (k a p).at v;
  }

  pub Calm-then :
      {A B : Type 0} {P : A → Type 0} {Q : B → Type 0} {m : Step D S A} {n : Step D S B}
      → Calm P m
      → Calm Q n
      → Calm Q (m >> n)
  Calm-then {P} {Q} {m} {n} h k = record {
    at = λ w. Safe-bind P Q m (λ _. n) w (h.at w) λ _ v _. k.at v;
  }

  pub Calm-if :
      {A : Type 0} {P : A → Type 0} (b : Bool) {m n : Step D S A}
      → Calm P m
      → Calm P n
      → Calm P (if b then m else n)
  Calm-if true h k = h
  Calm-if false h k = k

  pub Calm-call : {A : Type 0} (f : S → Reply A × S) → Calm {D = D} Any (call f)
  Calm-call f = record { at = λ w. tt }

  pub Calm-tested : {A : Type 0} (r : Result A) → r ≢ panic → Calm {D = D} {S = S} Any (tested r)
  Calm-tested r h = record { at = λ w. tested-Safe D r w h }

  pub Calm-event_unguarded :
      (b : Bool) (e : Event) → b ≡ true → Calm {D = D} {S = S} Any (event_unguarded b e)
  Calm-event_unguarded b e set = record { at = λ w. rw set tt }
