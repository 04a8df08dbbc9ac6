-- ===== src/Cluster/Tenancy.antt =====
-- What a reconciler does in the server stays in the namespaces that it works for: the rules for
-- steps, and what the server, the helpers and RetryOnConflict have to do for that.
use mathlib.Core.Path.{subst}
use osko.Prelude.{sym, String, ◌≡◌, refl, true, false, Bool, Option, ◌⊎◌, inl, inr, if◌then◌else◌}
use osko.Errors.{ApiError, GoError, Result, ok, err, panic}
use osko.Api.Meta.{ObjectMeta, NamespacedName}
use osko.Api.OpenSlo.{Slo, Sli}
use osko.Api.Monitoring.{PrometheusRule}
use osko.Api.Osko.{Datasource, MimirRule, AlertManagerConfig}
use osko.Cluster.{Reply, found, failed, Access, Event, Outcome, Operator}
use osko.Cluster.Steps.{
  World, Flow, next, stop, Step, pure, finish, call, event, event_unguarded, tested, continue,
  ◌>>=◌, ◌>>◌,
}

-- An answer that is an object has the property.
abbrev pub Answered : {A : Type 0} → (A → Type 0) → Reply A → Type 0
Answered Q (found a) = Q a
Answered Q (failed e) = Unit

abbrev pub Fits : {A : Type 0} → (A → Type 0) → GoError ⊎ A → Type 0
Fits Q (inl e) = Unit
Fits Q (inr a) = Q a

abbrev pub Going : {D A : Type 0} → (A → Type 0) → Flow D A → Type 0
Going Q (next a) = Q a
Going Q (stop o) = Unit

-- A step keeps what holds of the server, and goes on only with a value that has the property.
pub record Keeps {D S A : Type 0} (P : S → Type 0) (Q : A → Type 0) (m : Step D S A) : Type 0 where
  pub at : (w : World S) → P w.cluster → P (m w).1.cluster × Going Q (m w).0

module _ {D S : Type 0} {P : S → Type 0} where
  pub Keeps-pure : {A : Type 0} {Q : A → Type 0} (a : A) → Q a → Keeps {D = D} P Q (pure a)
  Keeps-pure a q = record { at = λ w p. (p, q) }

  pub Keeps-finish : {A : Type 0} {Q : A → Type 0} (o : Outcome D) → Keeps P Q (finish o)
  Keeps-finish o = record { at = λ w p. (p, tt) }

  continued :
      {A B : Type 0} {Q : A → Type 0} {R : B → Type 0} (f : A → Step D S B) (r : Flow D A)
      (w : World S)
      → P w.cluster × Going Q r
      → ((a : A) → Q a → Keeps P R (f a))
      → P (continue r f w).1.cluster × Going R (continue r f w).0
  continued f (next a) w (p, q) k = (k a q).at w p
  continued f (stop o) w (p, q) k = (p, tt)

  pub Keeps-bind :
      {A B : Type 0} {Q : A → Type 0} {R : B → Type 0} {m : Step D S A} {f : A → Step D S B}
      → Keeps P Q m
      → ((a : A) → Q a → Keeps P R (f a))
      → Keeps P R (m >>= f)
  Keeps-bind {m} {f} h k = record { at = λ w p. continued f (m w).0 (m w).1 (h.at w p) k }

  pub Keeps-then :
      {A B : Type 0} {Q : A → Type 0} {R : B → Type 0} {m : Step D S A} {n : Step D S B}
      → Keeps P Q m
      → Keeps P R n
      → Keeps P R (m >> n)
  Keeps-then {m} {n} h k = record {
    at = λ w p. continued (λ _. n) (m w).0 (m w).1 (h.at w p) λ _ _. k;
  }

  pub Keeps-if :
      {A : Type 0} {Q : A → Type 0} (b : Bool) {m n : Step D S A}
      → Keeps P Q m
      → Keeps P Q n
      → Keeps P Q (if b then m else n)
  Keeps-if true h k = h
  Keeps-if false h k = k

  pub Keeps-event : (b : Bool) (e : Event) → Keeps {D = D} P (λ _. Unit) (event b e)
  Keeps-event true e = record { at = λ w p. (p, tt) }
  Keeps-event false e = record { at = λ w p. (p, tt) }

  pub Keeps-event_unguarded :
      (b : Bool) (e : Event) → Keeps {D = D} P (λ _. Unit) (event_unguarded b e)
  Keeps-event_unguarded true e = record { at = λ w p. (p, tt) }
  Keeps-event_unguarded false e = record { at = λ w p. (p, tt) }

  pub Keeps-tested :
      {A : Type 0} {Q : A → Type 0} (r : Result A)
      → ((a : A) → r ≡ ok a → Q a)
      → Keeps {D = D} P (Fits Q) (tested r)
  Keeps-tested (ok a) q = record { at = λ w p. (p, q a refl) }
  Keeps-tested (err e) q = record { at = λ w p. (p, tt) }
  Keeps-tested panic q = record { at = λ w p. (p, tt) }

abbrev pub Any : {A : Type 0} → A → Type 0
Any a = Unit

-- An object in one of the namespaces.
abbrev pub Local : {A : Type 0} → (String → Type 0) → (A → ObjectMeta) → A → Type 0
Local Here meta a = Here (meta a).namespace

pub moved : (Here : String → Type 0) {m n : String} → m ≡ n → Here n → Here m
moved Here same here = subst Here (sym same) here

-- The calls for a kind of resource, of objects in the namespaces `Here`: they keep `P`, and the
-- answer is in such a namespace.
pub record Confined {S A : Type 0} (P : S → Type 0) (Here : String → Type 0) (meta : A → ObjectMeta)
    (kind : Access S A) : Type 0 where
  pub got :
      (key : NamespacedName) (s : S)
      → Here key.namespace
      → P s
      → P (kind.get key s).1 × Answered (Local Here meta) (kind.get key s).0
  pub created :
      (a : A) (s : S)
      → Local Here meta a
      → P s
      → P (kind.create a s).1 × Answered (Local Here meta) (kind.create a s).0
  pub updated :
      (a : A) (s : S)
      → Local Here meta a
      → P s
      → P (kind.update a s).1 × Answered (Local Here meta) (kind.update a s).0
  pub status_updated :
      (a : A) (s : S)
      → Local Here meta a
      → P s
      → P (kind.update_status a s).1 × Answered (Local Here meta) (kind.update_status a s).0

module _ {D S A : Type 0} {P : S → Type 0} {Here : String → Type 0} {meta : A → ObjectMeta}
    {kind : Access S A} (C : Confined P Here meta kind) where
  pub get-Keeps :
      (key : NamespacedName)
      → Here key.namespace
      → Keeps {D = D} P (Answered (Local Here meta)) (call (kind.get key))
  get-Keeps key here = record { at = λ w p. C.got key w.cluster here p }

  pub create-Keeps :
      (a : A)
      → Local Here meta a
      → Keeps {D = D} P (Answered (Local Here meta)) (call (kind.create a))
  create-Keeps a here = record { at = λ w p. C.created a w.cluster here p }

  pub update-Keeps :
      (a : A)
      → Local Here meta a
      → Keeps {D = D} P (Answered (Local Here meta)) (call (kind.update a))
  update-Keeps a here = record { at = λ w p. C.updated a w.cluster here p }

  pub update_status-Keeps :
      (a : A)
      → Local Here meta a
      → Keeps {D = D} P (Answered (Local Here meta)) (call (kind.update_status a))
  update_status-Keeps a here = record { at = λ w p. C.status_updated a w.cluster here p }

-- An attempt that keeps `P` on the server and `Q` on the variable that it captures.
abbrev pub AttemptKeeps :
    {A S : Type 0} → (S → Type 0) → (A → Type 0) → (A → S → (Option ApiError × A) × S) → Type 0
AttemptKeeps {A} {S} P Q f = (a : A) (s : S) → Q a → P s → P (f a s).1 × Q (f a s).0.1

-- An operator whose server keeps `P` in all that is done in the namespaces `Here`. An object
-- without a namespace, which the server refuses, counts among them.
pub record Tenancy (O : Operator) (P : O.client.State → Type 0) (Here : String → Type 0)
    : Type 1 where
  pub slos : Confined P Here (λ (a : Slo). a.meta) O.client.slos
  pub slis : Confined P Here (λ (a : Sli). a.meta) O.client.slis
  pub datasources : Confined P Here (λ (a : Datasource). a.meta) O.client.datasources
  pub prometheus_rules : Confined P Here (λ (a : PrometheusRule). a.meta) O.client.prometheus_rules
  pub mimir_rules : Confined P Here (λ (a : MimirRule). a.meta) O.client.mimir_rules
  pub alert_manager_configs :
      Confined P Here (λ (a : AlertManagerConfig). a.meta) O.client.alert_manager_configs
  pub nowhere : Here ""
  pub add_finalizer :
      (m : ObjectMeta) (f : String) → (O.util.add_finalizer m f).namespace ≡ m.namespace
  pub remove_finalizer :
      (m : ObjectMeta) (f : String) → (O.util.remove_finalizer m f).namespace ≡ m.namespace
  pub set_owner_reference :
      (owner m n : ObjectMeta) (kind : String)
      → O.util.set_owner_reference owner kind m ≡ ok n
      → n.namespace ≡ m.namespace
  -- RetryOnConflict only runs the function, and waits.
  pub retry_on_conflict :
      (A : Type 0) (Q : A → Type 0)
      (f : A → O.client.State → (Option ApiError × A) × O.client.State)
      → AttemptKeeps P Q f
      → AttemptKeeps P Q (O.retry_on_conflict f)
