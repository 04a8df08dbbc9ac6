-- ===== src/Errors.antt =====
-- internal/errors/errors.go, and the errors that the operator's functions return.
use osko.Prelude.{ℕ, ◌*◌, String, Option, none, some}

-- What the API server's client answers. `not_found` and `conflict` are told apart by the code;
-- any other error is its message.
pub data ApiError : Type 0 where
  not_found conflict : String → ApiError
  other : String → ApiError

-- `text` is errors.New or fmt.Errorf, `wrapped` is fmt.Errorf with %w: the whole message, and the
-- error behind it.
pub data GoError : Type 0 where
  api : ApiError → GoError
  text : String → GoError
  wrapped : String → GoError → GoError

abbrev pub err_transient : GoError
err_transient = text "transient error"

abbrev pub err_permanent : GoError
err_permanent = text "permanent error"

abbrev pub err_dependency_not_ready : GoError
err_dependency_not_ready = text "dependency not ready"

abbrev pub err_invalid_target : GoError
err_invalid_target = text "invalid SLO target"

pub record ReconcileError : Type 0 where
  pub err : Option GoError
  pub type : GoError
  pub requeue_after : ℕ

-- time.Second, in nanoseconds
abbrev pub second : ℕ
second = 1_000_000_000

message : GoError → String
message (api (not_found m)) = m
message (api (conflict m)) = m
message (api (other m)) = m
message (text m) = m
message (wrapped m e) = m

-- func (e GoError) Error()
unfoldable pub go_error_text : GoError → String
unfolding message
go_error_text e = message e

-- func (e *ReconcileError) Error()
unfoldable pub error_text : ReconcileError → String
unfolding message
error_text e = elim e.err [ none ↦ "unknown error" | some g ↦ message g ]

unfoldable pub transient : Option GoError → ℕ → ReconcileError
transient e after = record { err = e; type = err_transient; requeue_after = after }

unfoldable pub permanent : Option GoError → ReconcileError
permanent e = record { err = e; type = err_permanent; requeue_after = 0 }

unfoldable pub dependency_not_ready : Option GoError → ReconcileError
dependency_not_ready e = record {
  err = e;
  type = err_dependency_not_ready;
  requeue_after = 10 * second;
}

-- What a function with results (A, error) gives back. `panic` is a run-time fault.
pub data Result {ℓ} (A : Type ℓ) : Type ℓ where
  ok : A → Result A
  err : GoError → Result A
  panic : Result A

infixl 5 ◌>>=◌ ◌>>◌
abbrev pub ◌>>=◌ {ℓ κ} : {A : Type ℓ} {B : Type κ} → Result A → (A → Result B) → Result B
ok a >>= f = f a
err e >>= f = err e
panic >>= f = panic

abbrev pub ◌>>◌ {ℓ} : {B : Type ℓ} → Result (Unit {0}) → Result B → Result B
m >> k = m >>= λ _. k
