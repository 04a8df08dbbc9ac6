-- ===== src/Runtime.antt =====
-- What the program takes from outside: 64-bit floats, the parsers of `strconv` and `time`, the
-- environment, and the few methods of the Prometheus libraries that it calls. A field is an
-- operation; what they are documented to do stands in `IsIeee` and in the hypotheses of theorems.
use osko.Prelude.{ℕ, String, ◌≡◌, Bool, false, Option}
use osko.Api.Meta.{ObjectMeta, OwnerReference}
use osko.Api.Monitoring.{IntOrString, str_val}
use osko.Errors.{Result}

pub record Runtime : Type 1 where
  -- float64
  pub Float : Type 0
  pub zero_float : Float
  pub one : Float
  pub ge : Float → Float → Bool
  pub le : Float → Float → Bool
  pub sub : Float → Float → Float
  -- a constant of the source, by its text
  pub literal : String → Float
  -- strconv.ParseFloat(s, 64)
  pub parse_float : String → Result Float
  -- fmt.Sprintf("%.<n>f", x)
  pub format_float : ℕ → Float → String
  -- time.Duration
  pub Duration : Type 0
  pub seconds : ℕ → Duration
  -- time.ParseDuration(s)
  pub parse_duration : String → Result Duration
  -- model.Duration(d).String() of github.com/prometheus/common
  pub duration_text : Duration → String
  -- (*intstr.IntOrString).String() of k8s.io/apimachinery
  pub expr_text : IntOrString → String
  -- metav1.NewControllerRef(owner, groupVersion.WithKind(kind)) of k8s.io/apimachinery
  pub new_controller_ref : ObjectMeta → String → String → OwnerReference
  -- os.LookupEnv(key)
  pub lookup_env : String → Option String

-- The comparisons of IEEE 754, as far as the code rests on them.
pub record IsIeee (R : Runtime) (IsNan : R.Float → Type 0) : Type 0 where
  -- a comparison with NaN is false
  pub ge_nan : (x y : R.Float) → IsNan x → R.ge x y ≡ false
  pub le_nan : (x y : R.Float) → IsNan x → R.le x y ≡ false

-- `FromString(s).String()` is `s`.
abbrev pub PrintsText : Runtime → Type 0
PrintsText R = (s : String) → R.expr_text (str_val s) ≡ s
