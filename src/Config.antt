-- ===== src/Config.antt =====
-- internal/config: the configuration read from the environment, and the severities of an alerting
-- tool.
pub mod Laws
use osko.Prelude.{
  ℕ, ◌*◌, String, ◌≡◌, Bool, Option, none, some, List, [], ◌∷◌, if◌then◌else◌, or_zero,
}
use osko.Map.{Map, lookup, get}
use osko.Runtime.{Runtime}
use osko.Errors.{Result, ok, err, panic}

-- The severities are texts, as in the source.
abbrev pub SreAlertSeverity : Type 0
SreAlertSeverity = String

abbrev pub page_critical : SreAlertSeverity
page_critical = "page_critical"

abbrev pub page_high : SreAlertSeverity
page_high = "page_high"

abbrev pub ticket_high : SreAlertSeverity
ticket_high = "ticket_high"

abbrev pub ticket_medium : SreAlertSeverity
ticket_medium = "ticket_medium"

abbrev pub AlertToolSeverityMap : Type 0
AlertToolSeverityMap = Map String

-- func (m AlertToolSeverityMap) GetSeverity
unfoldable pub get_severity : AlertToolSeverityMap → SreAlertSeverity → String
unfolding get
get_severity m sre = elim (lookup sre m) [ some sev ↦ sev | none ↦ get ticket_medium m ]

pub record AlertingBurnRates (F : Type 0) : Type 0 where
  pub page_short_window : F
  pub page_long_window : F
  pub ticket_short_window : F
  pub ticket_long_window : F

-- Which nothing uses.
pub record AlertToolConfig : Type 0 where
  pub tool : String
  pub severities : Map String

pub record AlertSeverities : Type 0 where
  pub critical : String
  pub high_fast : String
  pub high_slow : String
  pub low : String
  pub tool : String

abbrev zero_severities : AlertSeverities
zero_severities = record { critical = ""; high_fast = ""; high_slow = ""; low = ""; tool = "" }

pub record Config (R : Runtime) : Type 0 where
  pub mimir_rule_requeue_period : R.Duration
  pub alerting_burn_rates : AlertingBurnRates R.Float
  pub default_base_window : R.Duration
  pub alerting_tool : String
  pub alert_severities : AlertSeverities

-- The parsed value of a set variable, and the default where the parser refuses it.
or_default {ℓ} : {A : Type ℓ} → Result A → A → A
or_default (ok a) d = a
or_default (err e) d = d
or_default panic d = d

module _ (R : Runtime) where
  unfoldable pub get_env : String → String → String
  get_env key default = elim (R.lookup_env key) [ some value ↦ value | none ↦ default ]

  -- strconv.Atoi is an argument, since the function has no caller.
  unfoldable pub get_env_as_int : {I : Type 0} → (String → Result I) → String → I → I
  unfolding or_default
  get_env_as_int atoi key default = elim (R.lookup_env key) [
    | some value ↦ or_default (atoi value) default
    | none ↦ default
  ]

  unfoldable pub get_env_as_float64 : String → R.Float → R.Float
  unfolding or_default
  get_env_as_float64 key default = elim (R.lookup_env key) [
    | some value ↦ or_default (R.parse_float value) default
    | none ↦ default
  ]

  unfoldable pub get_env_as_duration : String → R.Duration → R.Duration
  unfolding or_default
  get_env_as_duration key default = elim (R.lookup_env key) [
    | some value ↦ or_default (R.parse_duration value) default
    | none ↦ default
  ]

  -- The value that `NewConfig` puts into `Cfg`.
  unfoldable pub new_config : Config R
  unfolding get_env get_env_as_float64 get_env_as_duration
  new_config = record {
    mimir_rule_requeue_period = get_env_as_duration "MIMIR_RULE_REQUEUE_PERIOD" (R.seconds 60);
    alerting_burn_rates = record {
      page_short_window = get_env_as_float64 "ABR_PAGE_SHORT_WINDOW" (R.literal "14.4");
      page_long_window = get_env_as_float64 "ABR_PAGE_LONG_WINDOW" (R.literal "6");
      ticket_short_window = get_env_as_float64 "ABR_TICKET_SHORT_WINDOW" (R.literal "3");
      ticket_long_window = get_env_as_float64 "ABR_TICKET_LONG_WINDOW" (R.literal "1");
    };
    default_base_window = get_env_as_duration "DEFAULT_BASE_WINDOW" (R.seconds (5 * 60));
    alerting_tool = get_env "OSKO_ALERTING_TOOL" "opsgenie";
    alert_severities = zero_severities;
  }

  severity_maps : Map AlertToolSeverityMap
  unfolding get_env
  severity_maps =
      (
        "opsgenie",
        (page_critical, "P1")
            ∷ (page_high, "P2")
            ∷ (ticket_high, "P3")
            ∷ (ticket_medium, "P4")
            ∷ [],
      )
      ∷ (
        "pagerduty",
        (page_critical, "SEV_1")
            ∷ (page_high, "SEV_2")
            ∷ (ticket_high, "SEV_3")
            ∷ (ticket_medium, "SEV_4")
            ∷ [],
      )
      ∷ (
        "custom",
        (page_critical, get_env "OSKO_ALERTING_SEVERITY_CRITICAL" "critical")
            ∷ (page_high, get_env "OSKO_ALERTING_SEVERITY_HIGH" "high")
            ∷ (ticket_high, get_env "OSKO_ALERTING_SEVERITY_HIGH" "medium")
            ∷ (ticket_medium, get_env "OSKO_ALERTING_SEVERITY_LOW" "low")
            ∷ [],
      )
      ∷ []

  unfoldable pub alert_severities_by_tool : String → AlertToolSeverityMap
  unfolding severity_maps lookup
  alert_severities_by_tool tool = elim (lookup tool severity_maps) [
    | some tool_map ↦ tool_map
    | none ↦ or_zero [] (lookup "custom" severity_maps)
  ]
