-- ===== src/Config/Laws.antt =====
-- The severities: a tool that is not known has the custom map, and a severity that is not known
-- has the lowest.
use osko.Prelude.{String, ◌≡◌, ◌≢◌, none, arith, eq_iff}
use osko.Map.{lookup}
use osko.Runtime.{Runtime}
use osko.Config.{AlertToolSeverityMap, get_severity, alert_severities_by_tool, ticket_medium}

-- A severity that the tool's map lacks is reported as its lowest, `ticket_medium`.
pub get_severity_default :
    (m : AlertToolSeverityMap) (sre : String)
    → lookup sre m ≡ none
    → get_severity m sre ≡ get_severity m ticket_medium
unfolding get_severity
get_severity_default m sre h = ground arith

-- Any tool but `opsgenie` and `pagerduty` has the severities of the custom tool.
severities_fallback :
    (R : Runtime) (tool : String)
    → tool ≢ "opsgenie"
    → tool ≢ "pagerduty"
    → alert_severities_by_tool R tool ≡ alert_severities_by_tool R "custom"
unfolding alert_severities_by_tool
severities_fallback R tool a b =
    ground (arith, eq_iff "opsgenie" tool, eq_iff "pagerduty" tool, eq_iff "custom" tool)
