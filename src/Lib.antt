-- ===== src/Lib.antt =====
-- osko: a Kubernetes operator that turns OpenSLO resources into Prometheus and Mimir rules.
--
-- The parts. An SLO names an SLI (or holds one inline) and, by an annotation, a datasource. The SLO
-- controller (internal/controller/openslo/slo_controller.go) reconciles an SLO: it keeps a
-- finalizer on it, looks up the datasource and the SLI, and creates, one for each call, the
-- PrometheusRule, the MimirRule and, on request, the AlertManagerConfig of the SLO. The rules come
-- from internal/helpers/prometheus_helper.go: recording rules for the good and all events, the SLI,
-- the error budget and the burn rate on a list of windows, and alerts on pairs of burn rates. The
-- MimirRule holds the same groups (internal/helpers/mimirtool_helper.go). Conditions of the status
-- are kept by internal/utils/common_utils.go, the configuration by internal/config.
--
-- The files.
--   Prelude, Text, Map, Equal: shared names, strings and their order, association lists for Go's
--     maps, reflect.DeepEqual.
--   Errors: internal/errors/errors.go, and `Result` for functions that return an error or panic.
--   Api: api/openslo/v1 and api/osko/v1alpha1, with the fields of the Kubernetes and Prometheus
--     types that the operator reads or writes.
--   Runtime: what comes from outside, as parameters: float64, strconv and time parsers, fmt with
--     a precision, the environment, three methods of the Kubernetes and Prometheus libraries.
--   Config: NewConfig, the readers of the environment, AlertSeveritiesByTool, GetSeverity.
--   Rules: prometheus_helper.go. Labels has the label maps and their selector text; Recording the
--     recording rules and the validation of the target; Table the nested maps of SetupRules and
--     the groups read from them; Alerts the multi-window alerts; Setup is SetupRules itself
--     (loop, alert blocks, errors, panic), with Outcomes and Refusals for when it succeeds,
--     faults or refuses a target; Build is CreatePrometheusRule.
--   Mimir: NewMimirRule and NewMimirRuleGroups. (The other functions of mimirtool_helper.go are
--     in MimirController.Groups.)
--   Status: updateCondition, and the condition that UpdateStatus writes.
--   Cluster: the API server. A client is a state with calls that move it and may answer any
--     error, so that what others do between two calls is covered. Cluster.Steps has the steps of
--     a reconciler: they thread the state and the events, and may end the call with a result, an
--     error or a fault. Cluster.Retry has the reads and writes that are repeated on a conflict,
--     with RetryOnConflict as a parameter and, in Cluster.Retry.Runs, what it is documented to
--     do, and Cluster.Safety the steps that do not fault. Cluster.Tenancy has the steps that keep
--     what the calls in some namespaces keep, with a rule for each way to build a step, and what
--     a server has to answer for that; a module Tenancy under each reconciler carries this to its
--     functions.
--   SloController: Reconcile, by the phases Fetch (SLO, deletion, finalizer, datasource),
--     Indicator (the SLI), Rule (the PrometheusRule), Mimir and Alerting; the replies of each
--     call are told apart by a function of their own, in the order of the code. Watch has the
--     field index and the SLOs that an event of an SLI asks for, with List by the index as a
--     parameter. Phases says what a server that refuses no request answers, and Converges that
--     the reconciler then brings the resources of an SLO to their last phase.
--   MimirController: the reconciler of MimirRules
--     (internal/controller/osko/mimirrule_controller.go), which uploads the groups to Mimir's
--     ruler: Ruler has the client's calls, Retry the attempts that are repeated on a conflict,
--     Equal the comparison of two specifications, Deletion the clean-up, Create the branch for a
--     missing MimirRule and Upload the rest of Reconcile. Returns says when a call comes to an
--     end, and Namesakes sets two SLOs of one name side by side. The client of the ruler and
--     RetryOnConflict are parameters; what Mimir holds is a part of the state of the server.
--   PrometheusRuleController: the reconciler of PrometheusRules
--     (internal/controller/monitoring.coreos.com/prometheusrule_controller.go): Fetch has the
--     rule, its owner and the SLI, Equal the comparisons by reflect.DeepEqual, Update the
--     construction, the comparison and the replacement. The branch that creates a rule is
--     modelled too. Inline sets its SLI beside that of the SLO controller.
--   AlertManagerController: the reconciler of AlertManagerConfigs
--     (internal/controller/osko/alertmanagerconfig_controller.go): Deletion has the finalizer and
--     the clean-up, Configure the secret and the upload. The reconciler's field MimirClient lives
--     on from call to call, and is a part of the state. Mimir's client and the secrets are
--     parameters.
--   LegacyRules: the older builders of common_utils.go, which nothing calls: Labels has
--     MetricLabel, Ratio has Rule, whose pointers to shared labels are places in a store, and
--     Budget the rest.
--   SliController: the Reconcile functions of SLIs and of the alert resources.
--   DatasourceController: the reconciler of a Datasource
--     (internal/controller/openslo/datasource_controller.go), which tries the connection. The
--     client of the Prometheus API is a parameter. Transport has the round tripper that adds the
--     tenant.
--   Program: cmd/main.go. `Parts` is what comes from outside for all of the reconcilers; each of
--     them is made as main makes it, with or without an event recorder, and `serve` hands a
--     request to its reconciler, on one server. Start is `main` itself, with its flags; the
--     answers of the manager are a parameter, as is the message with which GetConfigOrDie exits.
--     Tenancy and Returns carry the theorems of the reconcilers to all requests. Watches has the
--     SetupWithManager functions, each as the list of sources that it gives to its builder; the
--     handlers of these sources are a parameter, and Owners has the owner references of the
--     AlertManagerConfig that an SLO has. The order in which the manager hands out requests is
--     arbitrary: a list of them.
--   Examples: a sample SLO, runtime and server, on which the theorems are applied.
--
-- How the model stands to the code. A Go map is an association list; a theorem that rests on its
-- having no key twice says so. `range` over a map has no order: mapToColonSeparatedString sorts,
-- and its result is shown not to depend on the order. A nil pointer is `none`. Logging is left out.
-- `Result` has a third case for a run-time fault. All recursion is structural, so there is no fuel.
-- Durations of errors are natural numbers of nanoseconds.
--
-- Not modelled: the parsing of the flags, the logger and the registration of schemes; the calls
-- of two reconcilers that run at the same time are covered only in so far as what others do is a
-- part of a call's answer. The alert policies of an SLO, which nothing reads; generated deep
-- copies, which immutable values do not need; the API types that no reconciler reads; the
-- generator of random metrics for development (devel/metrics-generator); manifests and charts.
pub mod Prelude
pub mod Text
pub mod Map
pub mod Equal
pub mod Errors
pub mod Api
pub mod Runtime
pub mod Config
pub mod Rules
pub mod Mimir
pub mod Status
pub mod Cluster
pub mod SloController
pub mod MimirController
pub mod PrometheusRuleController
pub mod DatasourceController
pub mod SliController
pub mod LegacyRules
pub mod AlertManagerController
pub mod Program
mod Examples
