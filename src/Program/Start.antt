-- ===== src/Program/Start.antt =====
-- cmd/main.go: `main` itself, with the manager of controller-runtime as a parameter.
pub mod Laws
use osko.Prelude.{String, ◌<>◌, Bool, Option, some, none, List}
use osko.Errors.{GoError}
use osko.Program.{
  Controller, datasource_controller, slo_controller, sli_controller, prometheus_rule_controller,
  alert_policy_controller, alert_condition_controller, alert_notification_target_controller,
  mimir_rule_controller, alert_manager_config_controller,
}

-- The flags of the command line, with what they are without an argument.
pub record Flags : Type 0 where
  pub metrics_addr : String
  pub probe_addr : String
  pub enable_leader_election : Bool

abbrev pub default_flags : Flags
default_flags = record {
  metrics_addr = ":8080";
  probe_addr = ":8081";
  enable_leader_election = Bool.false;
}

-- ctrl.Options, with the metrics options' address
pub record ManagerOptions : Type 0 where
  pub metrics_bind_address : String
  pub health_probe_bind_address : String
  pub leader_election : Bool
  pub leader_election_id : String

unfoldable pub manager_options : Flags → ManagerOptions
manager_options f = record {
  metrics_bind_address = f.metrics_addr;
  health_probe_bind_address = f.probe_addr;
  leader_election = f.enable_leader_election;
  leader_election_id = "ea6aa475.osko";
}

-- What `main` and the SetupWithManager functions ask of controller-runtime: the configuration
-- of the cluster, the manager, IndexField of the SLOs, the builder's Complete, the checks and Start.
pub data Ask (D : Type 0) : Type 0 where
  get_config : Ask D
  new_manager : ManagerOptions → Ask D
  index_slos : Ask D
  build : Controller D → Ask D
  add_healthz_check add_readyz_check : String → Ask D
  start : Ask D

-- The library: each request is answered with an error or without.
pub record Manager (D : Type 0) : Type 1 where
  pub State : Type 0
  pub answer : Ask D → State → Option GoError × State
  -- With what GetConfigOrDie exits where there is no configuration of a cluster.
  pub config_message : String

-- How the program ends: `main` returns, or it logs a message, and what it is about, and exits with
-- the code 1.
pub data Exit : Type 0 where
  ended : Exit
  exited : String → Exit

module _ {D : Type 0} (M : Manager D) where
  -- `none` where the program goes on, and else the message with which it exits.
  abbrev pub Task : Type 0
  Task = M.State → Option String × M.State

  checked : String → Option GoError × M.State → Option String × M.State
  checked message (none, s) = (none, s)
  checked message (some e, s) = (some message, s)

  -- if err := ...; err != nil { setupLog.Error(err, message); os.Exit(1) }
  unfoldable pub ask : String → Ask D → Task
  unfolding checked
  ask message a s = checked message (M.answer a s)

  go_on : Task → Option String × M.State → Option String × M.State
  go_on k (none, s) = k s
  go_on k (some m, s) = (some m, s)

  infixl 5 ◌>>◌
  unfoldable pub ◌>>◌ : Task → Task → Task
  unfolding go_on
  ◌>>◌ m k s = go_on k (m s)

  create : Controller D → Task
  create c = ask ("unable to create controller " <> c.name) (build c)

  -- From the configuration of the cluster on. `period` is config.Cfg.MimirRuleRequeuePeriod.
  unfoldable pub set_up : Flags → D → Task
  unfolding create
  set_up flags period = do
    -- ctrl.GetConfigOrDie() ends the program itself.
    ask M.config_message get_config
    ask "unable to start manager" (new_manager (manager_options flags))
    create datasource_controller
    -- The SetupWithManager of SLOs begins with createIndices.
    ask "unable to create controller SLO" index_slos
    create slo_controller
    create sli_controller
    create prometheus_rule_controller
    create alert_policy_controller
    create alert_condition_controller
    create alert_notification_target_controller
    create (mimir_rule_controller period)
    create alert_manager_config_controller
    ask "unable to set up health check" (add_healthz_check "healthz")
    ask "unable to set up ready check" (add_readyz_check "readyz")
    ask "problem running manager" start

  abbrev exit_of : Option String → Exit
  exit_of none = ended
  exit_of (some m) = exited m

  unfoldable pub main : Flags → D → M.State → Exit × M.State
  main flags period s = let (m, t) = set_up flags period s in (exit_of m, t)
