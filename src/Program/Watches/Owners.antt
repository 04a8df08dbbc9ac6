-- ===== src/Program/Watches/Owners.antt =====
-- The owner references of the AlertManagerConfig that the SLO reconciler makes.
use osko.Prelude.{◌≡◌, false, [], All, arith}
use osko.Errors.{ok}
use osko.Api.Meta.{ObjectMeta, OwnerReference}
use osko.Api.OpenSlo.{Slo}
use osko.Api.Osko.{Datasource, AlertManagerConfig}
use osko.Cluster.{Controllerutil}
use osko.SloController.Alerting.{create_alert_manager_config}

-- No reference is that of a controller.
abbrev pub Uncontrolled : ObjectMeta → Type 0
Uncontrolled m = All (λ (r : OwnerReference). r.controller ≡ false) m.owner_references

-- As documented: SetOwnerReference adds a reference that is not a controller's, or overwrites one to
-- the same object with it.
abbrev pub AddsNoController : Controllerutil → Type 0
AddsNoController U =
    (owner m n : ObjectMeta)
    → Uncontrolled m
    → U.set_owner_reference owner "SLO" m ≡ ok n
    → Uncontrolled n

pub owners-create_alert_manager_config :
    (slo : Slo) (ds : Datasource) (amc : AlertManagerConfig)
    → create_alert_manager_config slo ds ≡ ok amc
    → amc.meta.owner_references ≡ []
unfolding create_alert_manager_config
owners-create_alert_manager_config slo ds amc made = ground (arith, made)
