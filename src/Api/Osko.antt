-- ===== src/Api/Osko.antt =====
-- api/osko/v1alpha1: connection details, the MimirRule and the AlertManagerConfig; and the
-- Datasource of api/openslo/v1, which holds connection details.
use osko.Prelude.{ℕ, String, Bool, Option, List}
use osko.Map.{Map}
use osko.Api.Meta.{ObjectMeta, Condition}

pub record ConnectionDetails : Type 0 where
  pub address : String
  pub target_tenant : String
  pub source_tenants : List String
  pub sync_prometheus_rules : Bool

pub record DatasourceSpec : Type 0 where
  pub description : String
  pub type : String
  pub connection_details : ConnectionDetails

pub record Datasource : Type 0 where
  pub meta : ObjectMeta
  pub spec : DatasourceSpec

pub record MimirRuleNode : Type 0 where
  pub record_name : String
  pub alert : String
  pub expr : String
  pub for_duration : Option String
  pub keep_firing_for : ℕ
  pub labels : Map String
  pub annotations : Map String

pub record MimirRuleGroup : Type 0 where
  pub name : String
  pub source_tenants : List String
  pub rules : List MimirRuleNode
  pub interval : ℕ
  pub evaluation_delay : Option ℕ
  pub limit : ℕ
  pub align_evaluation_time_on_interval : Bool

pub record MimirRuleSpec : Type 0 where
  pub connection_details : ConnectionDetails
  pub groups : List MimirRuleGroup

pub record MimirRuleStatus : Type 0 where
  pub conditions : List Condition
  pub last_evaluation_time : ℕ
  pub ready : String

pub record MimirRule : Type 0 where
  pub meta : ObjectMeta
  pub spec : MimirRuleSpec
  pub status : MimirRuleStatus

pub record SecretRef : Type 0 where
  pub name : String
  pub namespace : String

pub record AlertManagerConfigSpec : Type 0 where
  pub secret_ref : SecretRef

pub record AlertManagerConfigStatus : Type 0 where
  pub conditions : List Condition
  pub last_evaluation_time : ℕ
  pub ready : String

pub record AlertManagerConfig : Type 0 where
  pub meta : ObjectMeta
  pub spec : AlertManagerConfigSpec
  pub status : AlertManagerConfigStatus
