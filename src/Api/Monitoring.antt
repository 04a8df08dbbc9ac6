-- ===== src/Api/Monitoring.antt =====
-- The Prometheus operator's `PrometheusRule`, as far as the operator builds and reads it.
use osko.Prelude.{ℕ, String, Option, none, List, []}
use osko.Map.{Map}
use osko.Api.Meta.{ObjectMeta}

-- `intstr.IntOrString`; its `String` method is an argument where it is called.
pub data IntOrString : Type 0 where
  int_val : ℕ → IntOrString
  str_val : String → IntOrString

pub record Rule : Type 0 where
  pub record_name : String
  pub alert : String
  pub expr : IntOrString
  pub for_duration : Option String
  pub keep_firing_for : Option String
  pub labels : Map String
  pub annotations : Map String

-- `monitoringv1.Rule{}`
abbrev pub empty_rule : Rule
empty_rule = record {
  record_name = "";
  alert = "";
  expr = int_val 0;
  for_duration = none;
  keep_firing_for = none;
  labels = [];
  annotations = [];
}

pub record RuleGroup : Type 0 where
  pub name : String
  pub interval : Option String
  pub rules : List Rule
  pub partial_response_strategy : String
  pub limit : Option ℕ

-- `monitoringv1.RuleGroup{Name: name, Rules: rules}`
abbrev pub named_group : String → List Rule → RuleGroup
named_group name rules = record {
  name = name;
  interval = none;
  rules = rules;
  partial_response_strategy = "";
  limit = none;
}

pub record PrometheusRule : Type 0 where
  pub api_version : String
  pub kind : String
  pub meta : ObjectMeta
  pub groups : List RuleGroup
