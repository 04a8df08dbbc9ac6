-- ===== src/Api/OpenSlo.antt =====
-- api/openslo/v1: the SLO, the SLI and the datasource.
use osko.Prelude.{ℕ, String, Bool, Option, none, List, []}
use osko.Api.Meta.{ObjectMeta, Condition, empty_meta}

pub record MetricSourceSpec : Type 0 where
  pub query : String

pub record MetricSource : Type 0 where
  pub metric_source_ref : String
  pub type : String
  pub spec : MetricSourceSpec

pub record MetricSpec : Type 0 where
  pub metric_source : MetricSource

pub record RatioMetricSpec : Type 0 where
  pub raw : MetricSpec
  pub raw_type : String
  pub good : MetricSpec
  pub bad : MetricSpec
  pub total : MetricSpec
  pub counter : Bool

pub record ThresholdMetricSpec : Type 0 where
  pub metric_source : MetricSource

pub record SliSpec : Type 0 where
  pub description : String
  pub threshold_metric : ThresholdMetricSpec
  pub ratio_metric : RatioMetricSpec

pub record Sli : Type 0 where
  pub meta : ObjectMeta
  pub spec : SliSpec

pub record Indicator : Type 0 where
  pub metadata : ObjectMeta
  pub spec : SliSpec

pub record ObjectivesSpec : Type 0 where
  pub display_name : String
  pub op : String
  pub value : String
  pub target : String
  pub target_percent : String
  pub time_slice_target : String
  pub time_slice_window : String
  pub indicator : Option Indicator
  pub indicator_ref : Option String
  pub composite_weight : String

pub record CalendarSpec : Type 0 where
  pub start_time : String
  pub time_zone : String

pub record TimeWindowSpec : Type 0 where
  pub duration : String
  pub is_rolling : Bool
  pub calendar : CalendarSpec

-- The alert policies of the specification are not read by the operator, and are left out.
pub record SloSpec : Type 0 where
  pub description : String
  pub service : String
  pub indicator : Option Indicator
  pub indicator_ref : Option String
  pub time_window : List TimeWindowSpec
  pub budgeting_method : String
  pub objectives : List ObjectivesSpec

pub record SloStatus : Type 0 where
  pub conditions : List Condition
  pub current_slo : String
  pub last_evaluation_time : ℕ
  pub ready : String

pub record Slo : Type 0 where
  pub meta : ObjectMeta
  pub spec : SloSpec
  pub status : SloStatus

-- `&openslov1.SLO{}`
abbrev pub empty_slo : Slo
empty_slo = record {
  meta = empty_meta;
  spec = record {
    description = "";
    service = "";
    indicator = none;
    indicator_ref = none;
    time_window = [];
    budgeting_method = "";
    objectives = [];
  };
  status = record { conditions = []; current_slo = ""; last_evaluation_time = 0; ready = "" };
}
