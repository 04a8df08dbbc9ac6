-- ===== src/Api/Meta.antt =====
-- The fields of the Kubernetes metadata types that the operator reads or sets. A resource quantity,
-- a time stamp and a version are held as the text or number that stands in the manifest.
use osko.Prelude.{ℕ, String, Bool, Option, none, List, []}
use osko.Map.{Map}

pub record OwnerReference : Type 0 where
  pub api_version : String
  pub kind : String
  pub name : String
  pub uid : String
  pub controller : Bool

pub record ObjectMeta : Type 0 where
  pub name : String
  pub namespace : String
  pub uid : String
  pub resource_version : String
  pub labels : Map String
  pub annotations : Map String
  pub finalizers : List String
  pub owner_references : List OwnerReference
  pub deletion_timestamp : Option ℕ

abbrev pub empty_meta : ObjectMeta
empty_meta = record {
  name = "";
  namespace = "";
  uid = "";
  resource_version = "";
  labels = [];
  annotations = [];
  finalizers = [];
  owner_references = [];
  deletion_timestamp = none;
}

pub record Condition : Type 0 where
  pub type : String
  pub status : String
  pub reason : String
  pub message : String
  pub last_transition_time : ℕ

-- The key of a resource: `types.NamespacedName`.
pub record NamespacedName : Type 0 where
  pub name : String
  pub namespace : String
