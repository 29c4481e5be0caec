-- ===== src/Api/Status.antt =====
-- api/v1/picoclusterdb_types.go: the observed state.
use picodata_operator.Base.{ℕ, String, Bool, List}
use picodata_operator.Base.Int.{ℤ}

-- The phases that the API admits.
pub data ClusterPhase : Type 0 where
  pending initializing ready degraded unknown : ClusterPhase

-- `metav1.ConditionStatus`
pub data ConditionStatus : Type 0 where
  condition_true condition_false condition_unknown : ConditionStatus

-- `metav1.Condition`; a time is a number of seconds.
pub record Condition : Type 0 where
  pub type : String
  pub status : ConditionStatus
  pub reason : String
  pub message : String
  pub last_transition_time : ℕ

pub record PluginStatus : Type 0 where
  pub name : String
  pub version : String
  pub enabled : Bool

pub record TierStatus : Type 0 where
  pub name : String
  pub ready_replicas : ℤ
  pub desired_replicas : ℤ
  pub plugins : List PluginStatus

pub record PicoclusterDbStatus : Type 0 where
  pub phase : ClusterPhase
  pub tiers : List TierStatus
  pub conditions : List Condition

-- The condition type that the operator sets.
abbrev pub condition_ready : String
condition_ready = "Ready"
