-- ===== src/Plan/Data.antt =====
-- The rows that a plan is judged by (src/web/repository/records.py and the tables that
-- src/web/repository/condition.py reads). The snapshot of a recipe is of any type: what the plan
-- needs of it is the hash of its validated form. Decimals of a layout are their texts.
use perovskite_fabrication_w.Prelude.{ℕ, String, Option, List, Bool, ◌==◌}

pub data PlanStatus : Type 0 where
  draft pending_approval approved released in_progress completed cancelled : PlanStatus

pub data ConditionRole : Type 0 where
  control target standalone : ConditionRole

pub data ExceptionDecision : Type 0 where
  pending approved rejected invalidated : ExceptionDecision

-- `plan_type` is `None` or a text; only two texts are known.
pub data PlanType : Type 0 where
  comparative standalone unknown : PlanType

pub record DeviceLayout : Type 0 where
  pub code : String
  pub version : ℕ
  pub substrate_width_mm : String
  pub substrate_length_mm : String
  pub devices_per_substrate : ℕ
  pub device_active_area_cm2 : String
  pub total_active_area_cm2 : String
  pub description : String

-- `device_layout_snapshot` is `none` where the column holds no mapping.
pub record Condition (Snapshot : Type 0) : Type 0 where
  pub ident : ℕ
  pub role : ConditionRole
  pub requires_manual_review : Bool
  pub recipe_snapshot : Snapshot
  pub canonical_hash : String
  pub device_layout_code : String
  pub device_layout_snapshot : Option DeviceLayout
  pub planned_substrate_count : ℕ
  pub expected_device_count : ℕ

pub record SubstrateException : Type 0 where
  pub ident : ℕ
  pub condition_id : ℕ
  pub requested_count : ℕ
  pub reason : String
  pub decision : ExceptionDecision
  pub decided_by : Option ℕ
  pub decided_at : Option ℕ
  pub decision_note : String
  pub approved_condition_hash : Option String

pub record PlanEvent : Type 0 where
  pub actor : ℕ
  pub from : PlanStatus
  pub to : PlanStatus

-- An experiment with its conditions, the exceptions of all conditions, the layout table and the
-- number of its fabrication batches.
pub record Plan (Snapshot : Type 0) : Type 0 where
  pub created_by : ℕ
  pub plan_type : PlanType
  pub plan_status : Option PlanStatus
  pub conditions : List (Condition Snapshot)
  pub exceptions : List SubstrateException
  pub layouts : List DeviceLayout
  pub batch_count : ℕ
  pub audit : List PlanEvent

abbrev pub decision_rank : ExceptionDecision → ℕ
decision_rank ExceptionDecision.pending = 0
decision_rank ExceptionDecision.approved = 1
decision_rank ExceptionDecision.rejected = 2
decision_rank ExceptionDecision.invalidated = 3

abbrev pub decision_eq : ExceptionDecision → ExceptionDecision → Bool
decision_eq a b = decision_rank a == decision_rank b

abbrev pub condition_role_rank : ConditionRole → ℕ
condition_role_rank ConditionRole.control = 0
condition_role_rank ConditionRole.target = 1
condition_role_rank ConditionRole.standalone = 2
