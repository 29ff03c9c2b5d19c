-- ===== src/Batch/Data.antt =====
-- The rows that belong to one fabrication batch (src/web/repository/records.py and the tables that
-- src/web/repository/batch.py reads and writes). Times are numbers; a substrate is named by its
-- ordinal in its condition, a row by its id.
use perovskite_fabrication_w.Prelude.{ℕ, String, Option, List, Bool, ◌==◌}

pub data UserRole : Type 0 where
  student instructor administrator : UserRole

-- ROLE_RANK
abbrev pub role_rank : UserRole → ℕ
role_rank student = 1
role_rank instructor = 2
role_rank administrator = 3

abbrev pub is_student : UserRole → Bool
is_student r = role_rank r == 1

pub data BatchStatus : Type 0 where
  draft ready in_progress completed cancelled : BatchStatus

pub data PreparationStatus : Type 0 where
  planned preparing ready consumed discarded : PreparationStatus

pub data ExecutionStatus : Type 0 where
  planned ready running completed failed cancelled : ExecutionStatus

pub record Use : Type 0 where
  pub ident : ℕ
  pub batch_condition_id : ℕ
  pub layer_ordinal : ℕ

pub record Preparation : Type 0 where
  pub ident : ℕ
  pub status : PreparationStatus
  pub planned_hash : String
  pub actual_snapshot : Option String
  pub uses : List Use

pub record Execution : Type 0 where
  pub ident : ℕ
  pub status : ExecutionStatus
  pub actual_snapshot : Option String

-- A member row of an execution group, kept with the condition that its substrate belongs to.
pub record Member : Type 0 where
  pub execution_id : ℕ
  pub layer_ordinal : ℕ
  pub layer_snapshot_hash : String
  pub substrate : ℕ

pub record Substrate : Type 0 where
  pub ordinal : ℕ
  pub device_ordinals : List ℕ

-- What `_required_layer_ordinals_from_snapshot` reads of a frozen recipe.
pub record LayerSummary : Type 0 where
  pub has_process : Bool
  pub is_perovskite : Bool

pub record RecipeSnapshot : Type 0 where
  pub layers : List LayerSummary
  pub has_deposition_steps : Bool

pub record BatchCondition : Type 0 where
  pub ident : ℕ
  pub planned_substrate_count : ℕ
  pub actual_substrate_count : Option ℕ
  pub recipe_snapshot : RecipeSnapshot
  -- The devices on a substrate of the layout that the catalog has for the code and the version of the
  -- frozen snapshot; `none` when it has no such layout.
  pub layout_devices : Option ℕ
  pub substrates : List Substrate
  pub members : List Member

pub record Shortfall : Type 0 where
  pub condition_id : ℕ
  pub description : String
  pub planned : ℕ
  pub actual : ℕ

pub record AuditEvent : Type 0 where
  pub actor : ℕ
  pub from : BatchStatus
  pub to : BatchStatus

pub record Batch : Type 0 where
  pub owner : ℕ
  pub status : BatchStatus
  pub started_at : Option ℕ
  pub completed_at : Option ℕ
  pub cancelled_at : Option ℕ
  pub conditions : List BatchCondition
  pub preparations : List Preparation
  pub executions : List Execution
  pub shortfalls : List Shortfall
  pub audit : List AuditEvent
