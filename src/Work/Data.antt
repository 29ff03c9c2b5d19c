-- ===== src/Work/Data.antt =====
-- The rows of one database that src/web/repository/batch.py reads and writes while a batch is carried
-- out (the tables of src/web/database.py). A row is named by its primary key, a time is a number.
-- The times of creation and the free values of a deviation are left out: nothing reads them.
use perovskite_fabrication_w.Prelude.{ℕ, String, Option, List, Bool}
use perovskite_fabrication_w.Recipe.Data.{SolutionRecipe}
use perovskite_fabrication_w.Snapshots.{ProcessOperation}
use perovskite_fabrication_w.Batch.Data.{BatchStatus, PreparationStatus, ExecutionStatus}

pub data RecordingMode : Type 0 where
  copied_from_plan entered : RecordingMode

-- A batch with the owner of its experiment.
pub record BatchRow : Type 0 where
  pub ident : ℕ
  pub owner : Option ℕ
  pub status : BatchStatus

-- solution_preparations
pub record PreparationRow : Type 0 where
  pub ident : ℕ
  pub fabrication_batch_id : ℕ
  pub preparation_code : String
  pub status : PreparationStatus
  pub planned_snapshot : SolutionRecipe
  pub planned_version : ℕ
  pub planned_hash : String
  pub actual_snapshot : Option SolutionRecipe
  pub actual_version : Option ℕ
  pub actual_hash : Option String
  pub recording_mode : Option RecordingMode
  pub prepared_by : Option ℕ
  pub prepared_at : Option ℕ
  pub completed_at : Option ℕ
  pub notes : String
  pub updated_at : ℕ

-- solution_preparation_uses
pub record UseRow : Type 0 where
  pub ident : ℕ
  pub solution_preparation_id : ℕ
  pub batch_condition_id : ℕ
  pub layer_ordinal : ℕ
  pub layer_role : String
  pub layer_type : String
  pub layer_snapshot_hash : String

-- process_executions
pub record ExecutionRow : Type 0 where
  pub ident : ℕ
  pub fabrication_batch_id : ℕ
  pub execution_code : String
  pub method : String
  pub layer_role : String
  pub layer_type : String
  pub layer_name : String
  pub status : ExecutionStatus
  pub is_shared : Bool
  pub planned_snapshot : ProcessOperation
  pub planned_version : ℕ
  pub planned_hash : String
  pub actual_snapshot : Option ProcessOperation
  pub actual_version : Option ℕ
  pub actual_hash : Option String
  pub recording_mode : Option RecordingMode
  pub executed_by : Option ℕ
  pub equipment_identifier : Option String
  pub started_at : Option ℕ
  pub completed_at : Option ℕ
  pub notes : String
  pub updated_at : ℕ

-- process_execution_members
pub record MemberRow : Type 0 where
  pub ident : ℕ
  pub process_execution_id : ℕ
  pub substrate_id : ℕ
  pub batch_condition_id : ℕ
  pub layer_ordinal : ℕ
  pub layer_snapshot_hash : String

-- What a deviation names, each at most once.
pub record Targets : Type 0 where
  pub solution_preparation_id : Option ℕ
  pub process_execution_id : Option ℕ
  pub substrate_id : Option ℕ
  pub device_id : Option ℕ
  pub condition_id : Option ℕ

-- execution_deviations
pub record DeviationRow : Type 0 where
  pub ident : ℕ
  pub fabrication_batch_id : ℕ
  pub category : String
  pub severity : String
  pub deviation_type : String
  pub description : String
  pub recorded_by : ℕ
  pub recorded_at : ℕ
  pub supersedes : Option ℕ
  pub targets : Targets

pub record ConditionRow : Type 0 where
  pub ident : ℕ
  pub fabrication_batch_id : ℕ

pub record SubstrateRow : Type 0 where
  pub ident : ℕ
  pub batch_condition_id : ℕ

pub record DeviceRow : Type 0 where
  pub ident : ℕ
  pub substrate_id : ℕ

-- An audit event, without its details and the address of the client.
pub record WorkEvent : Type 0 where
  pub actor : ℕ
  pub action : String
  pub entity_id : ℕ

pub record Tables : Type 0 where
  pub batches : List BatchRow
  pub conditions : List ConditionRow
  pub substrates : List SubstrateRow
  pub devices : List DeviceRow
  pub preparations : List PreparationRow
  pub uses : List UseRow
  pub executions : List ExecutionRow
  pub members : List MemberRow
  pub deviations : List DeviationRow
  pub audit : List WorkEvent
