-- ===== src/Work/AsPlanned.antt =====
-- `record_batch_as_planned` of src/web/repository/batch.py: each row that is open and unrecorded gets its
-- plan as its actual snapshot.
pub mod Copies
pub mod Twice
pub mod Kept
use perovskite_fabrication_w.Prelude.{
  ℕ, String, Option, none, some, List, [], ◌∷◌, ◌++◌, Bool, true, false, not, ◌&&◌, ◌||◌, Result,
  ok, err, ◌>>=◌, ◌>>◌, if◌then◌else◌, ◌==◌, is_none, keep, count, map,
}
use perovskite_fabrication_w.Recipe.Data.{SolutionRecipe}
use perovskite_fabrication_w.Recipe.Layer.{traverse}
use perovskite_fabrication_w.Snapshots.{
  ProcessOperation, validate_solution_snapshot, validate_process_snapshot,
}
use perovskite_fabrication_w.Batch.Data.{UserRole}
use perovskite_fabrication_w.Batch.Lifecycle.{preparation_terminal, execution_terminal}
use perovskite_fabrication_w.Work.Data.{
  copied_from_plan, PreparationRow, ExecutionRow, WorkEvent, Tables,
}
use perovskite_fabrication_w.Work.{WorkError, or_snapshot_refused, is_open, batch_for_actor}
use perovskite_fabrication_w.Work.Preparations.{solution_schema_version}
use perovskite_fabrication_w.Work.Executions.Recording.{process_schema_version}

-- The rows that the two queries select. The statuses that they list are those that are not terminal.
abbrev pub is_pending : ℕ → PreparationRow → Bool
is_pending batch_id p =
    p.fabrication_batch_id == batch_id
    && is_none p.recording_mode
    && not (preparation_terminal p.status)

abbrev pub is_pending_execution : ℕ → ExecutionRow → Bool
is_pending_execution batch_id e =
    e.fabrication_batch_id == batch_id
    && is_none e.recording_mode
    && not (execution_terminal e.status)

abbrev pub event : ℕ → String → ℕ → WorkEvent
event actor action id = record { actor = actor; action = action; entity_id = id }

-- What the call returns, with the tables after it.
pub record Recorded : Type 0 where
  pub tables : Tables
  pub preparations : ℕ
  pub executions : ℕ

module _ (solution_hash : SolutionRecipe → String) (process_hash : ProcessOperation → String)
    (now actor : ℕ) where
  abbrev pub copied_preparation : PreparationRow → SolutionRecipe → PreparationRow
  copied_preparation p snapshot = record p {
    actual_snapshot = some snapshot;
    actual_version = some solution_schema_version;
    actual_hash = some (solution_hash snapshot);
    recording_mode = some copied_from_plan;
    prepared_by = some actor;
    prepared_at = some now;
    updated_at = now;
  }

  unfoldable pub copy_preparation : ℕ → PreparationRow → Result WorkError PreparationRow
  copy_preparation batch_id p =
      if is_pending batch_id p
      then (do
        snapshot ← or_snapshot_refused (validate_solution_snapshot p.planned_snapshot)
        ok (copied_preparation p snapshot))
      else ok p

  abbrev pub copied_execution : ExecutionRow → ProcessOperation → ExecutionRow
  copied_execution e snapshot = record e {
    actual_snapshot = some snapshot;
    actual_version = some process_schema_version;
    actual_hash = some (process_hash snapshot);
    recording_mode = some copied_from_plan;
    executed_by = some actor;
    updated_at = now;
  }

  unfoldable pub copy_execution : ℕ → ExecutionRow → Result WorkError ExecutionRow
  copy_execution batch_id e =
      if is_pending_execution batch_id e
      then (do
        snapshot ←
            or_snapshot_refused (validate_process_snapshot (some e.method) e.planned_snapshot)
        ok (copied_execution e snapshot))
      else ok e

  abbrev pub prepared_events : List PreparationRow → List WorkEvent
  prepared_events rows = map (λ p. event actor "solution_preparation.update" p.ident) rows

  abbrev pub executed_events : List ExecutionRow → List WorkEvent
  executed_events rows = map (λ e. event actor "process_execution.update" e.ident) rows

  -- One more event for the batch if there is an event of a row.
  abbrev pub with_summary : ℕ → List WorkEvent → List WorkEvent
  with_summary batch_id [] = []
  with_summary batch_id (x ∷ xs) =
      (x ∷ xs) ++ (event actor "fabrication_batch.record_as_planned" batch_id ∷ [])

  -- The audit events: one for each row that is written, and the summary.
  unfoldable pub copy_events : ℕ → Tables → List WorkEvent
  copy_events batch_id t = with_summary batch_id (
      prepared_events (keep (is_pending batch_id) t.preparations)
      ++ executed_events (keep (is_pending_execution batch_id) t.executions))

  unfoldable pub record_batch_as_planned : Option UserRole → Tables → ℕ → Result WorkError Recorded
  unfolding copy_preparation copy_execution copy_events
  record_batch_as_planned actor_role t batch_id = do
    locked ← batch_for_actor t batch_id actor actor_role is_open
    preparations ← traverse (copy_preparation batch_id) t.preparations
    executions ← traverse (copy_execution batch_id) t.executions
    ok (record {
      tables = record t {
        preparations = preparations;
        executions = executions;
        audit = t.audit ++ copy_events batch_id t;
      };
      preparations = count (is_pending batch_id) t.preparations;
      executions = count (is_pending_execution batch_id) t.executions;
    })
