-- ===== src/Work/Executions/Recording.antt =====
-- The creation and the update of a process execution: what is planned, and what is recorded of it.
use perovskite_fabrication_w.Prelude.{
  ℕ, suc, String, Option, none, some, Bool, true, false, not, ◌&&◌, ◌||◌, Result, ok, ◌>>=◌, ◌>>◌,
  raise_if, if◌then◌else◌, ◌==◌, is_none, is_some, count,
}
use Prim.Native.String.{◌++◌ as text_append}
use perovskite_fabrication_w.Prelude.Text.{strip, take, decimal}
use perovskite_fabrication_w.Snapshots.{ProcessOperation, validate_process_snapshot}
use perovskite_fabrication_w.Batch.Data.{UserRole, ExecutionStatus}
use perovskite_fabrication_w.Batch.Lifecycle.{execution_terminal}
use perovskite_fabrication_w.Work.Data.{
  RecordingMode, copied_from_plan, entered, ExecutionRow, Tables,
}
use perovskite_fabrication_w.Work.Rows.{alter, two_digits}
use perovskite_fabrication_w.Work.{
  WorkError, or_snapshot_refused, unknown_execution, both_given, transition_refused,
  actual_required, terminal_immutable, is_draft, is_open, batch_for_actor, with_event,
  execution_transition_allowed,
}
use perovskite_fabrication_w.Work.Preparations.{short_notes}
use perovskite_fabrication_w.Work.Executions.{
  execution_status_eq, is_execution, find_execution, insert_execution,
}

-- PROCESS_SNAPSHOT_SCHEMA_VERSION
abbrev pub process_schema_version : ℕ
process_schema_version = 1

-- The arguments of a creation.
pub record NewExecution : Type 0 where
  pub method : String
  pub layer_role : String
  pub layer_type : String
  pub layer_name : String
  pub planned : ProcessOperation
  pub is_shared : Bool
  pub notes : String

-- The arguments of an update; `none` is an argument that is not given.
pub record ExecutionUpdate : Type 0 where
  pub actual : Option ProcessOperation
  pub actual_matches_planned : Bool
  pub status : Option ExecutionStatus
  pub equipment_identifier : Option String
  pub notes : Option String
  pub fabrication_batch_id : Option ℕ

-- An actual snapshot with the way it was recorded.
pub record ActualProcess : Type 0 where
  pub snapshot : ProcessOperation
  pub mode : RecordingMode

abbrev pub recorded_process : RecordingMode → ProcessOperation → Option ActualProcess
recorded_process mode snapshot = some (record { snapshot = snapshot; mode = mode })

-- What the update records: the plan copied, the snapshot that was entered, or nothing.
unfoldable pub normalized_actual :
    ExecutionRow → ExecutionUpdate → Result WorkError (Option ActualProcess)
normalized_actual existing u =
    if u.actual_matches_planned
    then (do
      snapshot ←
          or_snapshot_refused
            (validate_process_snapshot (some existing.method) existing.planned_snapshot)
      ok (recorded_process copied_from_plan snapshot))
    else (elim u.actual [
      | none ↦ ok none
      | some given ↦ do
        snapshot ← or_snapshot_refused (validate_process_snapshot (some existing.method) given)
        ok (recorded_process entered snapshot)
    ])

-- `given is not None and actual != given`
abbrev pub is_elsewhere : Option ℕ → ℕ → Bool
is_elsewhere none batch_id = false
is_elsewhere (some given) batch_id = not (batch_id == given)

-- `status is not None and status != current and status not in allowed`
unfoldable pub transition_fails : ExecutionStatus → Option ExecutionStatus → Bool
transition_fails current none = false
transition_fails current (some status) =
    not (execution_status_eq status current) && not (execution_transition_allowed current status)

abbrev pub completes : Option ExecutionStatus → Bool
completes (some ExecutionStatus.completed) = true
completes _ = false

abbrev pub set_status : ℕ → Option ExecutionStatus → ExecutionRow → ExecutionRow
set_status now none p = p
set_status now (some ExecutionStatus.completed) p = record p {
  status = ExecutionStatus.completed;
  completed_at = some now;
}
set_status now (some ExecutionStatus.running) p = record p {
  status = ExecutionStatus.running;
  started_at = some now;
}
set_status now (some status) p = record p { status = status }

abbrev pub set_notes : Option String → ExecutionRow → ExecutionRow
set_notes none p = p
set_notes (some notes) p = record p { notes = short_notes notes }

-- `equipment_identifier.strip()[:120]`
abbrev pub set_equipment : Option String → ExecutionRow → ExecutionRow
set_equipment none p = p
set_equipment (some identifier) p = record p {
  equipment_identifier = some (take 120 (strip identifier));
}

-- `f"E{fabrication_batch_id}-{count + 1:02d}"`
unfoldable pub execution_code_of : ℕ → ℕ → String
unfolding decimal two_digits
execution_code_of batch_id number =
    text_append "E" (text_append (decimal batch_id) (text_append "-" (two_digits number)))

module _ (snapshot_hash : ProcessOperation → String) where
  abbrev pub set_actual : ℕ → ℕ → Option ActualProcess → ExecutionRow → ExecutionRow
  set_actual now actor none p = p
  set_actual now actor (some a) p = record p {
    actual_snapshot = some a.snapshot;
    actual_version = some process_schema_version;
    actual_hash = some (snapshot_hash a.snapshot);
    recording_mode = some a.mode;
    executed_by = some actor;
  }

  -- The values of the UPDATE statement.
  unfoldable pub write_execution :
      ℕ → ℕ → ExecutionUpdate → Option ActualProcess → ExecutionRow → ExecutionRow
  write_execution now actor u actual p = set_actual now actor actual (
      set_notes u.notes (
        set_equipment u.equipment_identifier
          (set_status now u.status (record p { updated_at = now }))))

  -- The row was found and is locked, so the UPDATE meets exactly one row.
  unfoldable pub update_process_execution :
      ℕ → ℕ → Option UserRole → Tables → ℕ → ExecutionUpdate → Result WorkError Tables
  unfolding normalized_actual transition_fails write_execution
  update_process_execution now actor actor_role t execution_id u = do
    raise_if (is_some u.actual && u.actual_matches_planned) both_given
    existing ← find_execution t execution_id
    actual ← normalized_actual existing u
    raise_if (is_elsewhere u.fabrication_batch_id existing.fabrication_batch_id) unknown_execution
    locked ← batch_for_actor t existing.fabrication_batch_id actor actor_role is_open
    raise_if (transition_fails existing.status u.status) transition_refused
    raise_if (completes u.status && is_none actual && is_none existing.actual_snapshot)
        actual_required
    raise_if
        (execution_terminal existing.status
          && (is_some u.status
              || is_some actual
              || is_some u.equipment_identifier
              || is_some u.notes))
        terminal_immutable
    ok (
        with_event actor "process_execution.update" execution_id (record t {
          executions =
              alter (is_execution execution_id) (write_execution now actor u actual) t.executions;
        }))

  -- The row that a creation inserts.
  unfoldable pub new_execution : ℕ → ℕ → ℕ → Tables → NewExecution → ProcessOperation → ExecutionRow
  new_execution now new_id batch_id t given planned = record {
    ident = new_id;
    fabrication_batch_id = batch_id;
    execution_code =
        execution_code_of batch_id
          (suc (count (λ e. e.fabrication_batch_id == batch_id) t.executions));
    method = given.method;
    layer_role = given.layer_role;
    layer_type = given.layer_type;
    layer_name = given.layer_name;
    status = ExecutionStatus.planned;
    is_shared = given.is_shared;
    planned_snapshot = planned;
    planned_version = process_schema_version;
    planned_hash = snapshot_hash planned;
    actual_snapshot = none;
    actual_version = none;
    actual_hash = none;
    recording_mode = none;
    executed_by = none;
    equipment_identifier = none;
    started_at = none;
    completed_at = none;
    notes = short_notes given.notes;
    updated_at = now;
  }

  unfoldable pub create_process_execution :
      ℕ → ℕ → ℕ → Option UserRole → Tables → ℕ → NewExecution → Result WorkError Tables
  create_process_execution now new_id actor actor_role t batch_id given = do
    normalized ← or_snapshot_refused (validate_process_snapshot (some given.method) given.planned)
    locked ← batch_for_actor t batch_id actor actor_role is_draft
    grown ← insert_execution (new_execution now new_id batch_id t given normalized) t
    ok (with_event actor "process_execution.create" new_id grown)
