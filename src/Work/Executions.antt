-- ===== src/Work/Executions.antt =====
-- The process executions of a batch (src/web/repository/batch.py): split and merge.
pub mod Recording
pub mod Recorded
pub mod Regroup
pub mod Merged
pub mod Updated
pub mod Kept
use perovskite_fabrication_w.Prelude.{
  ℕ, suc, ◌+◌, String, Option, none, some, List, [], ◌∷◌, ◌++◌, Bool, true, false, not, ◌&&◌, ◌||◌,
  Result, ok, err, Check, ◌>>=◌, ◌>>◌, raise_if, if◌then◌else◌, ltb, ◌==◌, str_eq, length, any,
  count, keep, map,
}
use Prim.Native.String.{◌++◌ as text_append}
use perovskite_fabrication_w.Prelude.Text.{take, decimal}
use perovskite_fabrication_w.Recipe.Stack.{is_empty}
use perovskite_fabrication_w.Batch.Data.{UserRole, ExecutionStatus}
use perovskite_fabrication_w.Batch.Counts.{mem}
use perovskite_fabrication_w.Work.Data.{ExecutionRow, MemberRow, Tables}
use perovskite_fabrication_w.Work.Rows.{find_row, alter, delete, found, distinct, greatest}
use perovskite_fabrication_w.Work.{
  WorkError, unknown_execution, code_taken, nothing_selected, same_row, batches_differ,
  plans_differ, not_planned, referenced, overlapping, is_draft, batch_for_actor, with_event,
}
use perovskite_fabrication_w.Work.Preparations.{short_notes, check_split}

abbrev pub execution_rank : ExecutionStatus → ℕ
execution_rank ExecutionStatus.planned = 0
execution_rank ExecutionStatus.ready = 1
execution_rank ExecutionStatus.running = 2
execution_rank ExecutionStatus.completed = 3
execution_rank ExecutionStatus.failed = 4
execution_rank ExecutionStatus.cancelled = 5

abbrev pub execution_status_eq : ExecutionStatus → ExecutionStatus → Bool
execution_status_eq a b = execution_rank a == execution_rank b

abbrev pub is_execution : ℕ → ExecutionRow → Bool
is_execution id e = e.ident == id

abbrev pub members_of : ℕ → List MemberRow → List MemberRow
members_of id members = keep (λ m. m.process_execution_id == id) members

abbrev pub move_member : ℕ → MemberRow → MemberRow
move_member id m = record m { process_execution_id = id }

abbrev pub find_execution : Tables → ℕ → Result WorkError ExecutionRow
find_execution t id = found unknown_execution (find_row (λ e. e.ident) id t.executions)

-- INSERT, with the unique code of the column.
unfoldable pub insert_execution : ExecutionRow → Tables → Result WorkError Tables
insert_execution row t = do
  raise_if (any (λ e. str_eq e.execution_code row.execution_code) t.executions) code_taken
  ok (record t { executions = t.executions ++ (row ∷ []) })

-- `len({batch_condition_id for the rows}) > 1`
unfoldable pub spans_conditions : List MemberRow → Bool
unfolding distinct
spans_conditions members = ltb 1 (length (distinct (map (λ m. m.batch_condition_id) members)))

abbrev pub share : ℕ → Bool → ExecutionRow → ExecutionRow
share now shared e = record e { is_shared = shared; updated_at = now }

abbrev pub split_execution_row : ℕ → ℕ → ℕ → String → Bool → ExecutionRow → ExecutionRow
split_execution_row now new_id next_id notes shared source = record {
  ident = new_id;
  fabrication_batch_id = source.fabrication_batch_id;
  execution_code =
      text_append (take 170 source.execution_code) (text_append "-S" (decimal next_id));
  method = source.method;
  layer_role = source.layer_role;
  layer_type = source.layer_type;
  layer_name = source.layer_name;
  status = ExecutionStatus.planned;
  is_shared = shared;
  planned_snapshot = source.planned_snapshot;
  planned_version = source.planned_version;
  planned_hash = source.planned_hash;
  actual_snapshot = none;
  actual_version = none;
  actual_hash = none;
  recording_mode = none;
  executed_by = none;
  equipment_identifier = none;
  started_at = none;
  completed_at = none;
  notes = short_notes notes;
  updated_at = now;
}

unfoldable pub split_process_execution :
    ℕ → ℕ → ℕ → Option UserRole → Tables → ℕ → List ℕ → String → Result WorkError Tables
unfolding distinct spans_conditions mem insert_execution
split_process_execution now new_id actor actor_role t execution_id member_ids notes = do
  let selected = distinct member_ids
  raise_if (is_empty selected) nothing_selected
  source ← find_execution t execution_id
  locked ← batch_for_actor t source.fabrication_batch_id actor actor_role is_draft
  let members = members_of execution_id t.members
  check_split selected (map (λ m. m.ident) members)
  let goes = spans_conditions (keep (λ m. mem m.ident selected) members)
  let stays = spans_conditions (keep (λ m. not (mem m.ident selected)) members)
  let next_id = suc (greatest (map (λ e. e.ident) t.executions))
  grown ← insert_execution (split_execution_row now new_id next_id notes goes source) t
  ok (
      with_event actor "process_execution.split" new_id (record grown {
        executions = alter (is_execution execution_id) (share now stays) grown.executions;
        members = alter (λ m. mem m.ident selected) (move_member new_id) grown.members;
      }))

-- The unique key of a member within its execution.
abbrev pub same_member_key : MemberRow → MemberRow → Bool
same_member_key a b = a.substrate_id == b.substrate_id && a.layer_ordinal == b.layer_ordinal

unfoldable pub members_overlap : List MemberRow → List MemberRow → Bool
members_overlap targets sources = any (λ a. any (same_member_key a) sources) targets

-- `all(target[field] == source[field] for field in process_identity_fields)`
abbrev pub same_process : ExecutionRow → ExecutionRow → Bool
same_process a b =
    str_eq a.method b.method
    && str_eq a.layer_role b.layer_role
    && str_eq a.layer_type b.layer_type
    && str_eq a.layer_name b.layer_name
    && a.planned_version == b.planned_version
    && str_eq a.planned_hash b.planned_hash

abbrev pub is_planned_execution : ExecutionRow → Bool
is_planned_execution e = execution_status_eq e.status ExecutionStatus.planned

unfoldable pub execution_references : ℕ → Tables → ℕ
execution_references id t =
    count (λ d. elim d.targets.process_execution_id [ none ↦ false | some n ↦ n == id ])
      t.deviations

-- DELETE of an execution: its members go with it, and deviations lose their target.
unfoldable pub delete_execution : ℕ → Tables → Tables
delete_execution id t = record t {
  executions = delete (is_execution id) t.executions;
  members = delete (λ m. m.process_execution_id == id) t.members;
  deviations =
      alter (λ d. elim d.targets.process_execution_id [ none ↦ false | some n ↦ n == id ])
        (λ d. record d { targets = record d.targets { process_execution_id = none } }) t.deviations;
}

unfoldable pub check_execution_merge : Tables → ExecutionRow → ExecutionRow → Check WorkError
unfolding members_overlap execution_references
check_execution_merge t target source = do
  raise_if (not (same_process target source)) plans_differ
  raise_if (not (is_planned_execution target && is_planned_execution source)) not_planned
  raise_if (not (execution_references source.ident t == 0)) referenced
  raise_if (members_overlap (members_of target.ident t.members) (members_of source.ident t.members))
      overlapping

unfoldable pub merge_process_executions :
    ℕ → ℕ → Option UserRole → Tables → ℕ → ℕ → Result WorkError Tables
unfolding delete_execution spans_conditions
merge_process_executions now actor actor_role t target_id source_id = do
  raise_if (target_id == source_id) same_row
  target ← find_execution t target_id
  source ← find_execution t source_id
  raise_if (not (source.fabrication_batch_id == target.fabrication_batch_id)) batches_differ
  locked ← batch_for_actor t target.fabrication_batch_id actor actor_role is_draft
  check_execution_merge t target source
  let moved = alter (λ m. m.process_execution_id == source_id) (move_member target_id) t.members
  let shared = spans_conditions (members_of target_id moved)
  ok (
      with_event actor "process_execution.merge" target_id (
        delete_execution source_id (record t {
          executions = alter (is_execution target_id) (share now shared) t.executions;
          members = moved;
        })))
