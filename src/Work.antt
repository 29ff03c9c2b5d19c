-- ===== src/Work.antt =====
-- The preparations, executions and deviations of a fabrication batch: what the operations of
-- src/web/repository/batch.py that record the work share. An operation that raises writes nothing, so an
-- error carries no tables. The role of the actor is what `_actor_role` reads for an active user.
pub mod Data
pub mod Rows
pub mod Preparations
pub mod Executions
pub mod Deviations
pub mod AsPlanned
pub mod Recorded
pub mod Runs
use perovskite_fabrication_w.Prelude.{
  ℕ, String, Option, none, some, List, [], ◌∷◌, ◌++◌, Bool, true, false, not, ◌&&◌, Result, ok, err,
  ◌>>=◌, ◌>>◌, raise_if, ◌==◌, is_some, str_eq,
}
use perovskite_fabrication_w.Batch.Data.{
  UserRole, is_student, BatchStatus, PreparationStatus, ExecutionStatus,
}
use perovskite_fabrication_w.Snapshots.{SnapshotError}
use perovskite_fabrication_w.Work.Data.{BatchRow, WorkEvent, Tables}
use perovskite_fabrication_w.Work.Rows.{find_row, found}

pub data WorkError : Type 0 where
  unknown_batch actor_unknown not_owner batch_status_refused : WorkError
  unknown_preparation unknown_execution code_taken : WorkError
  snapshot_refused : SnapshotError → WorkError
  both_given transition_refused actual_required terminal_immutable : WorkError
  nothing_selected selected_elsewhere nothing_left : WorkError
  same_row batches_differ plans_differ not_planned referenced overlapping : WorkError
  description_blank category_unknown severity_unknown deviation_type_unknown : WorkError
  many_targets superseded_elsewhere target_elsewhere : WorkError

-- A snapshot that is not accepted ends the operation.
abbrev pub or_snapshot_refused {ℓ} : {A : Type ℓ} → Result SnapshotError A → Result WorkError A
or_snapshot_refused (ok a) = ok a
or_snapshot_refused (err e) = err (snapshot_refused e)

abbrev pub known_actor : Option UserRole → Result WorkError UserRole
known_actor none = err actor_unknown
known_actor (some role) = ok role

-- `row["experiment_owner_id"] != actor_user_id`
abbrev pub is_other : Option ℕ → ℕ → Bool
is_other none actor = true
is_other (some owner) actor = not (owner == actor)

-- The statuses that the operations allow.
abbrev pub is_draft : BatchStatus → Bool
is_draft BatchStatus.draft = true
is_draft _ = false

abbrev pub is_open : BatchStatus → Bool
is_open BatchStatus.completed = false
is_open BatchStatus.cancelled = false
is_open _ = true

abbrev pub is_not_cancelled : BatchStatus → Bool
is_not_cancelled BatchStatus.cancelled = false
is_not_cancelled _ = true

-- `_batch_for_actor`
unfoldable pub batch_for_actor :
    Tables → ℕ → ℕ → Option UserRole → (BatchStatus → Bool) → Result WorkError BatchRow
batch_for_actor t batch_id actor actor_role allowed = do
  row ← found unknown_batch (find_row (λ b. b.ident) batch_id t.batches)
  role ← known_actor actor_role
  raise_if (is_student role && is_other row.owner actor) not_owner
  raise_if (not (allowed row.status)) batch_status_refused
  ok row

-- `_add_audit_event`
abbrev pub with_event : ℕ → String → ℕ → Tables → Tables
with_event actor action entity_id t = record t {
  audit = t.audit ++ (record { actor = actor; action = action; entity_id = entity_id } ∷ []);
}

-- `status in _preparation_status_transitions(current)`
unfoldable pub preparation_transition_allowed : PreparationStatus → PreparationStatus → Bool
preparation_transition_allowed PreparationStatus.planned PreparationStatus.preparing = true
preparation_transition_allowed PreparationStatus.planned PreparationStatus.ready = true
preparation_transition_allowed PreparationStatus.planned PreparationStatus.discarded = true
preparation_transition_allowed PreparationStatus.preparing PreparationStatus.ready = true
preparation_transition_allowed PreparationStatus.preparing PreparationStatus.discarded = true
preparation_transition_allowed PreparationStatus.ready PreparationStatus.consumed = true
preparation_transition_allowed PreparationStatus.ready PreparationStatus.discarded = true
preparation_transition_allowed _ _ = false

-- `status in _execution_status_transitions(current)`
unfoldable pub execution_transition_allowed : ExecutionStatus → ExecutionStatus → Bool
execution_transition_allowed ExecutionStatus.planned ExecutionStatus.ready = true
execution_transition_allowed ExecutionStatus.planned ExecutionStatus.running = true
execution_transition_allowed ExecutionStatus.planned ExecutionStatus.cancelled = true
execution_transition_allowed ExecutionStatus.ready ExecutionStatus.running = true
execution_transition_allowed ExecutionStatus.ready ExecutionStatus.cancelled = true
execution_transition_allowed ExecutionStatus.running ExecutionStatus.completed = true
execution_transition_allowed ExecutionStatus.running ExecutionStatus.failed = true
execution_transition_allowed ExecutionStatus.running ExecutionStatus.cancelled = true
execution_transition_allowed _ _ = false
