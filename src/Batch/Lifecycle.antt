-- ===== src/Batch/Lifecycle.antt =====
-- `apply_batch_status_update` of src/web/repository/batch.py, with its readiness and completion
-- checks, and `update_batch_status` of src/web/operations/batch_lifecycle.py. An error leaves the
-- transaction unwritten, so it carries no new batch.
pub mod Updates
use perovskite_fabrication_w.Prelude.{
  ℕ, String, Option, none, some, List, [], ◌∷◌, ◌++◌, Bool, true, false, not, ◌&&◌, ◌||◌, Result,
  ok, err, Check, ◌>>=◌, ◌>>◌, raise_if, if◌then◌else◌, ◌==◌, any,
}
use perovskite_fabrication_w.Prelude.Int.{ℤ}
use perovskite_fabrication_w.Recipe.Stack.{is_empty}
use perovskite_fabrication_w.Batch.Data.{
  UserRole, is_student, BatchStatus, PreparationStatus, ExecutionStatus, Preparation, Execution,
  AuditEvent, Batch, draft, ready, in_progress, completed, cancelled, consumed, discarded, failed,
}
use perovskite_fabrication_w.Batch.Counts.{
  BatchError, status_conflict, not_owner, cancel_forbidden, preparation_unused, execution_empty,
  preparation_open, execution_open, actor_unknown, record_actual_substrate_counts,
}

-- `status in _batch_status_transitions(current)`
unfoldable pub batch_transition_allowed : BatchStatus → BatchStatus → Bool
batch_transition_allowed BatchStatus.draft BatchStatus.ready = true
batch_transition_allowed BatchStatus.draft BatchStatus.cancelled = true
batch_transition_allowed BatchStatus.ready BatchStatus.in_progress = true
batch_transition_allowed BatchStatus.ready BatchStatus.cancelled = true
batch_transition_allowed BatchStatus.in_progress BatchStatus.completed = true
batch_transition_allowed BatchStatus.in_progress BatchStatus.cancelled = true
batch_transition_allowed _ _ = false

abbrev pub is_cancelled : BatchStatus → Bool
is_cancelled BatchStatus.cancelled = true
is_cancelled _ = false

-- `status not in [CONSUMED, DISCARDED]`
abbrev pub preparation_terminal : PreparationStatus → Bool
preparation_terminal PreparationStatus.consumed = true
preparation_terminal PreparationStatus.discarded = true
preparation_terminal _ = false

-- `status not in [COMPLETED, FAILED, CANCELLED]`
abbrev pub execution_terminal : ExecutionStatus → Bool
execution_terminal ExecutionStatus.completed = true
execution_terminal ExecutionStatus.failed = true
execution_terminal ExecutionStatus.cancelled = true
execution_terminal _ = false

-- A member row of the execution exists in some condition.
unfoldable pub has_members : Batch → Execution → Bool
has_members b e = any (λ c. any (λ m. m.execution_id == e.ident) c.members) b.conditions

unfoldable pub validate_batch_ready : Batch → Check BatchError
unfolding has_members
validate_batch_ready b = do
  raise_if (any (λ p. is_empty p.uses) b.preparations) preparation_unused
  raise_if (any (λ e. not (has_members b e)) b.executions) execution_empty

unfoldable pub validate_batch_complete : Batch → Check BatchError
validate_batch_complete b = do
  raise_if (any (λ p. not (preparation_terminal p.status)) b.preparations) preparation_open
  raise_if (any (λ e. not (execution_terminal e.status)) b.executions) execution_open

-- The branch on the new status: the checks, and what a completion writes.
unfoldable pub prepare_update :
    Batch → BatchStatus → List (ℕ × ℤ) → List (ℕ × String) → Result BatchError Batch
prepare_update b BatchStatus.ready counts shortfalls = validate_batch_ready b >> ok b
prepare_update b BatchStatus.completed counts shortfalls = do
  written ← record_actual_substrate_counts b.conditions counts shortfalls
  validate_batch_complete b
  ok (record b { conditions = written.0; shortfalls = b.shortfalls ++ written.1 })
prepare_update b _ counts shortfalls = ok b

-- The timestamp that the new status sets.
unfoldable pub stamp : ℕ → BatchStatus → Batch → Batch
stamp now BatchStatus.in_progress b = record b { started_at = some now }
stamp now BatchStatus.completed b = record b { completed_at = some now }
stamp now BatchStatus.cancelled b = record b { cancelled_at = some now }
stamp now _ b = b

-- `_actor_role` finds no active user: `none`.
abbrev pub require_actor : Option UserRole → Result BatchError UserRole
require_actor none = err actor_unknown
require_actor (some role) = ok role

unfoldable pub close_update : ℕ → ℕ → BatchStatus → BatchStatus → Batch → Batch
unfolding stamp
close_update now actor current status b =
    let b' = stamp now status b in
    record b' {
      status = status;
      audit = b'.audit ++ (record { actor = actor; from = current; to = status } ∷ []);
    }

unfoldable pub apply_batch_status_update :
    ℕ
    → ℕ
    → Option UserRole
    → Batch
    → BatchStatus
    → List (ℕ × ℤ)
    → List (ℕ × String)
    → Result BatchError Batch
apply_batch_status_update now actor actor_role b status counts shortfalls = do
  raise_if (not (batch_transition_allowed b.status status)) status_conflict
  role ← require_actor actor_role
  raise_if (is_student role && not (b.owner == actor)) not_owner
  raise_if (is_student role && is_cancelled status) cancel_forbidden
  b' ← prepare_update b status counts shortfalls
  ok (close_update now actor b.status status b')

pub data OperationError : Type 0 where
  record_not_found : OperationError
  refused : BatchError → OperationError

-- `update_batch_status`: a missing batch and the batch of another student look the same. The role
-- that the caller passes may be absent; the transaction reads the role of the actor again.
unfoldable pub update_batch_status :
    ℕ
    → ℕ
    → Option UserRole
    → Option UserRole
    → Option Batch
    → BatchStatus
    → List (ℕ × ℤ)
    → List (ℕ × String)
    → Result OperationError Batch
update_batch_status now actor passed_role actor_role none status counts shortfalls =
    err record_not_found
update_batch_status now actor passed_role actor_role (some b) status counts shortfalls = do
  raise_if (elim passed_role [ none ↦ false | some r ↦ is_student r && not (b.owner == actor) ])
      record_not_found
  elim (apply_batch_status_update now actor actor_role b status counts shortfalls) [
    | ok b' ↦ ok b'
    | err e ↦ err (refused e)
  ]
