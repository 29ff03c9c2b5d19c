-- ===== src/Plan/Status.antt =====
-- The status machine of a plan in src/web/repository/condition.py: `_validate_plan_transition`,
-- `_require_fabrication_batches` and `update_plan_status`, and what the operations on conditions do to it.
pub mod Granted
pub mod Runs
use perovskite_fabrication_w.Prelude.{
  ℕ, String, Option, none, some, List, [], ◌∷◌, ◌++◌, Bool, true, false, not, ◌&&◌, Result, ok, err,
  Check, ◌>>=◌, ◌>>◌, raise_if, ltb, ◌==◌,
}
use perovskite_fabrication_w.Batch.Data.{UserRole, instructor, is_student}
use perovskite_fabrication_w.Batch.Data
use perovskite_fabrication_w.Plan.Data.{PlanStatus, Plan, PlanEvent}
use perovskite_fabrication_w.Plan.Conditions.{
  PlanError, transition_refused, approval_forbidden, not_owner, actor_unknown, no_batches,
  plan_closed, validate_plan_conditions,
}

-- `target in allowed[current]`
unfoldable pub plan_transition_allowed : PlanStatus → PlanStatus → Bool
plan_transition_allowed PlanStatus.draft PlanStatus.pending_approval = true
plan_transition_allowed PlanStatus.draft PlanStatus.cancelled = true
plan_transition_allowed PlanStatus.pending_approval PlanStatus.approved = true
plan_transition_allowed PlanStatus.pending_approval PlanStatus.cancelled = true
plan_transition_allowed PlanStatus.approved PlanStatus.released = true
plan_transition_allowed PlanStatus.approved PlanStatus.cancelled = true
plan_transition_allowed PlanStatus.released PlanStatus.in_progress = true
plan_transition_allowed PlanStatus.released PlanStatus.cancelled = true
plan_transition_allowed PlanStatus.in_progress PlanStatus.completed = true
plan_transition_allowed PlanStatus.in_progress PlanStatus.cancelled = true
plan_transition_allowed _ _ = false

abbrev pub is_approved : PlanStatus → Bool
is_approved PlanStatus.approved = true
is_approved _ = false

-- `target in (IN_PROGRESS, COMPLETED)`
abbrev pub runs_fabrication : PlanStatus → Bool
runs_fabrication PlanStatus.in_progress = true
runs_fabrication PlanStatus.completed = true
runs_fabrication _ = false

-- `ROLE_RANK[role] < ROLE_RANK[UserRole.INSTRUCTOR]`
abbrev pub below_instructor : UserRole → Bool
below_instructor r = ltb (Data.role_rank r) (Data.role_rank instructor)

unfoldable pub validate_plan_transition : PlanStatus → PlanStatus → UserRole → Check PlanError
validate_plan_transition current target role = do
  raise_if (not (plan_transition_allowed current target)) transition_refused
  raise_if (is_approved target && below_instructor role) approval_forbidden

unfoldable pub require_fabrication_batches : ℕ → PlanStatus → Check PlanError
require_fabrication_batches batch_count target =
    raise_if (runs_fabrication target && batch_count == 0) no_batches

-- A plan that has no status yet is a draft.
abbrev pub current_status : {Snapshot : Type 0} → Plan Snapshot → PlanStatus
current_status p = elim p.plan_status [ none ↦ PlanStatus.draft | some s ↦ s ]

-- `plan_status in {RELEASED, IN_PROGRESS, COMPLETED, CANCELLED}`
abbrev pub is_closed : PlanStatus → Bool
is_closed PlanStatus.released = true
is_closed PlanStatus.in_progress = true
is_closed PlanStatus.completed = true
is_closed PlanStatus.cancelled = true
is_closed _ = false

-- The guard of `update_condition` and `delete_condition`, and the status that they write.
unfoldable pub reopen_plan : {Snapshot : Type 0} → Plan Snapshot → Result PlanError (Plan Snapshot)
reopen_plan p = do
  raise_if (is_closed (current_status p)) plan_closed
  ok (record p { plan_status = some PlanStatus.draft })

-- The status of a plan that gets another condition.
abbrev pub status_with_condition : PlanStatus → PlanStatus
status_with_condition PlanStatus.pending_approval = PlanStatus.pending_approval
status_with_condition _ = PlanStatus.draft

-- The guard of `create_condition`, and the status that it writes.
unfoldable pub extend_plan : {Snapshot : Type 0} → Plan Snapshot → Result PlanError (Plan Snapshot)
extend_plan p = do
  raise_if (is_closed (current_status p)) plan_closed
  ok (record p { plan_status = some (status_with_condition (current_status p)) })

-- `_actor_role`: an active user, or `none`.
abbrev pub require_role : Option UserRole → Result PlanError UserRole
require_role none = err actor_unknown
require_role (some role) = ok role

-- The status and the audit entry that an update writes.
unfoldable pub set_status : {Snapshot : Type 0} → ℕ → PlanStatus → Plan Snapshot → Plan Snapshot
set_status actor target p = record p {
  plan_status = some target;
  audit = p.audit ++ (record { actor = actor; from = current_status p; to = target } ∷ []);
}

unfoldable pub update_plan_status :
    {Snapshot : Type 0}
    → (Snapshot → Option String)
    → ℕ
    → Option UserRole
    → PlanStatus
    → Plan Snapshot
    → Result PlanError (Plan Snapshot)
update_plan_status hash_of actor who target p = do
  role ← require_role who
  raise_if (is_student role && not (p.created_by == actor)) not_owner
  validate_plan_transition (current_status p) target role
  validate_plan_conditions hash_of p target
  require_fabrication_batches p.batch_count target
  ok (set_status actor target p)
