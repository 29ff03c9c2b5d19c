-- ===== src/Plan/Conditions.antt =====
-- `_validate_plan_conditions` of src/web/repository/condition.py, with `expected_device_count` and
-- the comparison with `layout_snapshot` of src/web/device_layouts.py.
pub mod Sound
use perovskite_fabrication_w.Prelude.{
  ℕ, ◌*◌, String, Option, none, some, List, [], ◌∷◌, Bool, true, false, not, ◌&&◌, ◌||◌, Result, ok,
  err, Check, ◌>>=◌, ◌>>◌, raise_if, for_each, if◌then◌else◌, ltb, ◌==◌, str_eq, any, count, keep,
  length,
}
use perovskite_fabrication_w.Recipe.Stack.{is_empty}
use perovskite_fabrication_w.Plan.Data.{
  PlanStatus, ConditionRole, ExceptionDecision, PlanType, DeviceLayout, Condition,
  SubstrateException, Plan, decision_eq, condition_role_rank,
}

pub data PlanError : Type 0 where
  no_conditions control_count target_count standalone_mixed standalone_shape plan_type_unknown :
      PlanError
  manual_review snapshot_refused hash_inconsistent layout_missing layout_gone layout_inconsistent :
      ℕ → PlanError
  count_refused count_inconsistent : ℕ → PlanError
  exception_missing exceptions_many exception_not_approved approval_stale : ℕ → PlanError
  transition_refused approval_forbidden not_owner actor_unknown no_batches plan_closed : PlanError
  decision_refused decision_forbidden exception_unknown not_pending : PlanError
  reason_blank count_not_allowed plan_not_draft count_differs already_active condition_unknown :
      PlanError

-- `role in roles`, `roles.count(role)`
abbrev pub has_condition_role : {Snapshot : Type 0} → ConditionRole → Condition Snapshot → Bool
has_condition_role r c = condition_role_rank c.role == condition_role_rank r

-- The roles that the plan type asks for.
unfoldable pub check_roles :
    {Snapshot : Type 0} → PlanType → List (Condition Snapshot) → Check PlanError
check_roles PlanType.comparative rows = do
  raise_if (not (count (has_condition_role ConditionRole.control) rows == 1)) control_count
  raise_if (ltb (count (has_condition_role ConditionRole.target) rows) 1) target_count
  raise_if (any (has_condition_role ConditionRole.standalone) rows) standalone_mixed
check_roles PlanType.standalone rows =
    raise_if
      (not (length rows == 1 && count (has_condition_role ConditionRole.standalone) rows == 1))
      standalone_shape
check_roles PlanType.unknown rows = err plan_type_unknown

unfoldable pub same_layout : DeviceLayout → DeviceLayout → Bool
same_layout a b =
    str_eq a.code b.code
    && a.version == b.version
    && str_eq a.substrate_width_mm b.substrate_width_mm
    && str_eq a.substrate_length_mm b.substrate_length_mm
    && a.devices_per_substrate == b.devices_per_substrate
    && str_eq a.device_active_area_cm2 b.device_active_area_cm2
    && str_eq a.total_active_area_cm2 b.total_active_area_cm2
    && str_eq a.description b.description

-- `get_device_layout`: the row of a code and a version, which are unique together.
unfoldable pub get_device_layout : List DeviceLayout → String → ℕ → Option DeviceLayout
get_device_layout [] code version = none
get_device_layout (l ∷ ls) code version =
    if str_eq l.code code && l.version == version then some l else get_device_layout ls code version

-- The layout that a condition is frozen with, where the catalog still has it.
unfoldable pub check_layout :
    {Snapshot : Type 0} → List DeviceLayout → Condition Snapshot → Check PlanError
unfolding same_layout get_device_layout
check_layout layouts c = elim c.device_layout_snapshot [
  | none ↦ err (layout_missing c.ident)
  | some frozen ↦ elim (get_device_layout layouts c.device_layout_code frozen.version) [
    | none ↦ err (layout_gone c.ident)
    | some layout ↦ do
      raise_if (not (same_layout frozen layout)) (layout_inconsistent c.ident)
      raise_if (ltb c.planned_substrate_count 1) (count_refused c.ident)
      raise_if
          (not
            (c.expected_device_count == c.planned_substrate_count * layout.devices_per_substrate))
          (count_inconsistent c.ident)
  ]
]

-- `hash_of` validates a snapshot and hashes the result; `none` where the validation refuses it.
unfoldable pub check_condition :
    {Snapshot : Type 0}
    → (Snapshot → Option String)
    → List DeviceLayout
    → Condition Snapshot
    → Check PlanError
check_condition hash_of layouts c = do
  raise_if c.requires_manual_review (manual_review c.ident)
  elim (hash_of c.recipe_snapshot) [
    | none ↦ err (snapshot_refused c.ident)
    | some hash ↦ raise_if (not (str_eq hash c.canonical_hash)) (hash_inconsistent c.ident)
  ]
  check_layout layouts c

-- A pending or approved exception of the condition.
abbrev pub is_active : ℕ → SubstrateException → Bool
is_active condition_id e =
    e.condition_id == condition_id
    && (decision_eq e.decision ExceptionDecision.pending
        || decision_eq e.decision ExceptionDecision.approved)

-- `target_status in {APPROVED, RELEASED, IN_PROGRESS, COMPLETED}`
abbrev pub needs_approval : PlanStatus → Bool
needs_approval PlanStatus.approved = true
needs_approval PlanStatus.released = true
needs_approval PlanStatus.in_progress = true
needs_approval PlanStatus.completed = true
needs_approval _ = false

abbrev pub is_hash : Option String → String → Bool
is_hash none hash = false
is_hash (some h) hash = str_eq h hash

-- `one_or_none()` raises where a condition has several active exceptions.
unfoldable pub check_exception :
    {Snapshot : Type 0}
    → PlanStatus
    → Condition Snapshot
    → List SubstrateException
    → Check PlanError
check_exception target c [] = err (exception_missing c.ident)
check_exception target c (e ∷ []) =
    if needs_approval target
    then raise_if (not (decision_eq e.decision ExceptionDecision.approved))
        (exception_not_approved c.ident)
      >> raise_if (not (is_hash e.approved_condition_hash c.canonical_hash))
          (approval_stale c.ident)
    else ok tt
check_exception target c (e ∷ _ ∷ _) = err (exceptions_many c.ident)

abbrev pub is_low : {Snapshot : Type 0} → Condition Snapshot → Bool
is_low c = ltb c.planned_substrate_count 3

unfoldable pub check_plan :
    {Snapshot : Type 0} → (Snapshot → Option String) → Plan Snapshot → PlanStatus → Check PlanError
check_plan hash_of p target = do
  raise_if (is_empty p.conditions) no_conditions
  check_roles p.plan_type p.conditions
  for_each p.conditions (check_condition hash_of p.layouts)
  for_each (keep is_low p.conditions)
      (λ c. check_exception target c (keep (is_active c.ident) p.exceptions))

unfoldable pub validate_plan_conditions :
    {Snapshot : Type 0} → (Snapshot → Option String) → Plan Snapshot → PlanStatus → Check PlanError
validate_plan_conditions hash_of p PlanStatus.cancelled = ok tt
validate_plan_conditions hash_of p target = check_plan hash_of p target
