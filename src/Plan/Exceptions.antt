-- ===== src/Plan/Exceptions.antt =====
-- The substrate exceptions of src/web/repository/condition.py: `request_substrate_exception`,
-- `decide_substrate_exception` and `_invalidate_condition_exceptions`. Audit entries of exceptions
-- are left out. The database keeps at most one active exception of a condition by an index.
pub mod Active
pub mod History
use perovskite_fabrication_w.Prelude.{
  ℕ, String, Option, none, some, List, [], ◌∷◌, ◌++◌, Bool, true, false, not, ◌&&◌, ◌||◌, Result,
  ok, err, Check, ◌>>=◌, ◌>>◌, raise_if, if◌then◌else◌, ◌==◌, str_eq, any, map,
}
use perovskite_fabrication_w.Prelude.Text.{strip}
use perovskite_fabrication_w.Batch.Data.{UserRole, is_student}
use perovskite_fabrication_w.Plan.Data.{
  PlanStatus, ExceptionDecision, Condition, SubstrateException, Plan, decision_eq,
}
use perovskite_fabrication_w.Plan.Conditions.{
  PlanError, not_owner, decision_refused, decision_forbidden, exception_unknown, not_pending,
  reason_blank, count_not_allowed, plan_not_draft, count_differs, already_active, condition_unknown,
  is_active,
}
use perovskite_fabrication_w.Plan.Status.{require_role, below_instructor}

unfoldable pub find_condition :
    {Snapshot : Type 0} → ℕ → List (Condition Snapshot) → Option (Condition Snapshot)
find_condition k [] = none
find_condition k (c ∷ cs) = if c.ident == k then some c else find_condition k cs

unfoldable pub find_exception : ℕ → List SubstrateException → Option SubstrateException
find_exception k [] = none
find_exception k (e ∷ es) = if e.ident == k then some e else find_exception k es

-- `plan_status in (None, "draft")`
abbrev pub is_draft : Option PlanStatus → Bool
is_draft none = true
is_draft (some PlanStatus.draft) = true
is_draft (some _) = false

-- The pending row that a request inserts; its id is given by the database.
abbrev pub requested : ℕ → ℕ → ℕ → String → SubstrateException
requested fresh condition_id requested_count reason = record {
  ident = fresh;
  condition_id = condition_id;
  requested_count = requested_count;
  reason = strip reason;
  decision = ExceptionDecision.pending;
  decided_by = none;
  decided_at = none;
  decision_note = "";
  approved_condition_hash = none;
}

-- The request for a condition that exists, once the actor is known.
unfoldable pub insert_request :
    {Snapshot : Type 0}
    → ℕ
    → ℕ
    → String
    → Condition Snapshot
    → Plan Snapshot
    → Result PlanError (Plan Snapshot)
insert_request fresh requested_count reason c p = do
  raise_if (not (is_draft p.plan_status)) plan_not_draft
  raise_if (not (c.planned_substrate_count == requested_count)) count_differs
  raise_if (any (is_active c.ident) p.exceptions) already_active
  ok (record p {
    exceptions = p.exceptions ++ (requested fresh c.ident requested_count reason ∷ []);
  })

unfoldable pub request_substrate_exception :
    {Snapshot : Type 0}
    → ℕ
    → ℕ
    → Option UserRole
    → ℕ
    → ℕ
    → String
    → Plan Snapshot
    → Result PlanError (Plan Snapshot)
request_substrate_exception fresh actor who condition_id requested_count reason p = do
  raise_if (str_eq (strip reason) "") reason_blank
  raise_if (not (requested_count == 1 || requested_count == 2)) count_not_allowed
  elim (find_condition condition_id p.conditions) [
    | none ↦ err condition_unknown
    | some c ↦ do
      role ← require_role who
      raise_if (is_student role && not (p.created_by == actor)) not_owner
      insert_request fresh requested_count reason c p
  ]

-- `values` of a decision: only an approval records the hash of the condition.
abbrev pub decided :
    ℕ → ℕ → ExceptionDecision → String → String → SubstrateException → SubstrateException
decided now actor decision note hash e = record e {
  decision = decision;
  decided_by = some actor;
  decided_at = some now;
  decision_note = strip note;
  approved_condition_hash =
      if decision_eq decision ExceptionDecision.approved
      then some hash
      else e.approved_condition_hash;
}

-- The guarded update of the one pending row.
unfoldable pub write_decision :
    ℕ → ℕ → ExceptionDecision → String → String → ℕ → SubstrateException → SubstrateException
write_decision now actor decision note hash exception_id e =
    if e.ident == exception_id && decision_eq e.decision ExceptionDecision.pending
    then decided now actor decision note hash e
    else e

abbrev pub is_verdict : ExceptionDecision → Bool
is_verdict d = decision_eq d ExceptionDecision.approved || decision_eq d ExceptionDecision.rejected

-- The inner join of the exception with its condition finds both or nothing; then the pending row
-- is updated.
unfoldable pub decide_row :
    {Snapshot : Type 0}
    → ℕ
    → ℕ
    → ℕ
    → ExceptionDecision
    → String
    → Plan Snapshot
    → Result PlanError (Plan Snapshot)
decide_row now actor exception_id decision note p =
    elim (find_exception exception_id p.exceptions) [
      | none ↦ err exception_unknown
      | some e ↦ elim (find_condition e.condition_id p.conditions) [
        | none ↦ err exception_unknown
        | some c ↦ do
          raise_if (not (decision_eq e.decision ExceptionDecision.pending)) not_pending
          ok (record p {
            exceptions =
                map (write_decision now actor decision note c.canonical_hash exception_id)
                  p.exceptions;
          })
      ]
    ]

unfoldable pub decide_substrate_exception :
    {Snapshot : Type 0}
    → ℕ
    → ℕ
    → Option UserRole
    → ℕ
    → ExceptionDecision
    → String
    → Plan Snapshot
    → Result PlanError (Plan Snapshot)
decide_substrate_exception now actor who exception_id decision note p = do
  raise_if (not (is_verdict decision)) decision_refused
  role ← require_role who
  raise_if (below_instructor role) decision_forbidden
  decide_row now actor exception_id decision note p

-- `_invalidate_condition_exceptions` on one row
unfoldable pub invalidate : ℕ → ℕ → SubstrateException → SubstrateException
invalidate now condition_id e =
    if is_active condition_id e
    then record e {
      decision = ExceptionDecision.invalidated;
      decided_at = some now;
      approved_condition_hash = none;
      decision_note = "Condition changed; approval auto-invalidated";
    }
    else e

unfoldable pub invalidate_condition_exceptions :
    {Snapshot : Type 0} → ℕ → ℕ → Plan Snapshot → Plan Snapshot
unfolding invalidate
invalidate_condition_exceptions now condition_id p = record p {
  exceptions = map (invalidate now condition_id) p.exceptions;
}
