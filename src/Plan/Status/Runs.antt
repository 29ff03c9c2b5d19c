-- ===== src/Plan/Status/Runs.antt =====
-- What sequences of plan status updates and of operations on conditions can and cannot do.
use perovskite_fabrication_w.Prelude.{
  ℕ, ◌+◌, ◌*◌, ◌≤◌, String, Option, some, List, [], ◌∷◌, Bool, true, false, not, ◌&&◌, ◌||◌, ◌≡◌,
  sym, subst, ap, arith, ok, >>-eq-ok, raise_if, raise_if_iff, ◌==◌, Bool-cases, inl, inr,
}
use perovskite_fabrication_w.Batch.Data.{UserRole}
use perovskite_fabrication_w.Plan.Data.{PlanStatus, Plan}
use perovskite_fabrication_w.Plan.Conditions.{
  plan_closed, validate_plan_conditions, check_plan, needs_approval,
}
use perovskite_fabrication_w.Plan.Conditions.Sound.{IsReady, check_plan-IsReady}
use perovskite_fabrication_w.Plan.Status.{
  is_approved, runs_fabrication, below_instructor, current_status, update_plan_status, is_closed,
  reopen_plan, status_with_condition, extend_plan,
}
use perovskite_fabrication_w.Plan.Status.Granted.{
  plan_phase, plan_phase_bound, is_released, allowed-plan_phase, released_from, granted,
  update_plan_status-current,
}

-- A change of the status of a plan: an update of it, or an operation on its conditions.
pub data PlanChange : Type 0 where
  status_updated : UserRole → PlanStatus → PlanChange
  condition_edited condition_added : PlanChange

-- Operations on a plan in a row that succeed: status updates, each with the role of its actor and the
-- status it set, and changes, deletions and creations of conditions. Between two of them the rows of the
-- plan may change in any way that keeps its status, which no other code writes.
pub data Run {Snapshot : Type 0} (hash_of : Snapshot → Option String)
    : List PlanChange → PlanStatus → PlanStatus → Type 0 where
  no_more : {s : PlanStatus} → Run hash_of [] s s
  update :
      {steps : List PlanChange} {s : PlanStatus} (p p' : Plan Snapshot) (actor : ℕ)
      (role : UserRole) (target : PlanStatus)
      → update_plan_status hash_of actor (some role) target p ≡ ok p'
      → Run hash_of steps target s
      → Run hash_of (status_updated role target ∷ steps) (current_status p) s
  edit :
      {steps : List PlanChange} {s : PlanStatus} (p p' : Plan Snapshot)
      → reopen_plan p ≡ ok p'
      → Run hash_of steps (current_status p') s
      → Run hash_of (condition_edited ∷ steps) (current_status p) s
  add :
      {steps : List PlanChange} {s : PlanStatus} (p p' : Plan Snapshot)
      → extend_plan p ≡ ok p'
      → Run hash_of steps (current_status p') s
      → Run hash_of (condition_added ∷ steps) (current_status p) s

abbrev pub status_updates : List PlanChange → ℕ
status_updates [] = 0
status_updates (status_updated role target ∷ steps) = 1 + status_updates steps
status_updates (condition_edited ∷ steps) = status_updates steps
status_updates (condition_added ∷ steps) = status_updates steps

abbrev pub condition_changes : List PlanChange → ℕ
condition_changes [] = 0
condition_changes (status_updated role target ∷ steps) = condition_changes steps
condition_changes (condition_edited ∷ steps) = 1 + condition_changes steps
condition_changes (condition_added ∷ steps) = 1 + condition_changes steps

-- An instructor or an administrator approves the plan after the last change of its conditions, or has done
-- so before (`seen`) and no change follows.
abbrev pub approved_since : Bool → List PlanChange → Bool
approved_since seen [] = seen
approved_since seen (status_updated role target ∷ steps) =
    approved_since (seen || (is_approved target && not (below_instructor role))) steps
approved_since seen (condition_edited ∷ steps) = approved_since false steps
approved_since seen (condition_added ∷ steps) = approved_since false steps

abbrev pub approved_by_instructor : List PlanChange → Bool
approved_by_instructor = approved_since false

-- What an operation on a condition does to the status of its plan.
reopen_plan-current :
    {Snapshot : Type 0} (p p' : Plan Snapshot)
    → reopen_plan p ≡ ok p'
    → (is_closed (current_status p) ≡ false) × (current_status p' ≡ PlanStatus.draft)
unfolding reopen_plan
reopen_plan-current {Snapshot} p p' h =
    let open_ = raise_if (is_closed (current_status p)) plan_closed in
    let (one, last) = >>-eq-ok open_ (ok (record p { plan_status = some PlanStatus.draft })) h in
    let same : record p { plan_status = some PlanStatus.draft } ≡ p' = cc in
    (
      (raise_if_iff (is_closed (current_status p)) plan_closed).0 one,
      sym (ap (λ (q : Plan Snapshot). current_status q) same),
    )

extend_plan-current :
    {Snapshot : Type 0} (p p' : Plan Snapshot)
    → extend_plan p ≡ ok p'
    → (is_closed (current_status p) ≡ false)
      × (current_status p' ≡ status_with_condition (current_status p))
unfolding extend_plan
extend_plan-current {Snapshot} p p' h =
    let written : Plan Snapshot = record p {
      plan_status = some (status_with_condition (current_status p));
    } in
    let open_ = raise_if (is_closed (current_status p)) plan_closed in
    let (one, last) = >>-eq-ok open_ (ok written) h in
    let same : written ≡ p' = cc in
    (
      (raise_if_iff (is_closed (current_status p)) plan_closed).0 one,
      sym (ap (λ (q : Plan Snapshot). current_status q) same),
    )

open-plan_phase : (s : PlanStatus) → is_closed s ≡ false → plan_phase s ≤ 2
open-plan_phase s h = ground arith

extended-plan_phase :
    (s : PlanStatus) → is_closed s ≡ false → plan_phase s ≤ plan_phase (status_with_condition s) + 2
extended-plan_phase s h = ground arith

not_yet :
    (s : PlanStatus)
    → (is_approved (status_with_condition s) || is_released (status_with_condition s)) ≡ false
not_yet s = ground arith

module _ {Snapshot : Type 0} (hash_of : Snapshot → Option String) where
  rises :
      (steps : List PlanChange) (s t : PlanStatus)
      → Run hash_of steps s t
      → plan_phase s + status_updates steps ≤ plan_phase t + 2 * condition_changes steps
  rises _ s _ no_more = omega arith
  rises _ _ t (update {steps = steps} p p' actor role target h rest) =
      let g = granted hash_of actor (some role) target p p' h in
      let up = allowed-plan_phase (current_status p) target g.allowed in
      let more = rises steps target t rest in omega arith
  rises _ _ t (edit {steps = steps} p p' h rest) =
      let (open_, now) = reopen_plan-current p p' h in
      let low = open-plan_phase (current_status p) open_ in
      let more = rises steps (current_status p') t rest in omega arith
  rises _ _ t (add {steps = steps} p p' h rest) =
      let (open_, now) = extend_plan-current p p' h in
      let low = extended-plan_phase (current_status p) open_ in
      let here = ap plan_phase now in
      let more = rises steps (current_status p') t rest in omega arith

  -- A plan in phase k (draft 0, pending approval 1, approved 2, released 3, in progress 4, completed
  -- or cancelled 5) goes through at most 5 - k successful status updates, and two more for each change,
  -- deletion or creation of a condition that succeeds on the way.
  pub plan_phase_limit :
      (steps : List PlanChange) (s t : PlanStatus)
      → Run hash_of steps s t
      → plan_phase s + status_updates steps ≤ 5 + 2 * condition_changes steps
  plan_phase_limit steps s t r =
      let run = rises steps s t r in let top = plan_phase_bound t in omega arith

  approval_seen :
      (steps : List PlanChange) (s t : PlanStatus) (seen : Bool)
      → Run hash_of steps s t
      → ((is_approved s || is_released s) ≡ true → seen ≡ true)
      → (is_approved t || is_released t) ≡ true
      → approved_since seen steps ≡ true
  approval_seen _ s _ seen no_more before goal = before goal
  approval_seen _ _ t seen (update {steps = steps} p p' actor role target h rest) before goal =
      let g = granted hash_of actor (some role) target p p' h in
      let known : role ≡ g.role = cc g.known in
      let by : (is_approved target && below_instructor role) ≡ false =
        subst (λ r. (is_approved target && below_instructor r) ≡ false) (sym known) g.may_approve in
      let now : (is_approved target || is_released target) ≡ true
          → (seen || (is_approved target && not (below_instructor role))) ≡ true =
        λ there. elim (Bool-cases (is_approved target)) [
          | inl here ↦ ground arith
          | inr other ↦
              let earlier =
                before (released_from (current_status p) target g.allowed (ground arith)) in
              ground arith
        ] in
      approval_seen steps target t (seen || (is_approved target && not (below_instructor role)))
        rest now goal
  approval_seen _ _ t seen (edit {steps = steps} p p' h rest) before goal =
      let (open_, now) = reopen_plan-current p p' h in
      approval_seen steps (current_status p') t false rest
        (λ there. let here = ap (λ (q : PlanStatus). is_approved q || is_released q) now in cc) goal
  approval_seen _ _ t seen (add {steps = steps} p p' h rest) before goal =
      let (open_, now) = extend_plan-current p p' h in
      let none_yet = not_yet (current_status p) in
      approval_seen steps (current_status p') t false rest
        (λ there. let here = ap (λ (q : PlanStatus). is_approved q || is_released q) now in cc) goal

  -- A plan that has come from a draft to a released, running or completed status was approved on the
  -- way by an instructor or an administrator, after the last change, deletion or creation of a condition.
  pub released-approved_by_instructor :
      (steps : List PlanChange) (t : PlanStatus)
      → Run hash_of steps PlanStatus.draft t
      → is_released t ≡ true
      → approved_by_instructor steps ≡ true
  released-approved_by_instructor steps t r released =
      approval_seen steps PlanStatus.draft t false r (λ there. there) (ground arith)

  -- A successful update to a status from approved on finds the plan ready, with the approvals that
  -- its small conditions need; one that starts or completes the fabrication finds a batch as well.
  pub update_plan_status-IsReady :
      (actor : ℕ) (who : Option UserRole) (target : PlanStatus) (p p' : Plan Snapshot)
      → update_plan_status hash_of actor who target p ≡ ok p'
      → needs_approval target ≡ true
      → IsReady hash_of p
        × ((runs_fabrication target && p.batch_count == 0) ≡ false)
        × (current_status p' ≡ target)
  unfolding validate_plan_conditions
  update_plan_status-IsReady actor who target p p' h n =
      let g = granted hash_of actor who target p p' h in
      (
        check_plan-IsReady hash_of p target n (check_plan_of target n g.checked),
        g.has_batches,
        update_plan_status-current hash_of actor who target p p' h,
      )
    where
      check_plan_of :
          (t : PlanStatus)
          → needs_approval t ≡ true
          → validate_plan_conditions hash_of p t ≡ ok tt
          → check_plan hash_of p t ≡ ok tt
      check_plan_of PlanStatus.cancelled k c = absurd (ground arith)
      check_plan_of PlanStatus.draft k c = c
      check_plan_of PlanStatus.pending_approval k c = c
      check_plan_of PlanStatus.approved k c = c
      check_plan_of PlanStatus.released k c = c
      check_plan_of PlanStatus.in_progress k c = c
      check_plan_of PlanStatus.completed k c = c
