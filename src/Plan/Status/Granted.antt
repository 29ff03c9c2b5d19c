-- ===== src/Plan/Status/Granted.antt =====
-- The phases of a plan, and what a successful status update has checked.
use perovskite_fabrication_w.Prelude.{
  ℕ, ◌≤◌, ◌<◌, String, Option, none, some, Bool, true, false, not, ◌&&◌, ◌||◌, ◌≡◌, refl, sym, ap,
  arith, ok, ◌>>◌, >>-eq-ok, >>=-eq-ok, raise_if, raise_if_iff, raise_if-not_iff, ◌==◌,
}
use perovskite_fabrication_w.Batch.Data.{UserRole, is_student}
use perovskite_fabrication_w.Plan.Data.{PlanStatus, Plan}
use perovskite_fabrication_w.Plan.Conditions.{
  transition_refused, approval_forbidden, not_owner, no_batches, validate_plan_conditions,
}
use perovskite_fabrication_w.Plan.Status.{
  plan_transition_allowed, is_approved, runs_fabrication, below_instructor,
  validate_plan_transition, require_fabrication_batches, current_status, require_role, set_status,
  update_plan_status,
}

-- How far a plan has come.
abbrev pub plan_phase : PlanStatus → ℕ
plan_phase PlanStatus.draft = 0
plan_phase PlanStatus.pending_approval = 1
plan_phase PlanStatus.approved = 2
plan_phase PlanStatus.released = 3
plan_phase PlanStatus.in_progress = 4
plan_phase PlanStatus.completed = 5
plan_phase PlanStatus.cancelled = 5

pub plan_phase_bound : (s : PlanStatus) → plan_phase s ≤ 5
plan_phase_bound PlanStatus.draft = omega arith
plan_phase_bound PlanStatus.pending_approval = omega arith
plan_phase_bound PlanStatus.approved = omega arith
plan_phase_bound PlanStatus.released = omega arith
plan_phase_bound PlanStatus.in_progress = omega arith
plan_phase_bound PlanStatus.completed = omega arith
plan_phase_bound PlanStatus.cancelled = omega arith

-- A released plan, or one whose fabrication has started or ended.
abbrev pub is_released : PlanStatus → Bool
is_released PlanStatus.released = true
is_released PlanStatus.in_progress = true
is_released PlanStatus.completed = true
is_released _ = false

pub allowed-plan_phase :
    (s t : PlanStatus) → plan_transition_allowed s t ≡ true → plan_phase s < plan_phase t
unfolding plan_transition_allowed
allowed-plan_phase PlanStatus.draft PlanStatus.pending_approval h = omega arith
allowed-plan_phase PlanStatus.draft PlanStatus.cancelled h = omega arith
allowed-plan_phase PlanStatus.pending_approval PlanStatus.approved h = omega arith
allowed-plan_phase PlanStatus.pending_approval PlanStatus.cancelled h = omega arith
allowed-plan_phase PlanStatus.approved PlanStatus.released h = omega arith
allowed-plan_phase PlanStatus.approved PlanStatus.cancelled h = omega arith
allowed-plan_phase PlanStatus.released PlanStatus.in_progress h = omega arith
allowed-plan_phase PlanStatus.released PlanStatus.cancelled h = omega arith
allowed-plan_phase PlanStatus.in_progress PlanStatus.completed h = omega arith
allowed-plan_phase PlanStatus.in_progress PlanStatus.cancelled h = omega arith
allowed-plan_phase _ _ h = absurd (ground arith)

-- A released status is entered from a released one or from the approved status.
pub released_from :
    (s t : PlanStatus)
    → plan_transition_allowed s t ≡ true
    → is_released t ≡ true
    → (is_approved s || is_released s) ≡ true
unfolding plan_transition_allowed
released_from PlanStatus.approved PlanStatus.released h r = refl
released_from PlanStatus.released PlanStatus.in_progress h r = refl
released_from PlanStatus.in_progress PlanStatus.completed h r = refl
released_from _ _ h r = absurd (ground arith)

require_role-eq-ok : (who : Option UserRole) (r : UserRole) → require_role who ≡ ok r → who ≡ some r
require_role-eq-ok none r h = absurd (ground arith)
require_role-eq-ok (some x) r h = let e : x ≡ r = cc in ap some e

module _ {Snapshot : Type 0} (hash_of : Snapshot → Option String) (actor : ℕ)
    (who : Option UserRole) (target : PlanStatus) (p p' : Plan Snapshot)
    (h : update_plan_status hash_of actor who target p ≡ ok p') where
  -- What the steps of a successful update have shown.
  pub record Granted : Type 0 where
    pub role : UserRole
    pub known : who ≡ some role
    pub owns : (is_student role && not (p.created_by == actor)) ≡ false
    pub allowed : plan_transition_allowed (current_status p) target ≡ true
    pub may_approve : (is_approved target && below_instructor role) ≡ false
    pub checked : validate_plan_conditions hash_of p target ≡ ok tt
    pub has_batches : (runs_fabrication target && p.batch_count == 0) ≡ false
    pub written : set_status actor target p ≡ p'

  pub granted : Granted
  unfolding update_plan_status validate_plan_transition require_fabrication_batches
  granted =
      let last = ok (set_status actor target p) in
      let k4 = require_fabrication_batches p.batch_count target >> last in
      let k3 = validate_plan_conditions hash_of p target >> k4 in
      let k2 = λ (r : UserRole). validate_plan_transition (current_status p) target r >> k3 in
      let k1 = λ (r : UserRole).
        raise_if (is_student r && not (p.created_by == actor)) not_owner >> k2 r in
      let (r, known, h1) = >>=-eq-ok (require_role who) k1 h in
      let (own, h2) =
        >>-eq-ok (raise_if (is_student r && not (p.created_by == actor)) not_owner) (k2 r) h1 in
      let (moved, h3) = >>-eq-ok (validate_plan_transition (current_status p) target r) k3 h2 in
      let (checked, h4) = >>-eq-ok (validate_plan_conditions hash_of p target) k4 h3 in
      let (batches, h5) = >>-eq-ok (require_fabrication_batches p.batch_count target) last h4 in
      let approval = raise_if (is_approved target && below_instructor r) approval_forbidden in
      let (m1, m2) =
        >>-eq-ok
          (raise_if (not (plan_transition_allowed (current_status p) target)) transition_refused)
          approval moved in
      record {
        role = r;
        known = require_role-eq-ok who r known;
        owns = (raise_if_iff (is_student r && not (p.created_by == actor)) not_owner).0 own;
        allowed =
            (raise_if-not_iff (plan_transition_allowed (current_status p) target)
                transition_refused).0
              m1;
        may_approve =
            (raise_if_iff (is_approved target && below_instructor r) approval_forbidden).0 m2;
        checked = checked;
        has_batches =
            (raise_if_iff (runs_fabrication target && p.batch_count == 0) no_batches).0 batches;
        written = cc;
      }

  pub update_plan_status-current : current_status p' ≡ target
  unfolding set_status
  update_plan_status-current = sym (ap (λ (q : Plan Snapshot). current_status q) granted.written)
