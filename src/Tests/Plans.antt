-- ===== src/Tests/Plans.antt =====
-- A standalone plan of two substrates on its way from the draft to the release.
use perovskite_fabrication_w.Prelude.Text.{strip}
use perovskite_fabrication_w.Plan.Exceptions.{
  decide_row, find_condition, find_exception, insert_request, write_decision,
}
use perovskite_fabrication_w.Plan.Status.{
  plan_transition_allowed, require_fabrication_batches, validate_plan_transition,
}
use perovskite_fabrication_w.Plan.Conditions.{
  check_condition, check_exception, check_layout, check_plan, check_roles, validate_plan_conditions,
}
use perovskite_fabrication_w.Prelude.{
  ◌+◌, ◌*◌, ◌≤◌, ◌≡◌, String, Option, some, none, List, [], ◌∷◌, true, false, ◌&&◌, refl, ok, err,
  length, keep, if◌then◌else◌, str_eq, ◌==◌,
}
use perovskite_fabrication_w.Batch.Data.{UserRole, student, instructor}
use perovskite_fabrication_w.Plan.Data.{
  draft, pending_approval, approved, released, ConditionRole, ExceptionDecision, PlanType,
  DeviceLayout, Condition, SubstrateException, Plan,
}
use perovskite_fabrication_w.Plan.Conditions.{is_active, exception_not_approved}
use perovskite_fabrication_w.Plan.Conditions.Sound.{IsReady}
use perovskite_fabrication_w.Plan.Status.{
  update_plan_status, set_status, current_status, reopen_plan, runs_fabrication, require_role,
  below_instructor,
}
use perovskite_fabrication_w.Plan.Status.Granted.{plan_phase}
use perovskite_fabrication_w.Plan.Status.Runs.{
  Run, no_more, update, edit, status_updated, condition_edited, PlanChange, status_updates,
  condition_changes, plan_phase_limit, approved_by_instructor, released-approved_by_instructor,
  update_plan_status-IsReady,
}
use perovskite_fabrication_w.Plan.Exceptions.{
  request_substrate_exception, decide_substrate_exception, requested, decided, is_verdict,
}
use perovskite_fabrication_w.Plan.Exceptions.Active.{
  IsDecided, decide_substrate_exception-IsDecided,
}
use perovskite_fabrication_w.Plan.Exceptions.History.{
  Changes, unchanged, followed_by, by_request, active_rows,
}

-- A snapshot is its own hash, and the empty one is refused.
abbrev own_hash : String → Option String
own_hash s = if str_eq s "" then none else some s

abbrev small_layout : DeviceLayout
small_layout = record {
  code = "L1";
  version = 1;
  substrate_width_mm = "20";
  substrate_length_mm = "20";
  devices_per_substrate = 4;
  device_active_area_cm2 = "0.05";
  total_active_area_cm2 = "0.2";
  description = "four pixels";
}

abbrev two_substrates : Condition String
two_substrates = record {
  ident = 1;
  role = ConditionRole.standalone;
  requires_manual_review = false;
  recipe_snapshot = "recipe";
  canonical_hash = "recipe";
  device_layout_code = "L1";
  device_layout_snapshot = some small_layout;
  planned_substrate_count = 2;
  expected_device_count = 8;
}

abbrev drafted : Plan String
drafted = record {
  created_by = 5;
  plan_type = PlanType.standalone;
  plan_status = none;
  conditions = two_substrates ∷ [];
  exceptions = [];
  layouts = small_layout ∷ [];
  batch_count = 0;
  audit = [];
}

abbrev asked : Plan String
asked = record drafted { exceptions = requested 3 1 2 " few substrates " ∷ [] }

asking : request_substrate_exception 3 5 (some student) 1 2 " few substrates " drafted ≡ ok asked
unfolding request_substrate_exception strip find_condition insert_request
asking = refl

abbrev submitted : Plan String
submitted = set_status 5 pending_approval asked

submitting : update_plan_status own_hash 5 (some student) pending_approval asked ≡ ok submitted
unfolding update_plan_status validate_plan_transition plan_transition_allowed
    validate_plan_conditions check_plan check_roles check_condition check_layout check_exception
    require_fabrication_batches
submitting = refl

-- The plan is not approved before its exception.
too_early :
    update_plan_status own_hash 9 (some instructor) approved submitted
    ≡ err (exception_not_approved 1)
unfolding update_plan_status validate_plan_transition plan_transition_allowed set_status
    validate_plan_conditions check_plan check_roles check_condition check_layout check_exception
too_early = refl

abbrev granted_exception : SubstrateException
granted_exception =
    decided 8 9 ExceptionDecision.approved "fine" "recipe" (requested 3 1 2 " few substrates ")

abbrev excepted : Plan String
excepted = record submitted { exceptions = granted_exception ∷ [] }

deciding :
    decide_substrate_exception 8 9 (some instructor) 3 ExceptionDecision.approved "fine" submitted
    ≡ ok excepted
unfolding decide_substrate_exception decide_row find_exception set_status find_condition
    write_decision
deciding = refl

abbrev accepted : Plan String
accepted = set_status 9 approved excepted

accepting : update_plan_status own_hash 9 (some instructor) approved excepted ≡ ok accepted
unfolding update_plan_status validate_plan_transition plan_transition_allowed set_status
    validate_plan_conditions check_plan check_roles check_condition check_layout check_exception
    require_fabrication_batches
accepting = refl

abbrev out : Plan String
out = set_status 5 released accepted

releasing : update_plan_status own_hash 5 (some student) released accepted ≡ ok out
unfolding update_plan_status set_status validate_plan_transition plan_transition_allowed
    validate_plan_conditions check_plan check_roles check_condition check_layout check_exception
    require_fabrication_batches
releasing = refl

-- The plan is submitted, then one of its conditions is changed, and it is submitted again.
abbrev steps : List PlanChange
steps =
    status_updated student pending_approval
    ∷ condition_edited
    ∷ status_updated student pending_approval
    ∷ status_updated instructor approved
    ∷ status_updated student released
    ∷ []

abbrev edited : Plan String
edited = record submitted { plan_status = some draft }

editing : reopen_plan submitted ≡ ok edited
unfolding reopen_plan set_status
editing = refl

to_release : Run own_hash steps draft released
unfolding set_status
to_release = update asked submitted 5 student pending_approval submitting (
    edit submitted edited editing (
      update asked submitted 5 student pending_approval submitting (
        update excepted accepted 9 instructor approved accepting
          (update accepted out 5 student released releasing no_more))))

plan_phase_limit_example : plan_phase draft + status_updates steps ≤ 5 + 2 * condition_changes steps
plan_phase_limit_example = plan_phase_limit own_hash steps draft released to_release

released-approved_by_instructor_example : approved_by_instructor steps ≡ true
released-approved_by_instructor_example =
    released-approved_by_instructor own_hash steps released to_release refl

update_plan_status-IsReady_example :
    IsReady own_hash excepted
    × ((runs_fabrication approved && excepted.batch_count == 0) ≡ false)
    × (current_status accepted ≡ approved)
update_plan_status-IsReady_example =
    update_plan_status-IsReady own_hash 9 (some instructor) approved excepted accepted accepting
      refl

decide_substrate_exception-IsDecided_example :
    (is_verdict ExceptionDecision.approved ≡ true)
    × ((role : UserRole) × (require_role (some instructor) ≡ ok role)
        × (below_instructor role ≡ false))
    × IsDecided 3 ExceptionDecision.approved submitted excepted
decide_substrate_exception-IsDecided_example =
    decide_substrate_exception-IsDecided 8 9 (some instructor) 3 ExceptionDecision.approved "fine"
      submitted excepted deciding

to_asked : Changes own_hash drafted asked
to_asked = followed_by unchanged (by_request 3 5 (some student) 1 2 " few substrates " asking)

active_rows_example : length (keep (is_active 1) asked.exceptions) ≤ 1
active_rows_example = active_rows own_hash drafted asked refl to_asked 1
