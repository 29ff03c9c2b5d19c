-- ===== src/Tests/Works.antt =====
-- What the operations on the sample batch of preparations do, and the theorems applied to them.
use perovskite_fabrication_w.Work.{batch_for_actor}
use perovskite_fabrication_w.Work.Preparations.{check_merge, check_split, preparation_references}
use perovskite_fabrication_w.Prelude.Text.{decimal, strip, take}
use perovskite_fabrication_w.Work.Rows.Selected.{are_keys}
use perovskite_fabrication_w.Work.Rows.Links.{keys_unique}
use perovskite_fabrication_w.Recipe.Layer.{
  spin_step_in_bounds, validate_solid, validate_solution, validate_solvent,
}
use perovskite_fabrication_w.Snapshots.{
  complete_operation, complete_solution_snapshot, operation_method, validate_operation,
}
use perovskite_fabrication_w.Work.Deviations.{validate_deviation_links}
use perovskite_fabrication_w.Work.Preparations.Recording.{preparation_code_of}
use perovskite_fabrication_w.Prelude.{
  ℕ, ◌≡◌, refl, String, none, some, [], ◌∷◌, ◌++◌, false, ok, err, map, count,
}
use perovskite_fabrication_w.Snapshots.{validate_solution_snapshot, validate_process_snapshot}
use perovskite_fabrication_w.Snapshots.Settled.{
  validate_solution_snapshot_idem, validate_process_snapshot_idem,
}
use perovskite_fabrication_w.Batch.Data.{student, BatchStatus}
use perovskite_fabrication_w.Work.Data.{Tables}
use perovskite_fabrication_w.Work.Rows.{find_row}
use perovskite_fabrication_w.Work.Rows.Links.{unowned}
use perovskite_fabrication_w.Work.{code_taken, with_event}
use perovskite_fabrication_w.Work.Preparations.{
  split_solution_preparation, merge_solution_preparations,
}
use perovskite_fabrication_w.Work.Preparations.Recording.{create_solution_preparation}
use perovskite_fabrication_w.Work.Preparations.Regroup.{use_link, split_tables}
use perovskite_fabrication_w.Work.Preparations.RoundTrip.{IsFresh, merge-split_solution_preparation}
use perovskite_fabrication_w.Work.Preparations.Merged.{merged_tables}
use perovskite_fabrication_w.Work.Preparations.Codes.{create-merge_code_taken}
use perovskite_fabrication_w.Work.Preparations.Recorded.{IsPreparation}
use perovskite_fabrication_w.Work.Executions.Regroup.{member_link}
use perovskite_fabrication_w.Work.Deviations.{create_deviation, superseded_fails}
use perovskite_fabrication_w.Work.Deviations.Links.{IsLinked, create_deviation-IsLinked}
use perovskite_fabrication_w.Work.AsPlanned.{
  Recorded, is_pending, is_pending_execution, copy_events, record_batch_as_planned,
}
use perovskite_fabrication_w.Work.AsPlanned.Copies.{as_planned, executed_as_planned}
use perovskite_fabrication_w.Work.AsPlanned.Twice.{record_batch_as_planned_idem}
use perovskite_fabrication_w.Work.Runs.{IsWork, Run, done, next, split_preparation}
use perovskite_fabrication_w.Work.Runs.Sound.{Run-IsWork, Run-links}
use perovskite_fabrication_w.Work.Runs.Closed.{Run-terminal}
use perovskite_fabrication_w.Tests.WorkSamples.{
  mix, spin_once, solution_name, process_name, prepared, used_up, before, spilled, with_spill,
}

-- The second use goes to a preparation of its own.
abbrev parted : Tables
parted = split_tables 9 2 1 (some student) before 1 (12 ∷ []) "" (prepared 1 "P5-01")

part : split_solution_preparation 9 2 1 (some student) before 1 (12 ∷ []) "" ≡ ok parted
unfolding split_solution_preparation batch_for_actor check_split take decimal
part = refl

before-IsFresh : IsFresh 9 2 1 (some student) before 1 (12 ∷ []) ""
unfolding preparation_references
before-IsFresh = record {
  of_rows = (refl, (refl, tt));
  of_uses = (refl, (refl, tt));
  of_deviations = refl;
}

merge-split_solution_preparation_example :
    merge_solution_preparations 1 (some student) parted 1 2
    ≡ ok (
        with_event 1 "solution_preparation.merge" 1
          (with_event 1 "solution_preparation.split" 2 before))
unfolding are_keys keys_unique
merge-split_solution_preparation_example =
    merge-split_solution_preparation 9 2 1 (some student) before 1 (12 ∷ []) "" (prepared 1 "P5-01")
      parted refl refl refl refl before-IsFresh part

sound_row : (id : ℕ) (code : String) → IsPreparation solution_name (prepared id code)
unfolding validate_solution_snapshot validate_solution validate_solid validate_solvent
    complete_solution_snapshot strip
sound_row id code = record {
  kept = (record { plan_accepted = refl; plan_hashed = refl }, (refl, refl, refl));
  consumed_recorded = refl;
}

used_up-IsPreparation : IsPreparation solution_name used_up
unfolding validate_solution_snapshot validate_solution validate_solid validate_solvent
    complete_solution_snapshot strip
used_up-IsPreparation = record {
  kept = (record { plan_accepted = refl; plan_hashed = refl }, (refl, refl, refl, refl));
  consumed_recorded = refl;
}

before-IsWork : IsWork solution_name process_name before
unfolding are_keys keys_unique
before-IsWork = record {
  preparations_sound = record {
    rows_sound = (sound_row 1 "P5-01", (used_up-IsPreparation, tt));
    row_keys = refl;
    link_keys = refl;
    links_unique = refl;
    links_owned = (refl, (refl, tt));
  };
  executions_sound = record {
    rows_sound = tt;
    row_keys = refl;
    link_keys = refl;
    links_unique = refl;
    links_owned = tt;
  };
}

one_split : Run solution_name process_name before parted
one_split =
    next before parted parted
      (split_preparation 9 2 1 (some student) before parted 1 (12 ∷ []) "" (refl, (refl, tt)) part)
      (done parted)

Run-IsWork_example : IsWork solution_name process_name parted
Run-IsWork_example = Run-IsWork solution_name process_name before parted before-IsWork one_split

Run-links_example :
    (unowned use_link parted.uses ≡ unowned use_link before.uses)
    × (unowned member_link parted.members ≡ unowned member_link before.members)
Run-links_example = Run-links solution_name process_name before parted before-IsWork one_split

Run-terminal_example :
    (time : ℕ) × (find_row (λ p. p.ident) 3 parted.preparations
      ≡ some (record used_up { updated_at = time }))
Run-terminal_example =
    Run-terminal solution_name process_name before parted 3 used_up before-IsWork refl refl
      one_split

abbrev after_plan : Recorded
after_plan = record {
  tables = record before {
    preparations = map (as_planned solution_name process_name 9 1 5) before.preparations;
    executions = map (executed_as_planned solution_name process_name 9 1 5) before.executions;
    audit = before.audit ++ copy_events solution_name process_name 9 1 5 before;
  };
  preparations = count (is_pending 5) before.preparations;
  executions = count (is_pending_execution 5) before.executions;
}

record_batch_as_planned_idem_example :
    record_batch_as_planned solution_name process_name 10 1 (some student) after_plan.tables 5
    ≡ ok (record { tables = after_plan.tables; preparations = 0; executions = 0 })
unfolding record_batch_as_planned batch_for_actor validate_solution_snapshot validate_solution
    validate_solid validate_solvent complete_solution_snapshot strip
record_batch_as_planned_idem_example =
    record_batch_as_planned_idem solution_name process_name 9 1 10 1 (some student) (some student)
      before 5 after_plan (record { ident = 5; owner = some 1; status = BatchStatus.draft }) refl
      refl

create_deviation-IsLinked_example :
    IsLinked before 5 spilled.targets × (superseded_fails before 5 none ≡ false)
unfolding create_deviation strip batch_for_actor validate_deviation_links
create_deviation-IsLinked_example =
    create_deviation-IsLinked 9 7 1 (some student) before with_spill spilled refl

-- A second planned preparation is merged into the first, while the third keeps the last number.
abbrev numbered : Tables
numbered = record before {
  preparations = prepared 1 "P5-01" ∷ prepared 2 "P5-02" ∷ prepared 4 "P5-03" ∷ [];
}

create-merge_code_taken_example :
    create_solution_preparation solution_name 9 8 1
      (some student)
      (merged_tables 1 (some student) numbered 1 2)
      5
      (mix "PbI2")
      ""
    ≡ err code_taken
unfolding are_keys merge_solution_preparations batch_for_actor check_merge preparation_code_of
    validate_solution_snapshot validate_solution validate_solid validate_solvent
    complete_solution_snapshot strip
create-merge_code_taken_example =
    create-merge_code_taken solution_name 9 8 1 (some student) numbered
      (merged_tables 1 (some student) numbered 1 2) 1 2 4 (prepared 2 "P5-02") (prepared 4 "P5-03")
      (record { ident = 5; owner = some 1; status = BatchStatus.draft }) (mix "PbI2") (mix "PbI2")
      "" refl refl refl refl refl refl refl refl

validate_solution_snapshot_idem_example : validate_solution_snapshot (mix "PbI2") ≡ ok (mix "PbI2")
unfolding validate_solution_snapshot validate_solution validate_solid validate_solvent
    complete_solution_snapshot strip
validate_solution_snapshot_idem_example =
    validate_solution_snapshot_idem (mix " PbI2 ") (mix "PbI2") refl

validate_process_snapshot_idem_example :
    validate_process_snapshot (some "spin_coating") spin_once ≡ ok spin_once
unfolding validate_process_snapshot validate_operation spin_step_in_bounds operation_method
    complete_operation
validate_process_snapshot_idem_example =
    validate_process_snapshot_idem (some "spin_coating") spin_once spin_once refl
