-- ===== src/Tests/Batches.antt =====
-- A batch of two planned substrates that is completed with three, then with one.
use perovskite_fabrication_w.Batch.Counts.{
  covers, lookup, materialize, normalize_shortfalls, precheck, precheck_all,
  required_layer_ordinals, sum_neg, sum_pos, write_all, write_condition, extra_substrates,
  resolve_layout,
}
use perovskite_fabrication_w.Prelude.Text.{strip}
use perovskite_fabrication_w.Batch.Lifecycle.{
  batch_transition_allowed, close_update, prepare_update, validate_batch_complete,
}
use perovskite_fabrication_w.Prelude.{
  ℕ, ◌+◌, ◌≤◌, ◌<◌, ◌≡◌, ◌≢◌, String, some, List, [], ◌∷◌, ◌++◌, refl, true, ok, err,
}
use perovskite_fabrication_w.Prelude.Int.{ℤ, pos}
use perovskite_fabrication_w.Batch.Data.{
  student, BatchStatus, completed, Batch, BatchCondition, Shortfall,
}
use perovskite_fabrication_w.Batch.Counts.{
  shortfall_blank, record_actual_substrate_counts, extend_condition, shortfall_row,
}
use perovskite_fabrication_w.Batch.Counts.Bounds.{
  AreWritten, record_actual_substrate_counts-AreWritten,
}
use perovskite_fabrication_w.Batch.Lifecycle.{apply_batch_status_update}
use perovskite_fabrication_w.Batch.Lifecycle.Updates.{
  phase, update-IsLater, update-by_student, IsComplete, update-IsComplete, no_more, update,
  phase_limit,
}
use perovskite_fabrication_w.Tests.Samples.{two_planned, running_batch}

-- One substrate of the two was made.
abbrev one_made : List (ℕ × ℤ)
one_made = (7, pos 1) ∷ []

abbrev broken : List (ℕ × String)
broken = (7, " broke ") ∷ []

abbrev short_condition : BatchCondition
short_condition = extend_condition two_planned 1 []

abbrev short_rows : List Shortfall
short_rows = shortfall_row two_planned 1 "broke"

short_count :
    record_actual_substrate_counts (two_planned ∷ []) one_made broken
    ≡ ok (short_condition ∷ [], short_rows)
unfolding record_actual_substrate_counts covers sum_neg sum_pos normalize_shortfalls strip
    precheck_all lookup precheck write_all write_condition extra_substrates resolve_layout
    materialize
short_count = refl

blank_refused :
    record_actual_substrate_counts (two_planned ∷ []) one_made ((7, "  ") ∷ [])
    ≡ err (shortfall_blank 7)
unfolding record_actual_substrate_counts covers sum_neg sum_pos normalize_shortfalls strip
blank_refused = refl

record_actual_substrate_counts-AreWritten_example :
    AreWritten one_made (two_planned ∷ []) (short_condition ∷ []) short_rows
record_actual_substrate_counts-AreWritten_example =
    record_actual_substrate_counts-AreWritten (two_planned ∷ []) (short_condition ∷ []) one_made
      broken short_rows short_count

-- Three substrates of two planned: the third joins the execution of the others.
abbrev three_made : List (ℕ × ℤ)
three_made = (7, pos 3) ∷ []

third_joins :
    record_actual_substrate_counts (two_planned ∷ []) three_made []
    ≡ ok (
      extend_condition two_planned 3 (record { ordinal = 3; device_ordinals = 1 ∷ [] } ∷ []) ∷ [],
      [],
    )
unfolding record_actual_substrate_counts covers sum_neg sum_pos normalize_shortfalls precheck_all
    lookup precheck required_layer_ordinals write_all write_condition extra_substrates
    resolve_layout materialize
third_joins = refl

abbrev finished : Batch
finished = record running_batch {
  status = completed;
  completed_at = some 9;
  conditions = short_condition ∷ [];
  shortfalls = short_rows;
  audit = record { actor = 5; from = BatchStatus.in_progress; to = completed } ∷ [];
}

completion :
    apply_batch_status_update 9 5 (some student) running_batch completed one_made broken
    ≡ ok finished
unfolding apply_batch_status_update batch_transition_allowed prepare_update
    record_actual_substrate_counts covers sum_neg sum_pos normalize_shortfalls strip precheck_all
    lookup precheck write_all write_condition extra_substrates resolve_layout materialize
    validate_batch_complete close_update
completion = refl

update-IsLater_example :
    (batch_transition_allowed running_batch.status completed ≡ true)
    × (finished.status ≡ completed)
    × (phase running_batch.status < phase finished.status)
    × (finished.audit
        ≡ running_batch.audit
          ++ (record { actor = 5; from = BatchStatus.in_progress; to = completed } ∷ []))
update-IsLater_example =
    update-IsLater 9 5 (some student) running_batch completed one_made broken finished completion

update-by_student_example : (running_batch.owner ≡ 5) × (completed ≢ BatchStatus.cancelled)
update-by_student_example =
    update-by_student 9 5 (some student) running_batch completed one_made broken finished completion
      refl

update-IsComplete_example : IsComplete one_made running_batch finished
update-IsComplete_example =
    update-IsComplete 9 5 (some student) running_batch finished one_made broken completion

phase_limit_example : phase running_batch.status + 1 ≤ 3
phase_limit_example =
    phase_limit 1 running_batch finished
      (update 9 5 (some student) completed one_made broken completion no_more)
