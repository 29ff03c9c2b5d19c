-- ===== src/Tests/Processes.antt =====
-- The process checks on a sample sequence of two evacuations and a gas backfill.
use perovskite_fabrication_w.Recipe.Process.{
  gas_backfill_stage_name, is_vcd_valve, process_fields_valid, require_complete_deposition_process,
  require_complete_gas_backfill_stages, vcd_stage_name,
}
use perovskite_fabrication_w.Prelude.Sets.{lists_each_once, to_set}
use perovskite_fabrication_w.Prelude.Text.{strip}
use perovskite_fabrication_w.Prelude.{◌≡◌, ◌↔◌, ◌≤◌, refl, ok, err, length, arith}
use mathlib.Core.List.{Perm}
use Prim.Native.Nat.{◌^◌}
use perovskite_fabrication_w.Prelude.Int.{pos}
use perovskite_fabrication_w.Deposition.Data.{int}
use perovskite_fabrication_w.Recipe.Data.{PerovskiteDepositionProcess}
use perovskite_fabrication_w.Recipe.Process.{
  step_names, build_process, validate_vcd_step_sequence, validate_deposition_process,
  validate_perovskite_process,
}
use perovskite_fabrication_w.Recipe.Process.Sequence.{validate_vcd_step_sequence_iff}
use perovskite_fabrication_w.Deposition.Checks.{
  post_init, require_positive_real, float_overflow, float_overflows, quotient_overflows,
  float_limit,
}
use perovskite_fabrication_w.Deposition.Flatten.{flatten, deposition_recipe_from_process}
use perovskite_fabrication_w.Deposition.Recorded.{post_init-from_process}
use perovskite_fabrication_w.Tests.Samples.{two_stage_process}

abbrev two_stages : PerovskiteDepositionProcess
two_stages = build_process two_stage_process

flat_two_stages : deposition_recipe_from_process two_stage_process ≡ ok (flatten two_stages)
unfolding deposition_recipe_from_process validate_deposition_process validate_perovskite_process
    process_fields_valid build_process validate_vcd_step_sequence lists_each_once to_set step_names
    gas_backfill_stage_name vcd_stage_name require_complete_deposition_process is_vcd_valve strip
    require_complete_gas_backfill_stages
flat_two_stages = refl

post_init-from_process_example : post_init (flatten two_stages) ≡ ok (flatten two_stages)
unfolding float_overflows quotient_overflows float_limit
post_init-from_process_example =
    post_init-from_process two_stage_process (flatten two_stages) flat_two_stages (refl, (refl, tt))
      (refl, tt)

-- No float holds ten to the power of four hundred.
huge_flow_refused :
    require_positive_real "flow" (int (pos (10 ^ 400))) ≡ err (float_overflow "flow")
unfolding require_positive_real float_overflows float_limit
huge_flow_refused = refl

at_most_five : length two_stages.vcd_stages ≤ 5
unfolding build_process
at_most_five = omega arith

one_backfill : length two_stages.gas_backfill_stages ≤ 5
unfolding build_process
one_backfill = omega arith

validate_vcd_step_sequence_iff_example :
    (validate_vcd_step_sequence two_stages ≡ ok tt)
    ↔ Perm two_stages.vcd_step_sequence
        (step_names two_stages.vcd_stages two_stages.gas_backfill_stages)
validate_vcd_step_sequence_iff_example =
    validate_vcd_step_sequence_iff two_stages at_most_five one_backfill
