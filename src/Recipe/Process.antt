-- ===== src/Recipe/Process.antt =====
-- The perovskite process of src/perovskite_bo/device_recipe.py: PerovskiteDepositionProcess with its
-- step sequence, and the completeness that `validate_deposition_process` asks for.
pub mod Sequence
use perovskite_fabrication_w.Prelude.{
  ℕ, suc, String, Option, none, some, List, [], ◌∷◌, ◌++◌, Bool, true, false, not, ◌&&◌, ◌||◌,
  Result, ok, Check, ◌>>=◌, ◌>>◌, raise_if, for_each, if◌then◌else◌, str_eq, is_none, length, all,
  any, enumerate, map,
}
use Prim.Native.String.{◌++◌ as text_append}
use perovskite_fabrication_w.Prelude.Text.{strip, decimal}
use perovskite_fabrication_w.Prelude.Sets.{to_set, lists_each_once}
use perovskite_fabrication_w.Recipe.Data.{
  SpinStep, AnnealStep, VcdStage, VcdGasBackfillStage, PerovskiteDepositionProcess,
}
use perovskite_fabrication_w.Recipe.Errors.{
  RecipeError, field_bound, step_sequence_mismatch, gas_backfill_incomplete, pvk_spin_incomplete,
  vcd_valve_unknown, vcd_stage_incomplete, pvk_anneal_incomplete,
}
use perovskite_fabrication_w.Recipe.Layer.{
  gt_zero, ge_zero, length_within, spin_step_in_bounds, anneal_step_in_bounds,
}

-- `f"vcd_stage{index}"`, `f"gas_backfill_stage{index}"`
unfoldable pub vcd_stage_name : ℕ → String
unfolding decimal
vcd_stage_name index = text_append "vcd_stage" (decimal index)

unfoldable pub gas_backfill_stage_name : ℕ → String
unfolding decimal
gas_backfill_stage_name index = text_append "gas_backfill_stage" (decimal index)

-- `f(index) for index, _ in enumerate(xs, 1)`
abbrev pub names_from {ℓ} : {A : Type ℓ} → (ℕ → String) → ℕ → List A → List String
names_from name index [] = []
names_from name index (x ∷ xs) = name index ∷ names_from name (suc index) xs

unfoldable pub step_names : List VcdStage → List VcdGasBackfillStage → List String
step_names vcd gas = names_from vcd_stage_name 1 vcd ++ names_from gas_backfill_stage_name 1 gas

-- What a caller supplies: the step sequence may be a key that is not there.
pub record RawProcess : Type 0 where
  pub spin_steps : List SpinStep
  pub vcd_stages : List VcdStage
  pub gas_backfill_stages : List VcdGasBackfillStage
  pub vcd_step_sequence : Option (List String)
  pub anneal_steps : List AnnealStep

unfoldable pub default_vcd_step_sequence : RawProcess → List String
default_vcd_step_sequence raw = elim raw.vcd_step_sequence [
  | some sequence ↦ sequence
  | none ↦ step_names raw.vcd_stages raw.gas_backfill_stages
]

unfoldable pub vcd_stage_in_bounds : VcdStage → Bool
vcd_stage_in_bounds s = ge_zero s.pressure_pa && ge_zero s.seconds

unfoldable pub gas_stage_in_bounds : VcdGasBackfillStage → Bool
gas_stage_in_bounds s =
    gt_zero s.flow_sccm && ge_zero s.target_pressure_pa && ge_zero s.hold_seconds

abbrev pub strip_valve : VcdStage → VcdStage
strip_valve s = record s { valve = strip s.valve }

abbrev pub strip_gas : VcdGasBackfillStage → VcdGasBackfillStage
strip_gas s = record s { gas = strip s.gas }

-- `validate_vcd_step_sequence`
unfoldable pub validate_vcd_step_sequence : PerovskiteDepositionProcess → Check RecipeError
validate_vcd_step_sequence p =
    raise_if
      (not (
        lists_each_once p.vcd_step_sequence
          (to_set (step_names p.vcd_stages p.gas_backfill_stages))))
      step_sequence_mismatch

-- The declared bounds of the lists and of their items.
unfoldable pub process_fields_valid : PerovskiteDepositionProcess → Bool
unfolding spin_step_in_bounds anneal_step_in_bounds vcd_stage_in_bounds gas_stage_in_bounds
process_fields_valid p =
    (length_within 1 4 p.spin_steps && all spin_step_in_bounds p.spin_steps)
    && (length_within 1 5 p.vcd_stages && all vcd_stage_in_bounds p.vcd_stages)
    && (length_within 0 5 p.gas_backfill_stages && all gas_stage_in_bounds p.gas_backfill_stages)
    && length_within 0 10 p.vcd_step_sequence
    && (length_within 1 2 p.anneal_steps && all anneal_step_in_bounds p.anneal_steps)

-- The model that the stripped fields and the default sequence make.
unfoldable pub build_process : RawProcess → PerovskiteDepositionProcess
unfolding default_vcd_step_sequence
build_process raw = record {
  spin_steps = raw.spin_steps;
  vcd_stages = map strip_valve raw.vcd_stages;
  gas_backfill_stages = map strip_gas raw.gas_backfill_stages;
  vcd_step_sequence = default_vcd_step_sequence raw;
  anneal_steps = raw.anneal_steps;
}

-- PerovskiteDepositionProcess.model_validate
unfoldable pub validate_perovskite_process :
    RawProcess → Result RecipeError PerovskiteDepositionProcess
validate_perovskite_process raw = do
  let p = build_process raw
  raise_if (not (process_fields_valid p)) (field_bound "deposition_process")
  validate_vcd_step_sequence p
  ok p

-- VCD_VALVES
abbrev pub vcd_valves : List String
vcd_valves = "VV02" ∷ "VV03" ∷ "VV06" ∷ "Pudi" ∷ []

unfoldable pub is_vcd_valve : String → Bool
is_vcd_valve valve = any (λ v. str_eq v valve) vcd_valves

-- `None in (step.rpm, step.seconds, step.acceleration_rpm_per_s)`
abbrev pub spin_step_incomplete : SpinStep → Bool
spin_step_incomplete s = is_none s.rpm || is_none s.seconds || is_none s.acceleration_rpm_per_s

abbrev pub anneal_step_incomplete : AnnealStep → Bool
anneal_step_incomplete s = is_none s.temperature_c || is_none s.seconds

abbrev pub gas_stage_incomplete : VcdGasBackfillStage → Bool
gas_stage_incomplete s =
    str_eq s.gas "" || is_none s.flow_sccm || is_none s.target_pressure_pa || is_none s.hold_seconds

unfoldable pub require_complete_gas_backfill_stages :
    String → List VcdGasBackfillStage → Check RecipeError
require_complete_gas_backfill_stages prefix stages =
    for_each (enumerate 1 stages)
      (λ e. raise_if (gas_stage_incomplete e.1) (gas_backfill_incomplete prefix e.0))

abbrev pub vcd_stage_check : String → ℕ × VcdStage → Check RecipeError
vcd_stage_check prefix (index, stage) = do
  raise_if (not (is_vcd_valve stage.valve)) (vcd_valve_unknown prefix index)
  raise_if (is_none stage.pressure_pa || is_none stage.seconds) (vcd_stage_incomplete prefix index)

-- The four loops that `validate_deposition_process` and `_require_complete_deposition_process`
-- share; they differ in the prefix of the messages.
unfoldable pub require_complete_deposition_process :
    String → PerovskiteDepositionProcess → Check RecipeError
require_complete_deposition_process prefix p = do
  for_each (enumerate 1 p.spin_steps)
      (λ e. raise_if (spin_step_incomplete e.1) (pvk_spin_incomplete prefix e.0))
  for_each (enumerate 1 p.vcd_stages) (vcd_stage_check prefix)
  require_complete_gas_backfill_stages prefix p.gas_backfill_stages
  for_each (enumerate 1 p.anneal_steps)
      (λ e. raise_if (anneal_step_incomplete e.1) (pvk_anneal_incomplete prefix e.0))

unfoldable pub validate_deposition_process :
    RawProcess → Result RecipeError PerovskiteDepositionProcess
validate_deposition_process raw = do
  process ← validate_perovskite_process raw
  require_complete_deposition_process "" process
  ok process
