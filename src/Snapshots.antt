-- ===== src/Snapshots.antt =====
-- The snapshots of solutions and process operations that preparations and executions record
-- (src/web/execution_snapshots.py). A validator returns the normalized snapshot.
pub mod Settled
use perovskite_fabrication_w.Prelude.{
  ℕ, String, Option, none, some, List, [], ◌∷◌, ◌++◌, Bool, true, false, not, ◌&&◌, ◌||◌, Result,
  ok, err, Check, ◌>>=◌, ◌>>◌, raise_if, for_each, if◌then◌else◌, str_eq, is_none, is_some, length,
  all, enumerate, map, ltb,
}
use perovskite_fabrication_w.Prelude.Sets.{to_set, lists_each_once}
use perovskite_fabrication_w.Recipe.Data.{
  SolutionRecipe, SpinStep, AnnealStep, VcdStage, VcdGasBackfillStage, LayerProcess, sputter,
  evaporate, deposit, SputteringProcess, ThermalEvaporationProcess, AldProcess,
}
use perovskite_fabrication_w.Recipe.Errors.{RecipeError, field_bound, step_sequence_mismatch}
use perovskite_fabrication_w.Recipe.Layer.{
  length_within, validate_solution, validate_process, spin_step_in_bounds, anneal_step_in_bounds,
  max_solid_chemicals, max_solvents,
}
use perovskite_fabrication_w.Recipe.Stack.{is_empty}
use perovskite_fabrication_w.Recipe.Complete.{is_weighed, solid_missing, solvent_missing}
use perovskite_fabrication_w.Recipe.Process.{
  step_names, vcd_stage_in_bounds, gas_stage_in_bounds, strip_valve, strip_gas, is_vcd_valve,
  spin_step_incomplete, anneal_step_incomplete, gas_stage_incomplete,
}

pub data SnapshotError : Type 0 where
  model_refused : RecipeError → SnapshotError
  solid_required weighed_with_stock stock_required dispersion_with_solids solvent_required :
      SnapshotError
  solid_incomplete solvent_incomplete : ℕ → SnapshotError
  many_solids many_solvents : SnapshotError
  method_differs : SnapshotError
  spin_incomplete anneal_incomplete valve_unknown vcd_incomplete gas_incomplete : ℕ → SnapshotError
  gas2_alone sputtering_incomplete evaporation_incomplete ald_incomplete : SnapshotError

-- A pydantic error, passed on as it is.
abbrev pub or_refused {ℓ} : {A : Type ℓ} → Result RecipeError A → Result SnapshotError A
or_refused (ok a) = ok a
or_refused (err e) = err (model_refused e)

-- The checks of `validate_solution_snapshot` on the validated model.
unfoldable pub complete_solution_snapshot : SolutionRecipe → Check SnapshotError
complete_solution_snapshot s = do
  if is_weighed s.formulation_type
      then raise_if (is_empty s.solids) solid_required
        >> raise_if (not (str_eq s.stock_dispersion "") || is_some s.stock_volume_ml)
            weighed_with_stock
      else raise_if (str_eq s.stock_dispersion "" || is_none s.stock_volume_ml) stock_required
        >> raise_if (not (is_empty s.solids)) dispersion_with_solids
  raise_if (is_empty s.solvents) solvent_required
  for_each (enumerate 1 s.solids) (λ e. raise_if (solid_missing e.1) (solid_incomplete e.0))
  for_each (enumerate 1 s.solvents) (λ e. raise_if (solvent_missing e.1) (solvent_incomplete e.0))
  raise_if (ltb max_solid_chemicals (length s.solids)) many_solids
  raise_if (ltb max_solvents (length s.solvents)) many_solvents

unfoldable pub validate_solution_snapshot : SolutionRecipe → Result SnapshotError SolutionRecipe
validate_solution_snapshot values = do
  solution ← or_refused (validate_solution values)
  complete_solution_snapshot solution
  ok solution

pub record VcdOperation : Type 0 where
  pub vcd_stages : List VcdStage
  pub gas_backfill_stages : List VcdGasBackfillStage
  pub vcd_step_sequence : List String

-- The union is discriminated by `method`, which is the constructor.
pub data ProcessOperation : Type 0 where
  spin_coating_operation : List SpinStep → ProcessOperation
  annealing_operation : List AnnealStep → ProcessOperation
  vcd_operation : VcdOperation → ProcessOperation
  sputtering_operation : SputteringProcess → ProcessOperation
  evaporation_operation : ThermalEvaporationProcess → ProcessOperation
  ald_operation : AldProcess → ProcessOperation

unfoldable pub operation_method : ProcessOperation → String
operation_method (spin_coating_operation _) = "spin_coating"
operation_method (annealing_operation _) = "annealing"
operation_method (vcd_operation _) = "vcd"
operation_method (sputtering_operation _) = "sputtering"
operation_method (evaporation_operation _) = "thermal_evaporation"
operation_method (ald_operation _) = "ald"

-- The stages with their texts stripped.
abbrev pub strip_operation : VcdOperation → VcdOperation
strip_operation v = record v {
  vcd_stages = map strip_valve v.vcd_stages;
  gas_backfill_stages = map strip_gas v.gas_backfill_stages;
}

-- VcdOperation.model_validate, on the fields as they are stripped.
unfoldable pub check_vcd_operation : VcdOperation → Check RecipeError
check_vcd_operation v = do
  raise_if
      (not (
        (length_within 1 5 v.vcd_stages && all vcd_stage_in_bounds v.vcd_stages)
        && (length_within 0 5 v.gas_backfill_stages
            && all gas_stage_in_bounds v.gas_backfill_stages)
        && length_within 1 10 v.vcd_step_sequence))
      (field_bound "vcd")
  raise_if
      (not (
        lists_each_once v.vcd_step_sequence
          (to_set (step_names v.vcd_stages v.gas_backfill_stages))))
      step_sequence_mismatch

abbrev pub sputtering_of : LayerProcess → SputteringProcess → SputteringProcess
sputtering_of (sputter p) other = p
sputtering_of _ other = other

-- The adapter of the union: the model of the method validates the fields. The three processes that
-- the layers have too are validated by the models of the layers.
unfoldable pub validate_operation : ProcessOperation → Result RecipeError ProcessOperation
validate_operation (spin_coating_operation steps) = do
  raise_if (not (length_within 1 4 steps && all spin_step_in_bounds steps))
      (field_bound "spin_steps")
  ok (spin_coating_operation steps)
validate_operation (annealing_operation steps) = do
  raise_if (not (length_within 1 2 steps && all anneal_step_in_bounds steps))
      (field_bound "anneal_steps")
  ok (annealing_operation steps)
validate_operation (vcd_operation v) = do
  check_vcd_operation (strip_operation v)
  ok (vcd_operation (strip_operation v))
validate_operation (sputtering_operation p) = do
  valid ← validate_process (sputter p)
  ok (sputtering_operation (sputtering_of valid p))
validate_operation (evaporation_operation p) = do
  valid ← validate_process (evaporate p)
  ok (evaporation_operation p)
validate_operation (ald_operation p) = do valid ← validate_process (deposit p); ok (ald_operation p)

abbrev pub stage_check : ℕ × VcdStage → Check SnapshotError
stage_check (index, stage) = do
  raise_if (not (is_vcd_valve stage.valve)) (valve_unknown index)
  raise_if (is_none stage.pressure_pa || is_none stage.seconds) (vcd_incomplete index)

-- The checks of `validate_process_snapshot` by the class of the operation.
unfoldable pub complete_operation : ProcessOperation → Check SnapshotError
complete_operation (spin_coating_operation steps) =
    for_each (enumerate 1 steps) (λ e. raise_if (spin_step_incomplete e.1) (spin_incomplete e.0))
complete_operation (annealing_operation steps) =
    for_each (enumerate 1 steps)
      (λ e. raise_if (anneal_step_incomplete e.1) (anneal_incomplete e.0))
complete_operation (vcd_operation v) = do
  for_each (enumerate 1 v.vcd_stages) stage_check
  for_each (enumerate 1 v.gas_backfill_stages)
      (λ e. raise_if (gas_stage_incomplete e.1) (gas_incomplete e.0))
complete_operation (sputtering_operation p) = do
  raise_if
      ((not (str_eq p.gas2 "") && is_none p.gas2_flow_sccm)
        || (str_eq p.gas2 "" && is_some p.gas2_flow_sccm))
      gas2_alone
  raise_if
      (is_none p.power_w
        || is_none p.pressure_pa
        || str_eq p.gas1 ""
        || is_none p.gas1_flow_sccm
        || is_none p.duration_seconds)
      sputtering_incomplete
complete_operation (evaporation_operation p) =
    raise_if (is_none p.thickness_nm || is_none p.rate_angstrom_per_s) evaporation_incomplete
complete_operation (ald_operation p) =
    raise_if (is_none p.thickness_nm || is_none p.substrate_temperature_c || is_none p.cycles)
      ald_incomplete

-- `expected_method is not None and method != expected_method`
abbrev pub differs : Option String → String → Bool
differs none method = false
differs (some expected) method = not (str_eq method expected)

unfoldable pub validate_process_snapshot :
    Option String → ProcessOperation → Result SnapshotError ProcessOperation
validate_process_snapshot expected values = do
  operation ← or_refused (validate_operation values)
  raise_if (differs expected (operation_method operation)) method_differs
  complete_operation operation
  ok operation
