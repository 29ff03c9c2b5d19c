-- ===== src/Tests/Samples.antt =====
-- A device stack, a deposition process and a fabrication batch to run the models on.
use perovskite_fabrication_w.Prelude.{ℕ, String, Option, none, some, List, [], ◌∷◌, true, false}
use perovskite_fabrication_w.Prelude.Int.{pos, Decimal}
use perovskite_fabrication_w.Recipe.Data.{
  LayerType, niox, sam, pcbm, c60, bcp, ag, weighed_solids, SolutionRecipe, SpinStep, AnnealStep,
  LayerProcess, spin, evaporate, DeviceLayer, GroupAdjustment, ExperimentalGroup, control, target,
}
use perovskite_fabrication_w.Recipe.Layer.{layer_role_by_type}
use perovskite_fabrication_w.Recipe.Process.{RawProcess}
use perovskite_fabrication_w.Batch.Data.{
  in_progress, PreparationStatus, ExecutionStatus, BatchCondition, Batch,
}

abbrev pub whole : ℕ → Option Decimal
whole n = some (record { unscaled = pos n; scale = 0 })

abbrev pub lead_iodide_ink : SolutionRecipe
lead_iodide_ink = record {
  formulation_type = weighed_solids;
  stock_dispersion = "";
  stock_volume_ml = none;
  solids = record { chemical = "PbI2"; weight_mg = whole 461 } ∷ [];
  solvents = record { solvent = "DMF"; volume_ml = whole 1 } ∷ [];
}

abbrev pub slow_spin : SpinStep
slow_spin = record {
  rpm = some (pos 3000);
  seconds = some (pos 30);
  acceleration_rpm_per_s = some (pos 500);
}

abbrev pub short_anneal : AnnealStep
short_anneal = record { temperature_c = some (pos 100); seconds = some (pos 600) }

abbrev pub coated : LayerProcess
coated = spin (record { spin_steps = slow_spin ∷ []; anneal_steps = short_anneal ∷ [] })

abbrev pub evaporated : LayerProcess
evaporated = evaporate (record { thickness_nm = whole 20; rate_angstrom_per_s = whole 1 })

abbrev pub coated_layer : LayerType → DeviceLayer
coated_layer t = record {
  layer_type = t;
  role = layer_role_by_type t;
  name = "layer";
  preset_id = none;
  solution = some lead_iodide_ink;
  process = some coated;
}

abbrev pub evaporated_layer : LayerType → DeviceLayer
evaporated_layer t = record {
  layer_type = t;
  role = layer_role_by_type t;
  name = "layer";
  preset_id = none;
  solution = none;
  process = some evaporated;
}

abbrev pub absorber : DeviceLayer
absorber = record {
  layer_type = LayerType.perovskite;
  role = layer_role_by_type LayerType.perovskite;
  name = "absorber";
  preset_id = none;
  solution = some lead_iodide_ink;
  process = none;
}

abbrev pub pin_stack : List DeviceLayer
pin_stack =
    coated_layer niox
    ∷ coated_layer sam
    ∷ absorber
    ∷ coated_layer pcbm
    ∷ evaporated_layer c60
    ∷ evaporated_layer bcp
    ∷ evaporated_layer ag
    ∷ []

abbrev pub two_stage_process : RawProcess
two_stage_process = record {
  spin_steps = slow_spin ∷ slow_spin ∷ [];
  vcd_stages =
      record { valve = " VV02"; pressure_pa = some (pos 1000); seconds = some (pos 5) }
      ∷ record { valve = "Pudi"; pressure_pa = some (pos 10); seconds = some (pos 20) }
      ∷ [];
  gas_backfill_stages =
      record {
        gas = "N2";
        flow_sccm = some (pos 50);
        target_pressure_pa = some (pos 5000);
        hold_seconds = some (pos 3);
      }
      ∷ [];
  vcd_step_sequence = some ("vcd_stage1" ∷ "gas_backfill_stage1" ∷ "vcd_stage2" ∷ []);
  anneal_steps = short_anneal ∷ [];
}

abbrev pub plain_group : String → ExperimentalGroup
plain_group name = record {
  group_id = name;
  kind = control;
  name = name;
  change_from_control = "";
  inherits_control = false;
  adjustments = [];
  layers = none;
  deposition_process = none;
  substrate_count = none;
}

abbrev pub control_and_target : List ExperimentalGroup
control_and_target =
    plain_group "control"
    ∷ record (plain_group "target-1") { kind = target; inherits_control = true }
    ∷ []

abbrev pub hotter : GroupAdjustment
hotter = record {
  parameter = "anneal_stage1_temp_c";
  parameter_label = "Anneal";
  control_value = "100";
  target_value = "120";
}

-- A condition of two planned substrates with an execution of its first layer.
abbrev pub two_planned : BatchCondition
two_planned = record {
  ident = 7;
  planned_substrate_count = 2;
  actual_substrate_count = none;
  recipe_snapshot = record {
    layers = record { has_process = true; is_perovskite = false } ∷ [];
    has_deposition_steps = false;
  };
  layout_devices = some 1;
  substrates =
      record { ordinal = 1; device_ordinals = 1 ∷ [] }
      ∷ record { ordinal = 2; device_ordinals = 1 ∷ [] }
      ∷ [];
  members =
      record { execution_id = 4; layer_ordinal = 1; layer_snapshot_hash = "h"; substrate = 1 }
      ∷ record { execution_id = 4; layer_ordinal = 1; layer_snapshot_hash = "h"; substrate = 2 }
      ∷ [];
}

abbrev pub running_batch : Batch
running_batch = record {
  owner = 5;
  status = in_progress;
  started_at = some 1;
  completed_at = none;
  cancelled_at = none;
  conditions = two_planned ∷ [];
  preparations =
      record {
        ident = 3;
        status = PreparationStatus.consumed;
        planned_hash = "p";
        actual_snapshot = none;
        uses = [];
      }
      ∷ [];
  executions =
      record { ident = 4; status = ExecutionStatus.completed; actual_snapshot = none } ∷ [];
  shortfalls = [];
  audit = [];
}
