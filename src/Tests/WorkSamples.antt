-- ===== src/Tests/WorkSamples.antt =====
-- A draft batch with a planned preparation for two conditions and a consumed one, and a deviation.
use perovskite_fabrication_w.Prelude.{ℕ, String, none, some, [], ◌∷◌}
use perovskite_fabrication_w.Prelude.Int.{pos}
use perovskite_fabrication_w.Recipe.Data.{SolutionRecipe, weighed_solids}
use perovskite_fabrication_w.Snapshots.{ProcessOperation, spin_coating_operation}
use perovskite_fabrication_w.Batch.Data.{BatchStatus, PreparationStatus}
use perovskite_fabrication_w.Work.Data.{PreparationRow, UseRow, Tables, copied_from_plan}
use perovskite_fabrication_w.Work.{with_event}
use perovskite_fabrication_w.Work.Deviations.{NewDeviation}

abbrev pub mix : String → SolutionRecipe
mix chemical = record {
  formulation_type = weighed_solids;
  stock_dispersion = "";
  stock_volume_ml = none;
  solids =
      record { chemical = chemical; weight_mg = some (record { unscaled = pos 4610; scale = 1 }) }
      ∷ [];
  solvents =
      record { solvent = "DMF"; volume_ml = some (record { unscaled = pos 8; scale = 1 }) } ∷ [];
}

abbrev pub spin_once : ProcessOperation
spin_once = spin_coating_operation (
    record {
      rpm = some (pos 4000);
      seconds = some (pos 30);
      acceleration_rpm_per_s = some (pos 1000);
    }
    ∷ [])

-- Hashes that are good enough for these rows.
abbrev pub solution_name : SolutionRecipe → String
solution_name s = s.stock_dispersion

abbrev pub process_name : ProcessOperation → String
process_name o = ""

abbrev pub prepared : ℕ → String → PreparationRow
prepared id code = record {
  ident = id;
  fabrication_batch_id = 5;
  preparation_code = code;
  status = PreparationStatus.planned;
  planned_snapshot = mix "PbI2";
  planned_version = 1;
  planned_hash = "";
  actual_snapshot = none;
  actual_version = none;
  actual_hash = none;
  recording_mode = none;
  prepared_by = none;
  prepared_at = none;
  completed_at = none;
  notes = "";
  updated_at = 0;
}

abbrev pub used_up : PreparationRow
used_up = record (prepared 3 "P5-02") {
  status = PreparationStatus.consumed;
  actual_snapshot = some (mix "PbI2");
  actual_version = some 1;
  actual_hash = some "";
  recording_mode = some copied_from_plan;
  completed_at = some 4;
}

abbrev pub use_of : ℕ → ℕ → UseRow
use_of id condition = record {
  ident = id;
  solution_preparation_id = 1;
  batch_condition_id = condition;
  layer_ordinal = 2;
  layer_role = "perovskite";
  layer_type = "perovskite";
  layer_snapshot_hash = "";
}

abbrev pub before : Tables
before = record {
  batches = record { ident = 5; owner = some 1; status = BatchStatus.draft } ∷ [];
  conditions = record { ident = 30; fabrication_batch_id = 5 } ∷ [];
  substrates = [];
  devices = [];
  preparations = prepared 1 "P5-01" ∷ used_up ∷ [];
  uses = use_of 11 30 ∷ use_of 12 31 ∷ [];
  executions = [];
  members = [];
  deviations = [];
  audit = [];
}

-- A deviation of the first preparation.
abbrev pub spilled : NewDeviation
spilled = record {
  fabrication_batch_id = 5;
  category = "material";
  severity = "warning";
  description = "spilled";
  deviation_type = "general";
  supersedes = none;
  targets = record {
    solution_preparation_id = some 1;
    process_execution_id = none;
    substrate_id = none;
    device_id = none;
    condition_id = none;
  };
}

abbrev pub with_spill : Tables
with_spill = with_event 1 "deviation.create" 7 (record before {
  deviations =
      record {
        ident = 7;
        fabrication_batch_id = 5;
        category = "material";
        severity = "warning";
        deviation_type = "general";
        description = "spilled";
        recorded_by = 1;
        recorded_at = 9;
        supersedes = none;
        targets = spilled.targets;
      }
      ∷ [];
})
