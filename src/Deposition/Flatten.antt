-- ===== src/Deposition/Flatten.antt =====
-- `deposition_recipe_from_process` of src/perovskite_bo/device_recipe.py: a validated perovskite
-- process as the fields of the flat recipe.
use perovskite_fabrication_w.Prelude.{
  ℕ, zero, suc, Option, none, some, List, [], ◌∷◌, Result, ok, ◌>>=◌,
}
use perovskite_fabrication_w.Prelude.Int.{ℤ}
use perovskite_fabrication_w.Recipe.Data.{
  SpinStep, AnnealStep, VcdStage, VcdGasBackfillStage, PerovskiteDepositionProcess,
}
use perovskite_fabrication_w.Recipe.Errors.{RecipeError}
use perovskite_fabrication_w.Recipe.Process.{RawProcess, validate_deposition_process}
use perovskite_fabrication_w.Deposition.Data.{
  Value, null, int, text, SpinFields, VcdFields, GasFields, AnnealFields, DepositionRecipe,
}

-- `xs[i]`, where the index is known to be in range, and `None` where the code writes `None` instead.
abbrev pub get_elem? {ℓ} : {A : Type ℓ} → List A → ℕ → Option A
get_elem? [] i = none
get_elem? (x ∷ xs) zero = some x
get_elem? (x ∷ xs) (suc i) = get_elem? xs i

abbrev pub int_value : Option ℤ → Value
int_value none = null
int_value (some n) = int n

abbrev pub spin_fields : Option SpinStep → SpinFields
spin_fields none = record { rpm = null; seconds = null; acceleration_rpm_per_s = null }
spin_fields (some s) = record {
  rpm = int_value s.rpm;
  seconds = int_value s.seconds;
  acceleration_rpm_per_s = int_value s.acceleration_rpm_per_s;
}

abbrev pub vcd_fields : Option VcdStage → VcdFields
vcd_fields none = record { valve = null; pressure_pa = null; seconds = null }
vcd_fields (some s) = record {
  valve = text s.valve;
  pressure_pa = int_value s.pressure_pa;
  seconds = int_value s.seconds;
}

abbrev pub gas_fields : Option VcdGasBackfillStage → GasFields
gas_fields none = record {
  gas = null;
  flow_sccm = null;
  target_pressure_pa = null;
  hold_seconds = null;
}
gas_fields (some s) = record {
  gas = text s.gas;
  flow_sccm = int_value s.flow_sccm;
  target_pressure_pa = int_value s.target_pressure_pa;
  hold_seconds = int_value s.hold_seconds;
}

abbrev pub anneal_fields : Option AnnealStep → AnnealFields
anneal_fields none = record { temperature_c = null; seconds = null }
anneal_fields (some s) = record {
  temperature_c = int_value s.temperature_c;
  seconds = int_value s.seconds;
}

unfoldable pub flatten : PerovskiteDepositionProcess → DepositionRecipe
flatten p = record {
  spin_cast = spin_fields (get_elem? p.spin_steps 0);
  spin_spread = spin_fields (get_elem? p.spin_steps 1);
  spin_thin = spin_fields (get_elem? p.spin_steps 2);
  spin_stage4 = spin_fields (get_elem? p.spin_steps 3);
  vcd_stage1 = vcd_fields (get_elem? p.vcd_stages 0);
  vcd_stage2 = vcd_fields (get_elem? p.vcd_stages 1);
  vcd_stage3 = vcd_fields (get_elem? p.vcd_stages 2);
  vcd_stage4 = vcd_fields (get_elem? p.vcd_stages 3);
  vcd_stage5 = vcd_fields (get_elem? p.vcd_stages 4);
  gas_backfill_stage1 = gas_fields (get_elem? p.gas_backfill_stages 0);
  gas_backfill_stage2 = gas_fields (get_elem? p.gas_backfill_stages 1);
  gas_backfill_stage3 = gas_fields (get_elem? p.gas_backfill_stages 2);
  gas_backfill_stage4 = gas_fields (get_elem? p.gas_backfill_stages 3);
  gas_backfill_stage5 = gas_fields (get_elem? p.gas_backfill_stages 4);
  vcd_step_sequence = some p.vcd_step_sequence;
  anneal_stage1 = anneal_fields (get_elem? p.anneal_steps 0);
  anneal_stage2 = anneal_fields (get_elem? p.anneal_steps 1);
  device_stack = null;
}

unfoldable pub deposition_recipe_from_process : RawProcess → Result RecipeError DepositionRecipe
unfolding flatten
deposition_recipe_from_process raw = do
  process ← validate_deposition_process raw
  ok (flatten process)
