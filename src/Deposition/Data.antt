-- ===== src/Deposition/Data.antt =====
-- The fields of DepositionRecipe (src/perovskite_bo/recipe.py), which Python does not type: each
-- holds any value until `__post_init__` has looked at it. The fields of a stage stand together.
use perovskite_fabrication_w.Prelude.{String, Option, List, [], ◌∷◌, Bool, true, false}
use perovskite_fabrication_w.Prelude.Int.{ℤ, Decimal}

-- A `real` is a finite float.
pub data Value : Type 0 where
  null : Value
  bool : Bool → Value
  int : ℤ → Value
  real : Decimal → Value
  text : String → Value

-- `value is not None`
abbrev pub supplied : Value → Bool
supplied null = false
supplied (bool b) = true
supplied (int n) = true
supplied (real d) = true
supplied (text s) = true

pub record SpinFields : Type 0 where
  pub rpm : Value
  pub seconds : Value
  pub acceleration_rpm_per_s : Value

pub record VcdFields : Type 0 where
  pub valve : Value
  pub pressure_pa : Value
  pub seconds : Value

pub record GasFields : Type 0 where
  pub gas : Value
  pub flow_sccm : Value
  pub target_pressure_pa : Value
  pub hold_seconds : Value

pub record AnnealFields : Type 0 where
  pub temperature_c : Value
  pub seconds : Value

-- The deprecated pressures in mbar, the fabrication context and the device recipe are absent.
pub record DepositionRecipe : Type 0 where
  pub spin_cast : SpinFields
  pub spin_spread : SpinFields
  pub spin_thin : SpinFields
  pub spin_stage4 : SpinFields
  pub vcd_stage1 : VcdFields
  pub vcd_stage2 : VcdFields
  pub vcd_stage3 : VcdFields
  pub vcd_stage4 : VcdFields
  pub vcd_stage5 : VcdFields
  pub gas_backfill_stage1 : GasFields
  pub gas_backfill_stage2 : GasFields
  pub gas_backfill_stage3 : GasFields
  pub gas_backfill_stage4 : GasFields
  pub gas_backfill_stage5 : GasFields
  pub vcd_step_sequence : Option (List String)
  pub anneal_stage1 : AnnealFields
  pub anneal_stage2 : AnnealFields
  pub device_stack : Value

-- `getattr(self, f"vcd_stage{index}_...") for index in range(1, 6)`
abbrev pub vcd_stages : DepositionRecipe → List VcdFields
vcd_stages r = r.vcd_stage1 ∷ r.vcd_stage2 ∷ r.vcd_stage3 ∷ r.vcd_stage4 ∷ r.vcd_stage5 ∷ []

abbrev pub gas_backfill_stages : DepositionRecipe → List GasFields
gas_backfill_stages r =
    r.gas_backfill_stage1 ∷ r.gas_backfill_stage2 ∷ r.gas_backfill_stage3 ∷ r.gas_backfill_stage4
    ∷ r.gas_backfill_stage5 ∷ []
