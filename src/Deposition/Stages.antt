-- ===== src/Deposition/Stages.antt =====
-- The stage loops of the recipe class accept complete stages.
use perovskite_fabrication_w.Prelude.{
  ℕ, zero, suc, ◌+◌, ◌≤◌, String, Option, none, some, List, [], ◌∷◌, Bool, true, false, ◌||◌, ◌≡◌,
  refl, arith, ok, not, All, length, is_none, map, ◌==◌,
}
use perovskite_fabrication_w.Prelude.Int.{ℤ}
use perovskite_fabrication_w.Prelude.Text.{strip}
use perovskite_fabrication_w.Recipe.Data.{SpinStep, AnnealStep, VcdStage, VcdGasBackfillStage}
use perovskite_fabrication_w.Recipe.Layer.{gt_zero, ge_zero}
use perovskite_fabrication_w.Recipe.Process
use perovskite_fabrication_w.Recipe.Process.{
  RawProcess, step_names, process_fields_valid, is_vcd_valve, require_complete_deposition_process,
  validate_perovskite_process, validate_deposition_process, vcd_stage_name, gas_backfill_stage_name,
  names_from,
}
use perovskite_fabrication_w.Deposition.Data.{Value, null}
use perovskite_fabrication_w.Deposition.Checks.{
  validate_optional_spin_stage, validate_vcd_stage, validate_gas_backfill_stage, is_legacy_partial,
  float_overflows, vcd_stage_loop, gas_stage_loop, supplied_names, require_positive_integer,
}
use perovskite_fabrication_w.Deposition.Flatten.{
  get_elem?, int_value, spin_fields, vcd_fields, gas_fields,
}

-- A step with all its values, in their bounds.
abbrev pub IsSpinStep : SpinStep → Type 0
IsSpinStep s =
    (Process.spin_step_incomplete s ≡ false)
    × (gt_zero s.rpm ≡ true)
    × (gt_zero s.seconds ≡ true)
    × (gt_zero s.acceleration_rpm_per_s ≡ true)

abbrev pub IsAnnealStep : AnnealStep → Type 0
IsAnnealStep s =
    (Process.anneal_step_incomplete s ≡ false)
    × (gt_zero s.temperature_c ≡ true)
    × (gt_zero s.seconds ≡ true)

abbrev pub IsVcdStage : VcdStage → Type 0
IsVcdStage s =
    (is_vcd_valve s.valve ≡ true)
    × ((is_none s.pressure_pa || is_none s.seconds) ≡ false)
    × (ge_zero s.pressure_pa ≡ true)
    × (ge_zero s.seconds ≡ true)

abbrev pub IsGasStage : VcdGasBackfillStage → Type 0
IsGasStage s =
    (Process.gas_stage_incomplete s ≡ false)
    × (strip s.gas ≡ s.gas)
    × (gt_zero s.flow_sccm ≡ true)
    × (ge_zero s.target_pressure_pa ≡ true)
    × (ge_zero s.hold_seconds ≡ true)

pub spin_ok :
    (name : String) (s : SpinStep)
    → IsSpinStep s
    → validate_optional_spin_stage name (spin_fields (some s)) ≡ ok true
unfolding validate_optional_spin_stage
spin_ok name s h = ground arith

vcd_ok :
    (name : String) (required : Bool) (s : VcdStage)
    → IsVcdStage s
    → validate_vcd_stage name required (vcd_fields (some s)) ≡ ok true
unfolding validate_vcd_stage
vcd_ok name required s h = ground arith

-- A flow that a float holds.
abbrev pub flow_fits : VcdGasBackfillStage → Bool
flow_fits s = elim s.flow_sccm [ none ↦ true | some n ↦ not (float_overflows n) ]

gas_ok :
    (name : String) (s : VcdGasBackfillStage)
    → IsGasStage s
    → flow_fits s ≡ true
    → validate_gas_backfill_stage name
        (is_legacy_partial (gas_fields (some s)))
        (gas_fields (some s))
      ≡ ok true
unfolding validate_gas_backfill_stage
gas_ok name s h k = ground arith

-- The stages of a list, and `none` in the places up to `n` that it leaves.
abbrev pub pad : {A : Type 0} → ℕ → List A → List (Option A)
pad zero xs = []
pad (suc n) [] = none ∷ pad n []
pad (suc n) (x ∷ xs) = some x ∷ pad n xs

pub pad-five :
    {A B : Type 0} (g : Option A → B) (xs : List A)
    → map g (pad 5 xs)
      ≡ g (get_elem? xs 0)
        ∷ g (get_elem? xs 1)
        ∷ g (get_elem? xs 2)
        ∷ g (get_elem? xs 3)
        ∷ g (get_elem? xs 4)
        ∷ []
pad-five g [] = refl
pad-five g (a ∷ []) = refl
pad-five g (a ∷ b ∷ []) = refl
pad-five g (a ∷ b ∷ c ∷ []) = refl
pad-five g (a ∷ b ∷ c ∷ d ∷ []) = refl
pad-five g (a ∷ b ∷ c ∷ d ∷ e ∷ xs) = refl

vcd_loop_rest :
    (n index : ℕ) (previous : Bool)
    → 2 ≤ index
    → vcd_stage_loop index previous (map vcd_fields (pad n [])) ≡ ok tt
unfolding vcd_stage_loop
vcd_loop_rest zero index previous h = refl
vcd_loop_rest (suc n) index previous h =
    let later : (index == 1) ≡ false = ground arith in
    rw later (vcd_loop_rest n (suc index) false (omega arith))

pub vcd_loop_ok :
    (n index : ℕ) (xs : List VcdStage)
    → 1 ≤ index
    → 3 ≤ index + length xs + 1
    → All IsVcdStage xs
    → vcd_stage_loop index true (map vcd_fields (pad n xs)) ≡ ok tt
unfolding vcd_stage_loop
vcd_loop_ok zero index xs h k a = refl
vcd_loop_ok (suc n) index [] h k a = vcd_loop_rest (suc n) index true (omega arith)
vcd_loop_ok (suc n) index (x ∷ xs) h k a =
    rw (vcd_ok (vcd_stage_name index) (index == 1) x a.0)
      (vcd_loop_ok n (suc index) xs (omega arith) (omega arith) a.1)

gas_loop_rest :
    (n index : ℕ) (previous : Bool)
    → gas_stage_loop index previous (map gas_fields (pad n [])) ≡ ok tt
unfolding gas_stage_loop
gas_loop_rest zero index previous = refl
gas_loop_rest (suc n) index previous = gas_loop_rest n (suc index) false

pub gas_loop_ok :
    (n index : ℕ) (xs : List VcdGasBackfillStage)
    → All IsGasStage xs
    → All (λ s. flow_fits s ≡ true) xs
    → gas_stage_loop index true (map gas_fields (pad n xs)) ≡ ok tt
unfolding gas_stage_loop
gas_loop_ok zero index xs a b = refl
gas_loop_ok (suc n) index [] a b = gas_loop_rest (suc n) index true
gas_loop_ok (suc n) index (x ∷ xs) a b =
    rw (gas_ok (gas_backfill_stage_name index) x a.0 b.0) (gas_loop_ok n (suc index) xs a.1 b.1)

pub names_rest :
    {A : Type 0} (g : Option A → Value) (name : ℕ → String) (n index : ℕ)
    → g none ≡ null
    → supplied_names name index (map g (pad {A = A} n [])) ≡ []
unfolding supplied_names
names_rest {A} g name zero index e = refl
names_rest {A} g name (suc n) index e = rw e (names_rest {A = A} g name n (suc index) e)

pub spin_none : (name : String) → validate_optional_spin_stage name (spin_fields none) ≡ ok false
unfolding validate_optional_spin_stage
spin_none name = refl

pub positive_ok :
    (name : String) (n : Option ℤ)
    → is_none n ≡ false
    → gt_zero n ≡ true
    → require_positive_integer name (int_value n) ≡ ok tt
unfolding require_positive_integer
positive_ok name n h k = ground arith
