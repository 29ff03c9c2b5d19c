-- ===== src/Deposition/Checks.antt =====
-- The checks of `DepositionRecipe.__post_init__` (src/perovskite_bo/recipe.py).
use Prim.Native.Nat.{◌^◌}
use perovskite_fabrication_w.Prelude.{
  ℕ, suc, ◌*◌, ◌-◌, leb, String, none, some, List, [], ◌∷◌, ◌++◌, Bool, true, false, not, ◌&&◌,
  Result, ok, err, Check, ◌>>=◌, ◌>>◌, raise_if, if◌then◌else◌, ◌==◌, str_eq, any, all, map,
}
use perovskite_fabrication_w.Prelude.Int.{ℤ, pos, negsuc, is_positive, is_nonneg}
use perovskite_fabrication_w.Prelude.Text.{strip}
use perovskite_fabrication_w.Prelude.Sets.{to_set, lists_each_once}
use perovskite_fabrication_w.Recipe.Process.{vcd_stage_name, gas_backfill_stage_name, is_vcd_valve}
use perovskite_fabrication_w.Deposition.Data.{
  Value, null, int, real, text, supplied, SpinFields, VcdFields, GasFields, AnnealFields,
  DepositionRecipe, vcd_stages, gas_backfill_stages,
}

pub data DepositionError : Type 0 where
  not_an_integer not_greater_than_zero negative not_a_real not_finite_positive :
      String → DepositionError
  all_or_none stage_required unknown_valve blank_gas : String → DepositionError
  requires_previous : String → DepositionError
  sequence_mismatch : DepositionError
  float_overflow not_divisible : String → DepositionError
  stack_blank stack_unknown : DepositionError

-- The least natural number that no float holds: half-way between the greatest float and 2 ^ 1024.
unfoldable pub float_limit : ℕ
float_limit = 2 ^ 1024 - 2 ^ 970

-- `float(value)` raises OverflowError.
unfoldable pub float_overflows : ℤ → Bool
float_overflows (pos n) = leb float_limit n
float_overflows (negsuc n) = leb float_limit (suc n)

-- `value / 100` raises OverflowError.
unfoldable pub quotient_overflows : ℤ → Bool
quotient_overflows (pos n) = leb (100 * float_limit) n
quotient_overflows (negsuc n) = leb (100 * float_limit) (suc n)

-- `pressure_pa / 100`, which `_canonicalize_vcd_pressures` keeps in the deprecated field of the stage. A
-- `bool` is divided as a number is.
unfoldable pub canonicalize_vcd_pressure : String → Value → Check DepositionError
canonicalize_vcd_pressure name (int n) = raise_if (quotient_overflows n) (float_overflow name)
canonicalize_vcd_pressure name (text s) = err (not_divisible name)
canonicalize_vcd_pressure name _ = ok tt

unfoldable pub canonicalize_vcd_pressures : DepositionRecipe → Check DepositionError
canonicalize_vcd_pressures r = do
  canonicalize_vcd_pressure "vcd_stage1" r.vcd_stage1.pressure_pa
  canonicalize_vcd_pressure "vcd_stage2" r.vcd_stage2.pressure_pa
  canonicalize_vcd_pressure "vcd_stage3" r.vcd_stage3.pressure_pa

-- Python's `bool` is an `int`, and is refused by name.
unfoldable pub require_positive_integer : String → Value → Check DepositionError
require_positive_integer name (int n) = raise_if (not (is_positive n)) (not_greater_than_zero name)
require_positive_integer name _ = err (not_an_integer name)

unfoldable pub require_non_negative_integer : String → Value → Check DepositionError
require_non_negative_integer name (int n) = raise_if (not (is_nonneg n)) (negative name)
require_non_negative_integer name _ = err (not_an_integer name)

unfoldable pub require_positive_real : String → Value → Check DepositionError
require_positive_real name (int n) = do
  raise_if (float_overflows n) (float_overflow name)
  raise_if (not (is_positive n)) (not_finite_positive name)
require_positive_real name (real d) =
    raise_if (not (is_positive d.unscaled)) (not_finite_positive name)
require_positive_real name _ = err (not_a_real name)

-- All or none of the values are supplied; returns which.
unfoldable pub validate_optional_stage : String → List Value → Result DepositionError Bool
validate_optional_stage stage values = do
  raise_if (any supplied values && not (all supplied values)) (all_or_none stage)
  ok (all supplied values)

unfoldable pub validate_optional_spin_stage : String → SpinFields → Result DepositionError Bool
unfolding validate_optional_stage require_positive_integer
validate_optional_spin_stage prefix s = do
  there ← validate_optional_stage prefix (s.rpm ∷ s.seconds ∷ s.acceleration_rpm_per_s ∷ [])
  if not there then ok false else do
    require_positive_integer prefix s.rpm
    require_positive_integer prefix s.seconds
    require_positive_integer prefix s.acceleration_rpm_per_s
    ok true

unfoldable pub validate_spin_parameters : DepositionRecipe → Check DepositionError
validate_spin_parameters r = do
  require_positive_integer "spin_cast" r.spin_cast.rpm
  require_positive_integer "spin_cast" r.spin_cast.seconds
  require_positive_integer "spin_cast" r.spin_cast.acceleration_rpm_per_s
  has_spread ← validate_optional_spin_stage "spin_spread" r.spin_spread
  has_thin ← validate_optional_spin_stage "spin_thin" r.spin_thin
  has_stage4 ← validate_optional_spin_stage "spin_stage4" r.spin_stage4
  raise_if (has_thin && not has_spread) (requires_previous "spin_thin")
  raise_if (has_stage4 && not has_thin) (requires_previous "spin_stage4")

-- `valve not in VCD_VALVES`
abbrev pub valve_known : Value → Bool
valve_known (text s) = is_vcd_valve s
valve_known _ = false

unfoldable pub validate_vcd_stage : String → Bool → VcdFields → Result DepositionError Bool
unfolding validate_optional_stage require_non_negative_integer is_vcd_valve
validate_vcd_stage stage required v = do
  there ← validate_optional_stage stage (v.valve ∷ v.pressure_pa ∷ v.seconds ∷ [])
  raise_if (required && not there) (stage_required stage)
  if not there then ok false else do
    raise_if (not (valve_known v.valve)) (unknown_valve stage)
    require_non_negative_integer stage v.pressure_pa
    require_non_negative_integer stage v.seconds
    ok true

-- `isinstance(gas, str) and gas.strip()`
abbrev pub gas_named : Value → Bool
gas_named (text s) = not (str_eq (strip s) "")
gas_named _ = false

unfoldable pub validate_gas_backfill_stage : String → Bool → GasFields → Result DepositionError Bool
unfolding validate_optional_stage require_non_negative_integer require_positive_real
validate_gas_backfill_stage stage allow_partial_hold g =
    if allow_partial_hold && not (supplied g.hold_seconds)
    then (do
      there ← validate_optional_stage stage (g.gas ∷ g.flow_sccm ∷ g.target_pressure_pa ∷ [])
      if not there then ok false else do
        raise_if (not (gas_named g.gas)) (blank_gas stage)
        require_positive_real stage g.flow_sccm
        require_non_negative_integer stage g.target_pressure_pa
        ok true)
    else (do
      there ←
          validate_optional_stage stage
            (g.gas ∷ g.flow_sccm ∷ g.target_pressure_pa ∷ g.hold_seconds ∷ [])
      if not there then ok false else do
        raise_if (not (gas_named g.gas)) (blank_gas stage)
        require_positive_real stage g.flow_sccm
        require_non_negative_integer stage g.target_pressure_pa
        require_non_negative_integer stage g.hold_seconds
        ok true)

-- `_adopt_legacy_hold_seconds_aliases`: a stage with a gas and no dwell time is a legacy one.
abbrev pub is_legacy_partial : GasFields → Bool
is_legacy_partial g = supplied g.gas && not (supplied g.hold_seconds)

-- The loops over the stages: a stage that is there requires the one before it.
unfoldable pub vcd_stage_loop : ℕ → Bool → List VcdFields → Check DepositionError
unfolding validate_vcd_stage
vcd_stage_loop index previous [] = ok tt
vcd_stage_loop index previous (v ∷ rest) = do
  there ← validate_vcd_stage (vcd_stage_name index) (index == 1) v
  raise_if (there && not previous) (requires_previous (vcd_stage_name index))
  vcd_stage_loop (suc index) there rest

unfoldable pub gas_stage_loop : ℕ → Bool → List GasFields → Check DepositionError
unfolding validate_gas_backfill_stage
gas_stage_loop index previous [] = ok tt
gas_stage_loop index previous (g ∷ rest) = do
  there ← validate_gas_backfill_stage (gas_backfill_stage_name index) (is_legacy_partial g) g
  raise_if (there && not previous) (requires_previous (gas_backfill_stage_name index))
  gas_stage_loop (suc index) there rest

-- `f(index) for index in range(1, 6) if <the first field of the stage> is not None`
unfoldable pub supplied_names : (ℕ → String) → ℕ → List Value → List String
supplied_names name index [] = []
supplied_names name index (v ∷ vs) =
    let rest = supplied_names name (suc index) vs in if supplied v then name index ∷ rest else rest

unfoldable pub expected_steps : DepositionRecipe → List String
expected_steps r =
    supplied_names vcd_stage_name 1 (map (λ v. v.valve) (vcd_stages r))
    ++ supplied_names gas_backfill_stage_name 1 (map (λ g. g.gas) (gas_backfill_stages r))

-- The sequence that the recipe keeps: the given one, or by default the evacuation stages and then
-- the gas backfill stages (their names sort by index, which has one digit).
unfoldable pub step_sequence : DepositionRecipe → List String
step_sequence r = elim r.vcd_step_sequence [ some sequence ↦ sequence | none ↦ expected_steps r ]

unfoldable pub validate_vcd_step_sequence : DepositionRecipe → Check DepositionError
validate_vcd_step_sequence r =
    raise_if (not (lists_each_once (step_sequence r) (to_set (expected_steps r)))) sequence_mismatch

unfoldable pub validate_anneal_stage2 : AnnealFields → Check DepositionError
unfolding validate_optional_stage require_positive_integer
validate_anneal_stage2 a = do
  there ← validate_optional_stage "anneal_stage2" (a.temperature_c ∷ a.seconds ∷ [])
  if not there then ok tt else do
    require_positive_integer "anneal_stage2" a.temperature_c
    require_positive_integer "anneal_stage2" a.seconds

-- DEVICE_STACKS
abbrev pub device_stacks : List String
device_stacks =
    "FTO/4PADCB/PVK/PEAI/PCBM/C60/SnO2/Ag" ∷ "FTO/NiOx/4PADCB/PVK/PEAI/PCBM/C60/SnO2/Ag"
    ∷ "FTO/NiOx/Me-4PACz/PVK/PEAI/PCBM/C60/SnO2/Ag"
    ∷ "ITO/NiOx/4PADCB/SiO2/PVK/PEAI/PCBM/C60/SnO2/Ag"
    ∷ "ITO/NiOx/Me-4PACz/SiO2/PVK/PEAI/PCBM/C60/SnO2/Ag" ∷ "FTO/4PADCB/PVK/PEAI/PCBM/C60/BCP/Ag"
    ∷ "FTO/NiOx/4PADCB/PVK/PEAI/PCBM/C60/BCP/Ag" ∷ "FTO/NiOx/Me-4PACz/PVK/PEAI/PCBM/C60/BCP/Ag"
    ∷ "ITO/NiOx/4PADCB/SiO2/PVK/PEAI/PCBM/C60/BCP/Ag"
    ∷ "ITO/NiOx/Me-4PACz/SiO2/PVK/PEAI/PCBM/C60/BCP/Ag" ∷ []

-- `_validate_context` of a recipe with no fabrication context and no device recipe.
unfoldable pub validate_context : Value → Check DepositionError
validate_context null = ok tt
validate_context (text s) = do
  raise_if (str_eq (strip s) "") stack_blank
  raise_if (not (any (str_eq s) device_stacks)) stack_unknown
validate_context _ = err stack_blank

-- `__post_init__`. It returns the recipe with its step sequence filled in; the pressures in mbar that it
-- fills in as well are never compared nor written.
unfoldable pub post_init : DepositionRecipe → Result DepositionError DepositionRecipe
post_init r = do
  canonicalize_vcd_pressures r
  validate_spin_parameters r
  vcd_stage_loop 1 true (vcd_stages r)
  gas_stage_loop 1 true (gas_backfill_stages r)
  validate_vcd_step_sequence r
  require_positive_integer "anneal_stage1" r.anneal_stage1.temperature_c
  require_positive_integer "anneal_stage1" r.anneal_stage1.seconds
  validate_anneal_stage2 r.anneal_stage2
  validate_context r.device_stack
  ok (record r { vcd_step_sequence = some (step_sequence r) })
