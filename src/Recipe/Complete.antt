-- ===== src/Recipe/Complete.antt =====
-- The completeness checks of src/perovskite_bo/device_recipe.py: solutions, processes, target groups,
-- and `validate_device_recipe`, which runs them on a validated recipe.
pub mod Sound
pub mod Adjustments
use perovskite_fabrication_w.Prelude.{
  ℕ, suc, String, Option, none, some, List, [], ◌∷◌, Bool, true, false, not, ◌&&◌, ◌||◌, Check, ok,
  err, ◌>>◌, raise_if, for_each, if◌then◌else◌, str_eq, is_none, is_some, any, enumerate,
}
use perovskite_fabrication_w.Prelude.Sets.{contains}
use perovskite_fabrication_w.Recipe.Data.{
  LayerType, SolidIngredient, SolventIngredient, SolutionRecipe, weighed_solids, diluted_dispersion,
  FormulationType, DeviceLayer, LayerProcess, spin, sputter, evaporate, deposit, GroupAdjustment,
  ExperimentalGroup, target, kind_eq, PerovskiteDepositionProcess, SubstrateRecipe,
}
use perovskite_fabrication_w.Recipe.Errors.{
  RecipeError, solids_required, stock_required, solvents_required, solid_incomplete,
  solvent_incomplete, spin_step_incomplete, anneal_step_incomplete, gas2_pairing,
  process_incomplete, group_process_required, adjustment_parameter_blank, adjustment_control_blank,
  adjustment_target_blank, adjustment_unchanged, adjustment_repeated, substrate_vendor_blank,
  substrate_sku_blank, substrate_size_missing,
}
use perovskite_fabrication_w.Recipe.Process
use perovskite_fabrication_w.Recipe.Process.{require_complete_deposition_process}
use perovskite_fabrication_w.Recipe.Stack.{is_empty}
use perovskite_fabrication_w.Recipe.Groups.{DeviceRecipe}

abbrev pub is_weighed : FormulationType → Bool
is_weighed weighed_solids = true
is_weighed diluted_dispersion = false

abbrev pub solid_missing : SolidIngredient → Bool
solid_missing s = str_eq s.chemical "" || is_none s.weight_mg

abbrev pub solvent_missing : SolventIngredient → Bool
solvent_missing s = str_eq s.solvent "" || is_none s.volume_ml

-- The body of `_require_complete_solution`, for a solution that is there.
unfoldable pub complete_solution : LayerType → SolutionRecipe → Check RecipeError
complete_solution t s = do
  raise_if (is_weighed s.formulation_type && is_empty s.solids) (solids_required t)
  raise_if
      (not (is_weighed s.formulation_type)
        && (str_eq s.stock_dispersion "" || is_none s.stock_volume_ml))
      (stock_required t)
  raise_if (is_empty s.solvents) (solvents_required t)
  for_each (enumerate 1 s.solids) (λ e. raise_if (solid_missing e.1) (solid_incomplete t e.0))
  for_each (enumerate 1 s.solvents) (λ e. raise_if (solvent_missing e.1) (solvent_incomplete t e.0))

unfoldable pub require_complete_solution : DeviceLayer → Check RecipeError
unfolding complete_solution
require_complete_solution layer = elim layer.solution [
  | none ↦ ok tt
  | some s ↦ complete_solution layer.layer_type s
]

-- The body of `_require_complete_process`, by the class of the process.
unfoldable pub complete_process : LayerType → LayerProcess → Check RecipeError
complete_process t (spin p) = do
  for_each (enumerate 1 p.spin_steps)
      (λ e. raise_if (Process.spin_step_incomplete e.1) (spin_step_incomplete t e.0))
  for_each (enumerate 1 p.anneal_steps)
      (λ e. raise_if (Process.anneal_step_incomplete e.1) (anneal_step_incomplete t e.0))
complete_process t (sputter p) = do
  raise_if
      ((not (str_eq p.gas2 "") && is_none p.gas2_flow_sccm)
        || (str_eq p.gas2 "" && is_some p.gas2_flow_sccm))
      (gas2_pairing t)
  raise_if
      (is_none p.power_w
        || is_none p.pressure_pa
        || str_eq p.gas1 ""
        || is_none p.gas1_flow_sccm
        || is_none p.duration_seconds)
      (process_incomplete t)
complete_process t (evaporate p) =
    raise_if (is_none p.thickness_nm || is_none p.rate_angstrom_per_s) (process_incomplete t)
complete_process t (deposit p) =
    raise_if (is_none p.thickness_nm || is_none p.substrate_temperature_c || is_none p.cycles)
      (process_incomplete t)

unfoldable pub require_complete_process : DeviceLayer → Check RecipeError
unfolding complete_process
require_complete_process layer = elim layer.process [
  | none ↦ ok tt
  | some p ↦ complete_process layer.layer_type p
]

abbrev pub complete_layer : DeviceLayer → Check RecipeError
complete_layer layer = require_complete_solution layer >> require_complete_process layer

-- The tests of one adjustment, in the order of the code.
unfoldable pub complete_adjustment : String → List String → ℕ → GroupAdjustment → Check RecipeError
complete_adjustment name seen index a = do
  raise_if (str_eq a.parameter "") (adjustment_parameter_blank name index)
  raise_if (str_eq a.control_value "") (adjustment_control_blank name index)
  raise_if (str_eq a.target_value "") (adjustment_target_blank name index)
  raise_if (str_eq a.target_value a.control_value) (adjustment_unchanged name index)
  raise_if (contains seen a.parameter) (adjustment_repeated name)

-- The loop over a group's adjustments, with the set `seen_parameters`.
pub complete_adjustments : String → List String → ℕ → List GroupAdjustment → Check RecipeError
unfolding complete_adjustment
complete_adjustments name seen index [] = ok tt
complete_adjustments name seen index (a ∷ rest) =
    complete_adjustment name seen index a
    >> complete_adjustments name (a.parameter ∷ seen) (suc index) rest

abbrev pub optional_process : String → Option PerovskiteDepositionProcess → Check RecipeError
optional_process name none = ok tt
optional_process name (some p) = require_complete_deposition_process name p

abbrev pub required_process : String → Option PerovskiteDepositionProcess → Check RecipeError
required_process name none = err (group_process_required name)
required_process name (some p) = require_complete_deposition_process name p

-- One round of `_require_complete_experimental_groups`, for a target group.
unfoldable pub complete_target : ExperimentalGroup → Check RecipeError
unfolding complete_adjustments
complete_target g = elim g.layers [
  | some layers ↦ for_each layers complete_layer >> required_process g.name g.deposition_process
  | none ↦
      optional_process g.name g.deposition_process >> complete_adjustments g.name [] 1 g.adjustments
]

unfoldable pub require_complete_experimental_groups : DeviceRecipe → Check RecipeError
unfolding complete_target
require_complete_experimental_groups r =
    for_each r.experimental_groups (λ g. if kind_eq g.kind target then complete_target g else ok tt)

unfoldable pub complete_substrate : SubstrateRecipe → Check RecipeError
complete_substrate s = do
  raise_if (str_eq s.vendor "") substrate_vendor_blank
  raise_if (str_eq s.type_number "") substrate_sku_blank
  raise_if (is_none s.width_mm || is_none s.length_mm) substrate_size_missing

-- What `validate_device_recipe` asks of a normalized recipe.
unfoldable pub complete_recipe : DeviceRecipe → Check RecipeError
unfolding complete_substrate require_complete_experimental_groups
complete_recipe r = do
  complete_substrate r.substrate
  require_complete_experimental_groups r
  for_each r.layers complete_layer
