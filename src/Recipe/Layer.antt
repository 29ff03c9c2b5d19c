-- ===== src/Recipe/Layer.antt =====
-- The field and model validators of a layer and its parts (src/perovskite_bo/device_recipe.py,
-- SolidIngredient to DeviceLayer). A validator returns the model that it builds, or what it raises.
use perovskite_fabrication_w.Prelude.{
  ℕ, String, Option, none, some, List, [], ◌∷◌, Bool, true, not, ◌&&◌, Result, ok, ◌>>=◌, ◌>>◌,
  raise_if, if◌then◌else◌, leb, length, str_eq, is_none, is_some, all,
}
use perovskite_fabrication_w.Prelude.Int.{ℤ, Decimal, is_positive, is_nonneg}
use perovskite_fabrication_w.Prelude.Text.{strip}
use perovskite_fabrication_w.Recipe.Data.{
  LayerType, niox, sam, buried_interface, sio2_np, passivation, peai, edadi, pcbm, c60, bcp, sno2,
  ag, LayerRole, htl, buried_interface_modifier, top_passivation, etl, top_electrode,
  SolidIngredient, SolventIngredient, SolutionRecipe, SpinStep, AnnealStep, LayerProcess, spin,
  sputter, evaporate, deposit, DeviceLayer, role_eq,
}
use perovskite_fabrication_w.Recipe.Errors.{
  RecipeError, field_bound, layer_name_blank, role_mismatch,
}

-- `Field(default=None, gt=0)`, `Field(default=None, ge=0)`
abbrev pub gt_zero : Option ℤ → Bool
gt_zero none = true
gt_zero (some n) = is_positive n

abbrev pub ge_zero : Option ℤ → Bool
ge_zero none = true
ge_zero (some n) = is_nonneg n

abbrev pub gt_zero_float : Option Decimal → Bool
gt_zero_float none = true
gt_zero_float (some d) = is_positive d.unscaled

-- `Field(min_length=lo, max_length=hi)`
abbrev pub length_within {ℓ} : {A : Type ℓ} → ℕ → ℕ → List A → Bool
length_within lo hi xs = leb lo (length xs) && leb (length xs) hi

abbrev pub max_solid_chemicals : ℕ
max_solid_chemicals = 20

abbrev pub max_solvents : ℕ
max_solvents = 10

-- Field validators run for each item; the first that raises ends the validation.
abbrev pub traverse {ℓ κ μ} :
    {E : Type ℓ} {A : Type κ} {B : Type μ} → (A → Result E B) → List A → Result E (List B)
traverse f [] = ok []
traverse f (x ∷ xs) = do y ← f x; ys ← traverse f xs; ok (y ∷ ys)

abbrev pub traverse_option {ℓ κ μ} :
    {E : Type ℓ} {A : Type κ} {B : Type μ} → (A → Result E B) → Option A → Result E (Option B)
traverse_option f none = ok none
traverse_option f (some x) = do y ← f x; ok (some y)

unfoldable pub validate_solid : SolidIngredient → Result RecipeError SolidIngredient
validate_solid s = do
  raise_if (not (gt_zero_float s.weight_mg)) (field_bound "weight_mg")
  ok (record s { chemical = strip s.chemical })

unfoldable pub validate_solvent : SolventIngredient → Result RecipeError SolventIngredient
validate_solvent s = do
  raise_if (not (gt_zero_float s.volume_ml)) (field_bound "volume_ml")
  ok (record s { solvent = strip s.solvent })

unfoldable pub validate_solution : SolutionRecipe → Result RecipeError SolutionRecipe
validate_solution s = do
  raise_if (not (gt_zero_float s.stock_volume_ml)) (field_bound "stock_volume_ml")
  raise_if (not (length_within 0 max_solid_chemicals s.solids)) (field_bound "solids")
  solids ← traverse validate_solid s.solids
  raise_if (not (length_within 0 max_solvents s.solvents)) (field_bound "solvents")
  solvents ← traverse validate_solvent s.solvents
  ok (record s {
    stock_dispersion = strip s.stock_dispersion;
    solids = solids;
    solvents = solvents;
  })

unfoldable pub spin_step_in_bounds : SpinStep → Bool
spin_step_in_bounds s = gt_zero s.rpm && gt_zero s.seconds && gt_zero s.acceleration_rpm_per_s

unfoldable pub anneal_step_in_bounds : AnnealStep → Bool
anneal_step_in_bounds s = gt_zero s.temperature_c && gt_zero s.seconds

unfoldable pub validate_process : LayerProcess → Result RecipeError LayerProcess
unfolding spin_step_in_bounds anneal_step_in_bounds
validate_process (spin p) = do
  raise_if (not (length_within 1 3 p.spin_steps && all spin_step_in_bounds p.spin_steps))
      (field_bound "spin_steps")
  raise_if (not (length_within 0 2 p.anneal_steps && all anneal_step_in_bounds p.anneal_steps))
      (field_bound "anneal_steps")
  ok (spin p)
validate_process (sputter p) = do
  raise_if
      (not (
        gt_zero_float p.power_w
        && gt_zero_float p.pressure_pa
        && gt_zero_float p.gas1_flow_sccm
        && gt_zero_float p.gas2_flow_sccm
        && gt_zero p.duration_seconds))
      (field_bound "sputtering")
  ok (sputter (record p { gas1 = strip p.gas1; gas2 = strip p.gas2 }))
validate_process (evaporate p) = do
  raise_if (not (gt_zero_float p.thickness_nm && gt_zero_float p.rate_angstrom_per_s))
      (field_bound "thermal_evaporation")
  ok (evaporate p)
validate_process (deposit p) = do
  raise_if
      (not (
        gt_zero_float p.thickness_nm
        && gt_zero_float p.substrate_temperature_c
        && gt_zero p.cycles))
      (field_bound "ald")
  ok (deposit p)

-- LAYER_ROLE_BY_TYPE
abbrev pub layer_role_by_type : LayerType → LayerRole
layer_role_by_type niox = htl
layer_role_by_type sam = htl
layer_role_by_type buried_interface = buried_interface_modifier
layer_role_by_type sio2_np = buried_interface_modifier
layer_role_by_type LayerType.perovskite = LayerRole.perovskite
layer_role_by_type passivation = top_passivation
layer_role_by_type peai = top_passivation
layer_role_by_type edadi = top_passivation
layer_role_by_type pcbm = etl
layer_role_by_type c60 = etl
layer_role_by_type bcp = etl
layer_role_by_type sno2 = etl
layer_role_by_type ag = top_electrode

-- What a caller supplies for a layer: the role may be absent, and the old key `reference_id` may
-- stand in place of `preset_id`. The outer `none` is a key that is not there.
pub record RawLayer : Type 0 where
  pub layer_type : LayerType
  pub role : Option LayerRole
  pub name : String
  pub reference_id : Option (Option String)
  pub preset_id : Option (Option String)
  pub solution : Option SolutionRecipe
  pub process : Option LayerProcess

-- `if "reference_id" in values and "preset_id" not in values`. A `reference_id` that stays is an
-- extra key, which the models forbid.
unfoldable pub normalize_legacy_reference_id : RawLayer → RawLayer
normalize_legacy_reference_id v =
    if is_some v.reference_id && is_none v.preset_id
    then record v { preset_id = v.reference_id; reference_id = none }
    else v

pub given_or_none {ℓ} : {A : Type ℓ} → Option (Option A) → Option A
given_or_none none = none
given_or_none (some v) = v

unfoldable pub strip_layer_name : String → Result RecipeError String
strip_layer_name value = do raise_if (str_eq (strip value) "") layer_name_blank; ok (strip value)

unfoldable pub validate_role : LayerType → Option LayerRole → Result RecipeError LayerRole
validate_role t none = ok (layer_role_by_type t)
validate_role t (some role) = do
  raise_if (not (role_eq role (layer_role_by_type t))) (role_mismatch t (layer_role_by_type t) role)
  ok role

-- DeviceLayer.model_validate
unfoldable pub validate_layer : RawLayer → Result RecipeError DeviceLayer
unfolding given_or_none
validate_layer raw = do
  let v = normalize_legacy_reference_id raw
  raise_if (is_some v.reference_id) (field_bound "reference_id")
  name ← strip_layer_name v.name
  solution ← traverse_option validate_solution v.solution
  process ← traverse_option validate_process v.process
  role ← validate_role v.layer_type v.role
  ok (record {
    layer_type = v.layer_type;
    role = role;
    name = name;
    preset_id = given_or_none v.preset_id;
    solution = solution;
    process = process;
  })
