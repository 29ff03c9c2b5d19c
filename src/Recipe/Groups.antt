-- ===== src/Recipe/Groups.antt =====
-- The experiment groups and the recipe of src/perovskite_bo/device_recipe.py: SubstrateRecipe,
-- GroupAdjustment, ExperimentalGroup and DeviceRecipe with their validators.
pub mod Kinds
pub mod Recipes
use perovskite_fabrication_w.Prelude.{
  ℕ, String, Option, none, some, List, [], ◌∷◌, Bool, true, false, not, ◌&&◌, ◌||◌, Result, ok, err,
  Check, ◌>>=◌, ◌>>◌, raise_if, for_each, if◌then◌else◌, ◌==◌, leb, str_eq, is_none, is_some,
  length, all, any, keep, map,
}
use perovskite_fabrication_w.Prelude.Int.{ℤ, pos}
use perovskite_fabrication_w.Prelude.Text.{strip}
use perovskite_fabrication_w.Prelude.Sets.{to_set}
use perovskite_fabrication_w.Recipe.Data.{
  DeviceLayer, SubstrateRecipe, GroupAdjustment, ExperimentalGroup, ExperimentGroupKind, control,
  target, standalone, kind_eq, Architecture,
}
use perovskite_fabrication_w.Recipe.Errors.{
  RecipeError, field_bound, substrate_material_blank, group_id_blank, group_name_blank,
  control_inherits, control_has_adjustments, control_has_layers, control_has_process,
  standalone_inherits, standalone_has_adjustments, standalone_has_layers, standalone_has_process,
  target_layers_empty, target_without_layers, tandem_unsupported, bandgap_unsupported,
  tandem_type_set, standalone_count, control_count, target_missing, duplicate_group_id,
}
use perovskite_fabrication_w.Recipe.Layer.{
  RawLayer, gt_zero, gt_zero_float, length_within, traverse, traverse_option, validate_layer,
}
use perovskite_fabrication_w.Recipe.Process.{RawProcess, validate_perovskite_process}
use perovskite_fabrication_w.Recipe.Stack.{
  is_empty, validate_layer_completeness, validate_layer_sequence,
}
use Prim.Native.String.{len}

unfoldable pub validate_substrate : SubstrateRecipe → Result RecipeError SubstrateRecipe
validate_substrate s = do
  raise_if (not (leb 1 (len s.material) && leb (len s.material) 160)) (field_bound "material")
  raise_if (not (gt_zero_float s.width_mm && gt_zero_float s.length_mm)) (field_bound "substrate")
  let stripped = record s {
    material = strip s.material;
    vendor = strip s.vendor;
    type_number = strip s.type_number;
  }
  raise_if (str_eq stripped.material "") substrate_material_blank
  ok stripped

abbrev pub strip_adjustment : GroupAdjustment → GroupAdjustment
strip_adjustment a = record {
  parameter = strip a.parameter;
  parameter_label = strip a.parameter_label;
  control_value = strip a.control_value;
  target_value = strip a.target_value;
}

pub record RawGroup : Type 0 where
  pub group_id : String
  pub kind : ExperimentGroupKind
  pub name : String
  pub change_from_control : String
  pub inherits_control : Bool
  pub adjustments : List GroupAdjustment
  pub layers : Option (List RawLayer)
  pub deposition_process : Option RawProcess
  pub substrate_count : Option ℤ

-- `layers is not None and not layers`
abbrev pub is_empty_list {ℓ} : {A : Type ℓ} → Option (List A) → Bool
is_empty_list none = false
is_empty_list (some xs) = is_empty xs

abbrev pub target_layers_check : Option (List DeviceLayer) → Check RecipeError
target_layers_check none = ok tt
target_layers_check (some layers) = do
  raise_if (is_empty layers) target_layers_empty
  validate_layer_completeness layers

-- `validate_group_text`
unfoldable pub validate_group_text : ExperimentalGroup → Check RecipeError
validate_group_text g = do
  let is_control = kind_eq g.kind control
  let is_standalone = kind_eq g.kind standalone
  let is_target = kind_eq g.kind target
  raise_if (str_eq g.group_id "") group_id_blank
  raise_if (str_eq g.name "") group_name_blank
  raise_if (is_control && g.inherits_control) control_inherits
  raise_if (is_control && not (is_empty g.adjustments)) control_has_adjustments
  raise_if (is_control && is_some g.layers) control_has_layers
  raise_if (is_control && is_some g.deposition_process) control_has_process
  raise_if (is_standalone && g.inherits_control) standalone_inherits
  raise_if (is_standalone && not (is_empty g.adjustments)) standalone_has_adjustments
  raise_if (is_standalone && is_some g.layers) standalone_has_layers
  raise_if (is_standalone && is_some g.deposition_process) standalone_has_process
  if is_target then target_layers_check g.layers else ok tt
  raise_if (is_target && not g.inherits_control && is_none g.layers) target_without_layers

-- ExperimentalGroup.model_validate
unfoldable pub validate_group : RawGroup → Result RecipeError ExperimentalGroup
unfolding validate_group_text
validate_group raw = do
  raise_if (not (length_within 0 20 raw.adjustments)) (field_bound "adjustments")
  layers ← traverse_option (traverse validate_layer) raw.layers
  process ← traverse_option validate_perovskite_process raw.deposition_process
  raise_if (not (gt_zero raw.substrate_count)) (field_bound "substrate_count")
  let group : ExperimentalGroup = record {
    group_id = strip raw.group_id;
    kind = raw.kind;
    name = strip raw.name;
    change_from_control = strip raw.change_from_control;
    inherits_control = raw.inherits_control;
    adjustments = map strip_adjustment raw.adjustments;
    layers = layers;
    deposition_process = process;
    substrate_count = raw.substrate_count;
  }
  validate_group_text group
  ok group

pub data SetupMode : Type 0 where
  baseline blank : SetupMode

pub data JunctionType : Type 0 where
  single_junction tandem : JunctionType

pub data Bandgap : Type 0 where
  wide_bandgap normal_bandgap narrow_bandgap : Bandgap

pub data TandemType : Type 0 where
  all_perovskite perovskite_silicon perovskite_cigs : TandemType

pub record DeviceRecipe : Type 0 where
  pub setup_mode : SetupMode
  pub junction_type : JunctionType
  pub perovskite_bandgap : Option Bandgap
  pub tandem_type : Option TandemType
  pub architecture : Architecture
  pub experimental_groups : List ExperimentalGroup
  pub substrate : SubstrateRecipe
  pub layers : List DeviceLayer

abbrev pub is_normal_bandgap : Option Bandgap → Bool
is_normal_bandgap (some normal_bandgap) = true
is_normal_bandgap _ = false

abbrev pub is_single_junction : JunctionType → Bool
is_single_junction single_junction = true
is_single_junction tandem = false

abbrev pub groups_of : ExperimentGroupKind → List ExperimentalGroup → List ExperimentalGroup
groups_of kind = keep (λ g. kind_eq g.kind kind)

-- The counts of control, target and standalone groups.
unfoldable pub validate_group_kinds : List ExperimentalGroup → Check RecipeError
validate_group_kinds groups =
    if not (is_empty (groups_of standalone groups))
    then raise_if (not (length (groups_of standalone groups) == 1) || not (length groups == 1))
        standalone_count
    else raise_if (not (length (groups_of control groups) == 1)) control_count
      >> raise_if (is_empty (groups_of target groups)) target_missing

-- A target group that carries its own layers has them in the order of the recipe's architecture.
abbrev pub target_sequence_check : Architecture → ExperimentalGroup → Check RecipeError
target_sequence_check architecture g = elim g.layers [
  | none ↦ ok tt
  | some layers ↦
      if kind_eq g.kind target then validate_layer_sequence layers architecture else ok tt
]

-- The bound on the number of layers, then `DeviceRecipe.validate_layer_sequence`.
unfoldable pub validate_recipe : DeviceRecipe → Check RecipeError
unfolding validate_group_kinds
validate_recipe r = do
  raise_if (not (length_within 5 20 r.layers)) (field_bound "layers")
  raise_if (not (is_single_junction r.junction_type)) tandem_unsupported
  raise_if (not (is_normal_bandgap r.perovskite_bandgap)) bandgap_unsupported
  raise_if (is_some r.tandem_type) tandem_type_set
  validate_group_kinds r.experimental_groups
  let group_ids = map (λ g. g.group_id) r.experimental_groups
  raise_if (not (length group_ids == length (to_set group_ids))) duplicate_group_id
  validate_layer_sequence r.layers r.architecture
  for_each r.experimental_groups (target_sequence_check r.architecture)
