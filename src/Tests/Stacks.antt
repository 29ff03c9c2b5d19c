-- ===== src/Tests/Stacks.antt =====
-- The stack checks on a sample inverted device, and their theorems applied to it.
use perovskite_fabrication_w.Prelude.Sets.{to_set}
use perovskite_fabrication_w.Prelude.{
  ◌≡◌, ◌≢◌, ◌↔◌, List, [], ◌∷◌, ◌++◌, refl, ok, err, All, count, some, none, true,
}
use perovskite_fabrication_w.Prelude.Sort.{IsCutAt}
use perovskite_fabrication_w.Recipe.Data.{htl, pin, nip, ag, DeviceLayer, sam}
use perovskite_fabrication_w.Recipe.Errors.{role_disorder}
use perovskite_fabrication_w.Recipe.Layer.{
  RawLayer, traverse, validate_layer, normalize_legacy_reference_id, strip_layer_name,
  validate_process, validate_role,
}
use perovskite_fabrication_w.Prelude.Text.{strip}
use perovskite_fabrication_w.Recipe.Stack.{validate_layer_sequence, role_index, has_type}
use perovskite_fabrication_w.Recipe.Stack.Spec.{HasTypeRole, IsStack}
use perovskite_fabrication_w.Recipe.Stack.Accepts.{validate_layer_sequence_iff}
use perovskite_fabrication_w.Recipe.Stack.Shape.{perovskite_cut, electrode_last, pin-nip_exclusive}
use perovskite_fabrication_w.Recipe.Stack.Typed.{validate_layers-HasTypeRole}
use perovskite_fabrication_w.Recipe.Groups.{
  validate_group_kinds, DeviceRecipe, SetupMode, single_junction, normal_bandgap, validate_recipe,
}
use perovskite_fabrication_w.Recipe.Groups.Recipes.{IsRecipe, validate_recipe-IsRecipe}
use perovskite_fabrication_w.Recipe.Groups.Kinds.{IsPlan, validate_group_kinds_iff}
use perovskite_fabrication_w.Recipe.Complete.{complete_solution, complete_adjustments}
use perovskite_fabrication_w.Recipe.Complete.Sound.{IsPreparable, complete_solution_iff}
use perovskite_fabrication_w.Recipe.Complete.Adjustments.{
  IsAdjustment, AreDistinct, complete_adjustments_iff,
}
use perovskite_fabrication_w.Tests.Samples.{
  pin_stack, lead_iodide_ink, control_and_target, hotter, coated, coated_layer,
}

pin_stack_typed : All HasTypeRole pin_stack
pin_stack_typed = (refl, (refl, (refl, (refl, (refl, (refl, (refl, tt)))))))

pin_stack_accepted : validate_layer_sequence pin_stack pin ≡ ok tt
unfolding validate_layer_sequence
pin_stack_accepted = refl

nip_refused : validate_layer_sequence pin_stack nip ≡ err role_disorder
unfolding validate_layer_sequence
nip_refused = refl

validate_layer_sequence_iff_example :
    (validate_layer_sequence pin_stack pin ≡ ok tt) ↔ IsStack pin pin_stack
validate_layer_sequence_iff_example = validate_layer_sequence_iff pin pin_stack pin_stack_typed

perovskite_cut_example : IsCutAt (λ (l : DeviceLayer). role_index pin l.role) 2 pin_stack
perovskite_cut_example = perovskite_cut pin pin_stack pin_stack_typed pin_stack_accepted

electrode_last_example :
    (below : List DeviceLayer) × (top : DeviceLayer) × (pin_stack ≡ below ++ (top ∷ []))
    × (has_type ag top ≡ true)
    × (count (has_type ag) below ≡ 0)
electrode_last_example = electrode_last pin pin_stack pin_stack_typed pin_stack_accepted

pin-nip_exclusive_example : validate_layer_sequence pin_stack nip ≢ ok tt
pin-nip_exclusive_example = pin-nip_exclusive pin_stack pin_stack_typed pin_stack_accepted

-- A layer as it was stored before `preset_id`, with no role.
abbrev raw_sam : RawLayer
raw_sam = record {
  layer_type = sam;
  role = none;
  name = " layer ";
  reference_id = some (some "ref-1");
  preset_id = none;
  solution = none;
  process = some coated;
}

abbrev stored_sam : DeviceLayer
stored_sam = record (coated_layer sam) { preset_id = some "ref-1"; solution = none }

-- The same layer with its role.
abbrev raw_htl : RawLayer
raw_htl = record raw_sam { role = some htl }

raws_accepted : traverse validate_layer (raw_sam ∷ raw_htl ∷ []) ≡ ok (stored_sam ∷ stored_sam ∷ [])
unfolding validate_layer normalize_legacy_reference_id strip_layer_name strip validate_process
    validate_role
raws_accepted = refl

validate_layers-HasTypeRole_example : All HasTypeRole (stored_sam ∷ stored_sam ∷ [])
validate_layers-HasTypeRole_example =
    validate_layers-HasTypeRole (raw_sam ∷ raw_htl ∷ []) (stored_sam ∷ stored_sam ∷ [])
      raws_accepted

validate_group_kinds_iff_example :
    (validate_group_kinds control_and_target ≡ ok tt) ↔ IsPlan control_and_target
validate_group_kinds_iff_example = validate_group_kinds_iff control_and_target

complete_solution_iff_example :
    (complete_solution sam lead_iodide_ink ≡ ok tt) ↔ IsPreparable lead_iodide_ink
complete_solution_iff_example = complete_solution_iff sam lead_iodide_ink

complete_adjustments_iff_example :
    (complete_adjustments "Target 1" [] 1 (hotter ∷ []) ≡ ok tt)
    ↔ (All IsAdjustment (hotter ∷ []) × AreDistinct (hotter ∷ []))
complete_adjustments_iff_example = complete_adjustments_iff "Target 1" (hotter ∷ [])

abbrev pin_recipe : DeviceRecipe
pin_recipe = record {
  setup_mode = SetupMode.blank;
  junction_type = single_junction;
  perovskite_bandgap = some normal_bandgap;
  tandem_type = none;
  architecture = pin;
  experimental_groups = control_and_target;
  substrate = record {
    material = "glass/ITO";
    vendor = "";
    type_number = "";
    width_mm = none;
    length_mm = none;
  };
  layers = pin_stack;
}

pin_recipe_accepted : validate_recipe pin_recipe ≡ ok tt
unfolding validate_recipe to_set validate_layer_sequence
pin_recipe_accepted = refl

validate_recipe-IsRecipe_example : IsRecipe pin_recipe
validate_recipe-IsRecipe_example =
    validate_recipe-IsRecipe pin_recipe pin_stack_typed (tt, (tt, tt)) pin_recipe_accepted
