-- ===== src/Recipe/Errors.antt =====
-- What src/perovskite_bo/device_recipe.py raises, one constructor for each `raise`.
use perovskite_fabrication_w.Prelude.{ℕ, String, List}
use perovskite_fabrication_w.Recipe.Data.{LayerType, LayerRole}

pub data RecipeError : Type 0 where
  -- a declared bound of a field: `gt`, `ge`, `min_length`, `max_length`
  field_bound : String → RecipeError
  step_sequence_mismatch : RecipeError
  gas_backfill_incomplete : String → ℕ → RecipeError
  substrate_material_blank : RecipeError
  group_id_blank group_name_blank : RecipeError
  control_inherits control_has_adjustments control_has_layers control_has_process : RecipeError
  standalone_inherits standalone_has_adjustments : RecipeError
  standalone_has_layers standalone_has_process : RecipeError
  target_layers_empty target_without_layers : RecipeError
  layer_name_blank : RecipeError
  role_mismatch : LayerType → LayerRole → LayerRole → RecipeError
  duplicate_layer : LayerType → RecipeError
  transport_choice c60_missing : RecipeError
  missing_roles : List LayerRole → RecipeError
  perovskite_count electrode_count : RecipeError
  material_disorder : LayerRole → RecipeError
  role_disorder : RecipeError
  tandem_unsupported bandgap_unsupported tandem_type_set : RecipeError
  standalone_count control_count target_missing duplicate_group_id : RecipeError
  perovskite_process : RecipeError
  method_not_allowed solution_required solution_unused : LayerType → RecipeError
  solids_required stock_required solvents_required : LayerType → RecipeError
  solid_incomplete solvent_incomplete : LayerType → ℕ → RecipeError
  spin_step_incomplete anneal_step_incomplete : LayerType → ℕ → RecipeError
  gas2_pairing process_incomplete : LayerType → RecipeError
  group_process_required : String → RecipeError
  adjustment_parameter_blank adjustment_control_blank : String → ℕ → RecipeError
  adjustment_target_blank adjustment_unchanged : String → ℕ → RecipeError
  adjustment_repeated : String → RecipeError
  pvk_spin_incomplete vcd_valve_unknown vcd_stage_incomplete : String → ℕ → RecipeError
  pvk_anneal_incomplete : String → ℕ → RecipeError
  substrate_vendor_blank substrate_sku_blank substrate_size_missing : RecipeError
