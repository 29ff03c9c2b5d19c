-- ===== src/Recipe/Stack.antt =====
-- `_validate_layer_method`, `_validate_layer_completeness` and `validate_layer_sequence` of
-- src/perovskite_bo/device_recipe.py. The proofs are in the modules below.
pub mod Spec
pub mod Methods
mod Order
mod Materials
mod Counts
pub mod Accepts
pub mod Shape
pub mod Typed
use perovskite_fabrication_w.Prelude.{
  ℕ, suc, ◌+◌, Option, none, some, List, [], ◌∷◌, Bool, true, false, not, ◌&&◌, ◌||◌, Check, ok,
  ◌>>◌, raise_if, for_each, if◌then◌else◌, ltb, ◌==◌, length, map, is_none, is_some, any, count,
  keep,
}
use perovskite_fabrication_w.Prelude.Sort.{sorted, list_eq}
use perovskite_fabrication_w.Recipe.Data.{
  LayerType, niox, sam, buried_interface, sio2_np, passivation, peai, edadi, pcbm, c60, bcp, sno2,
  ag, LayerRole, htl, buried_interface_modifier, top_passivation, etl, top_electrode, Architecture,
  pin, nip, Method, spin_coating, sputtering, thermal_evaporation, ald, DeviceLayer, method_of,
  type_eq, role_eq,
}
use perovskite_fabrication_w.Recipe.Errors.{
  RecipeError, duplicate_layer, transport_choice, c60_missing, missing_roles, perovskite_count,
  electrode_count, material_disorder, role_disorder, perovskite_process, method_not_allowed,
  solution_required, solution_unused,
}

-- The table `allowed_methods`, as a test: the deposition methods of each layer type.
unfoldable pub method_allowed : LayerType → Method → Bool
method_allowed niox spin_coating = true
method_allowed niox sputtering = true
method_allowed sam spin_coating = true
method_allowed buried_interface spin_coating = true
method_allowed sio2_np spin_coating = true
method_allowed passivation spin_coating = true
method_allowed peai spin_coating = true
method_allowed edadi spin_coating = true
method_allowed pcbm spin_coating = true
method_allowed c60 thermal_evaporation = true
method_allowed bcp thermal_evaporation = true
method_allowed sno2 ald = true
method_allowed ag thermal_evaporation = true
method_allowed _ _ = false

-- `process_method not in allowed_methods[layer_type]`, where `None` is in no set.
abbrev pub option_method_allowed : LayerType → Option Method → Bool
option_method_allowed t none = false
option_method_allowed t (some m) = method_allowed t m

abbrev pub is_spin_coating : Option Method → Bool
is_spin_coating (some spin_coating) = true
is_spin_coating _ = false

abbrev pub process_method : DeviceLayer → Option Method
process_method layer = elim layer.process [ none ↦ none | some p ↦ some (method_of p) ]

abbrev pub needs_solution : DeviceLayer → Bool
needs_solution layer =
    is_spin_coating (process_method layer) || type_eq layer.layer_type LayerType.perovskite

unfoldable pub validate_layer_method : DeviceLayer → Check RecipeError
unfolding method_allowed
validate_layer_method layer = do
  if type_eq layer.layer_type LayerType.perovskite
      then raise_if (is_some layer.process) perovskite_process
      else raise_if (not (option_method_allowed layer.layer_type (process_method layer)))
          (method_not_allowed layer.layer_type)
  raise_if (needs_solution layer && is_none layer.solution) (solution_required layer.layer_type)
  raise_if (not (needs_solution layer) && is_some layer.solution) (solution_unused layer.layer_type)

abbrev pub has_type : LayerType → DeviceLayer → Bool
has_type t layer = type_eq layer.layer_type t

abbrev pub has_role : LayerRole → DeviceLayer → Bool
has_role r layer = role_eq layer.role r

abbrev pub unique_types : List LayerType
unique_types = LayerType.perovskite ∷ c60 ∷ bcp ∷ sno2 ∷ ag ∷ []

abbrev pub required_roles : List LayerRole
required_roles = htl ∷ LayerRole.perovskite ∷ etl ∷ top_electrode ∷ []

-- `[name for name in ("bcp", "sno2") if name in layer_types]`
abbrev pub transport_layers : List DeviceLayer → List LayerType
transport_layers layers = keep (λ t. any (has_type t) layers) (bcp ∷ sno2 ∷ [])

-- `transport_layers[0]`, of a list that the check before it has found to have one item
abbrev pub head_or {ℓ} : {A : Type ℓ} → A → List A → A
head_or d [] = d
head_or d (x ∷ xs) = x

abbrev pub material_order : LayerType → List (LayerRole × List LayerType)
material_order transport =
    (htl, niox ∷ sam ∷ [])
    ∷ (buried_interface_modifier, buried_interface ∷ sio2_np ∷ [])
    ∷ (LayerRole.perovskite, LayerType.perovskite ∷ [])
    ∷ (top_passivation, passivation ∷ peai ∷ edadi ∷ [])
    ∷ (etl, pcbm ∷ c60 ∷ transport ∷ [])
    ∷ (top_electrode, ag ∷ [])
    ∷ []

-- `positions.get(layer_type)`: the place of a type in the order of its role
pub position : LayerType → ℕ → List LayerType → Option ℕ
position t i [] = none
position t i (u ∷ us) = let rest = position t (suc i) us in if type_eq t u then some i else rest

pub actual_positions : LayerRole → List LayerType → List DeviceLayer → List ℕ
unfolding position
actual_positions role order [] = []
actual_positions role order (layer ∷ layers) =
    let rest = actual_positions role order layers in
    if has_role role layer
    then elim (position layer.layer_type 0 order) [ none ↦ rest | some i ↦ i ∷ rest ]
    else rest

unfoldable pub validate_material_order :
    List DeviceLayer → LayerRole × List LayerType → Check RecipeError
unfolding actual_positions sorted
validate_material_order layers (role, order) =
    let positions = actual_positions role order layers in
    raise_if (not (list_eq positions (sorted positions))) (material_disorder role)

abbrev pub is_empty {ℓ} : {A : Type ℓ} → List A → Bool
is_empty [] = true
is_empty (x ∷ xs) = false

unfoldable pub validate_layer_completeness : List DeviceLayer → Check RecipeError
unfolding validate_material_order validate_layer_method
validate_layer_completeness layers = do
  for_each unique_types (λ t. raise_if (ltb 1 (count (has_type t) layers)) (duplicate_layer t))
  raise_if (not (length (transport_layers layers) == 1)) transport_choice
  raise_if (not (any (has_type c60) layers)) c60_missing
  let missing = keep (λ r. not (any (has_role r) layers)) required_roles
  raise_if (not (is_empty missing)) (missing_roles missing)
  raise_if (not (length (keep (has_role LayerRole.perovskite) layers) == 1)) perovskite_count
  raise_if (not (length (keep (has_role top_electrode) layers) == 1)) electrode_count
  for_each (material_order (head_or bcp (transport_layers layers))) (validate_material_order layers)
  for_each layers validate_layer_method

-- `layer_role_order(architecture).index(role)`
unfoldable pub role_index : Architecture → LayerRole → ℕ
role_index pin htl = 0
role_index pin etl = 4
role_index nip htl = 4
role_index nip etl = 0
role_index _ buried_interface_modifier = 1
role_index _ LayerRole.perovskite = 2
role_index _ top_passivation = 3
role_index _ top_electrode = 5

abbrev pub role_indexes : Architecture → List DeviceLayer → List ℕ
role_indexes architecture layers = map (λ layer. role_index architecture layer.role) layers

unfoldable pub validate_layer_sequence : List DeviceLayer → Architecture → Check RecipeError
unfolding validate_layer_completeness role_index
validate_layer_sequence layers architecture = do
  validate_layer_completeness layers
  let indexes = role_indexes architecture layers
  raise_if (not (list_eq indexes (sorted indexes))) role_disorder
