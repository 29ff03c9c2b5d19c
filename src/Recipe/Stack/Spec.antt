-- ===== src/Recipe/Stack/Spec.antt =====
-- What a device stack of src/perovskite_bo/device_recipe.py should be, said without the checks:
-- one deposition key puts the layers in order, and the mandatory materials occur once.
use perovskite_fabrication_w.Prelude.{
  ℕ, ◌+◌, ◌*◌, ◌≤◌, ◌≡◌, ◌⊎◌, none, some, List, true, false, count, All, is_some, [], ◌∷◌, any,
}
use perovskite_fabrication_w.Prelude.Sort.{IsSortedBy}
use perovskite_fabrication_w.Recipe.Data.{
  LayerType, niox, sam, buried_interface, sio2_np, passivation, peai, edadi, pcbm, c60, bcp, sno2,
  ag, htl, Architecture, DeviceLayer, Method, spin_coating, sputtering, thermal_evaporation, ald,
  LayerProcess, method_of, type_eq,
}
use perovskite_fabrication_w.Recipe.Layer.{layer_role_by_type}
use perovskite_fabrication_w.Recipe.Stack.{role_index, has_type, has_role, is_spin_coating}

-- The place of a material among those of its role, from the substrate up.
abbrev pub material_rank : LayerType → ℕ
material_rank niox = 0
material_rank sam = 1
material_rank buried_interface = 0
material_rank sio2_np = 1
material_rank LayerType.perovskite = 0
material_rank passivation = 0
material_rank peai = 1
material_rank edadi = 2
material_rank pcbm = 0
material_rank c60 = 1
material_rank bcp = 2
material_rank sno2 = 2
material_rank ag = 0

abbrev pub deposition_key : Architecture → DeviceLayer → ℕ
deposition_key architecture layer =
    3 * role_index architecture layer.role + material_rank layer.layer_type

-- As every layer that `validate_layer` returns.
abbrev pub HasTypeRole : DeviceLayer → Type 0
HasTypeRole layer = layer.role ≡ layer_role_by_type layer.layer_type

-- The materials that a method can deposit.
abbrev pub method_materials : Method → List LayerType
method_materials spin_coating =
    niox ∷ sam ∷ buried_interface ∷ sio2_np ∷ passivation ∷ peai ∷ edadi ∷ pcbm ∷ []
method_materials sputtering = niox ∷ []
method_materials thermal_evaporation = c60 ∷ bcp ∷ ag ∷ []
method_materials ald = sno2 ∷ []

-- The perovskite layer has a solution and no process of its own. Any other layer has a process of
-- a method that can deposit its material, and a solution exactly when it is spin coated.
abbrev pub UsesMethod : DeviceLayer → Type 0
UsesMethod layer =
    (type_eq layer.layer_type LayerType.perovskite ≡ true)
      × (layer.process ≡ none)
      × (is_some layer.solution ≡ true)
    ⊎ (type_eq layer.layer_type LayerType.perovskite ≡ false)
      × (process : LayerProcess) × (layer.process ≡ some process)
      × (any (type_eq layer.layer_type) (method_materials (method_of process)) ≡ true)
      × (is_some layer.solution ≡ is_spin_coating (some (method_of process)))

pub record IsStack (architecture : Architecture) (layers : List DeviceLayer) : Type 0 where
  pub ordered : IsSortedBy (deposition_key architecture) layers
  pub one_perovskite : count (has_type LayerType.perovskite) layers ≡ 1
  pub one_c60 : count (has_type c60) layers ≡ 1
  pub one_transport : count (has_type bcp) layers + count (has_type sno2) layers ≡ 1
  pub one_electrode : count (has_type ag) layers ≡ 1
  pub some_htl : 1 ≤ count (has_role htl) layers
  pub methods : All UsesMethod layers
