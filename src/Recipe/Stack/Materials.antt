-- ===== src/Recipe/Stack/Materials.antt =====
-- The material-order checks of a device stack, by the ranks of the materials.
use perovskite_fabrication_w.Prelude.{
  ℕ, ◌≡◌, ◌↔◌, ok, for_each, for_each-eq-ok, for_each_ok, raise_if-not_iff, subst, All-swap, refl,
  sym, ap, some, List, [], ◌∷◌, true, false, arith, All, All-map, All-zip, keep, map, Bool-cases,
  inl, inr,
}
use perovskite_fabrication_w.Prelude.Sort.{
  list_eq, sorted, list_eq-sorted_iff, IsSorted, IsSorted-map_iff,
}
use perovskite_fabrication_w.Recipe.Data.{
  LayerType, bcp, sno2, LayerRole, htl, buried_interface_modifier, top_passivation, etl,
  top_electrode, DeviceLayer, type_eq, role_eq,
}
use perovskite_fabrication_w.Recipe.Layer.{layer_role_by_type}
use perovskite_fabrication_w.Recipe.Stack.{
  has_role, position, actual_positions, material_order, validate_material_order,
}
use perovskite_fabrication_w.Recipe.Errors.{material_disorder}
use perovskite_fabrication_w.Recipe.Stack.Spec.{material_rank, HasTypeRole}
use perovskite_fabrication_w.Recipe.Stack.Order.{IsOrderedIn}

-- The order list of a role gives each of these layers its material rank.
abbrev Ranks : LayerRole → List LayerType → DeviceLayer → Type 0
Ranks role order layer =
    has_role role layer ≡ true
    → position layer.layer_type 0 order ≡ some (material_rank layer.layer_type)

pub actual_positions_lem :
    (role : LayerRole) (order : List LayerType) (layers : List DeviceLayer)
    → All (Ranks role order) layers
    → actual_positions role order layers
      ≡ map (λ l. material_rank l.layer_type) (keep (has_role role) layers)
unfolding actual_positions
actual_positions_lem role order [] h = refl
actual_positions_lem role order (l ∷ ls) h = elim (Bool-cases (has_role role l)) [
  | inl e ↦ rw e (
      rw (h.0 e)
        (ap (λ r. material_rank l.layer_type ∷ r) (actual_positions_lem role order ls h.1)))
  | inr e ↦ rw e (actual_positions_lem role order ls h.1)
]

-- With one transport material absent, the order lists that name the other give every layer its
-- material rank.
abbrev pub AreRanks : List (LayerRole × List LayerType) → LayerType → Type 0
AreRanks entries t =
    All (λ e. role_eq (layer_role_by_type t) e.0 ≡ true → position t 0 e.1 ≡ some (material_rank t))
      entries

pub bcp-AreRanks : (t : LayerType) → type_eq t sno2 ≡ false → AreRanks (material_order bcp) t
unfolding position
bcp-AreRanks sno2 h = cc
bcp-AreRanks _ h = ground arith

pub sno2-AreRanks : (t : LayerType) → type_eq t bcp ≡ false → AreRanks (material_order sno2) t
unfolding position
sno2-AreRanks bcp h = cc
sno2-AreRanks _ h = ground arith

material_order_ok_iff :
    (layers : List DeviceLayer) (role : LayerRole) (order : List LayerType)
    → All (Ranks role order) layers
    → (validate_material_order layers (role, order) ≡ ok tt) ↔ IsOrderedIn layers role
unfolding validate_material_order
material_order_ok_iff layers role order h =
    let positions : List ℕ = actual_positions role order layers in
    let kept = keep (has_role role) layers in
    let (to, from) = IsSorted-map_iff (λ (l : DeviceLayer). material_rank l.layer_type) kept in
    let (sound, complete) = list_eq-sorted_iff positions in
    let same = actual_positions_lem role order layers h in
    let check = raise_if-not_iff (list_eq positions (sorted positions)) (material_disorder role) in
    (
      λ ok. to (subst IsSorted same (sound (check.0 ok))),
      λ s. check.1 (complete (subst IsSorted (sym same) (from s))),
    )

layer-Ranks :
    (entries : List (LayerRole × List LayerType)) (layer : DeviceLayer)
    → HasTypeRole layer
    → AreRanks entries layer.layer_type
    → All (λ e. Ranks e.0 e.1 layer) entries
layer-Ranks entries layer typed h = rw typed h

-- The material-order checks pass exactly when each role has its layers in ascending order.
pub materials_iff :
    (transport : LayerType) (layers : List DeviceLayer)
    → All HasTypeRole layers
    → All (λ l. AreRanks (material_order transport) l.layer_type) layers
    → (for_each (material_order transport) (validate_material_order layers) ≡ ok tt)
      ↔ ((role : LayerRole) → IsOrderedIn layers role)
materials_iff transport layers typed ranks = (
  λ h role. pick role (
      All-zip (λ e r. (material_order_ok_iff layers e.0 e.1 r).0) (material_order transport) each
        (for_each-eq-ok (material_order transport) (validate_material_order layers) h)),
  λ h. for_each_ok (material_order transport) (validate_material_order layers) (
      All-map (λ e r. (material_order_ok_iff layers e.0 e.1 r).1 (h e.0)) (material_order transport)
        each),
)
  where
    each : All (λ e. All (Ranks e.0 e.1) layers) (material_order transport)
    each =
        All-swap (λ e l. Ranks e.0 e.1 l) (material_order transport) layers
          (All-zip (λ l. layer-Ranks (material_order transport) l) layers typed ranks)

    pick :
        (role : LayerRole)
        → All (λ e. IsOrderedIn layers e.0) (material_order transport)
        → IsOrderedIn layers role
    pick htl h = h.0
    pick buried_interface_modifier h = h.1.0
    pick LayerRole.perovskite h = h.1.1.0
    pick top_passivation h = h.1.1.1.0
    pick etl h = h.1.1.1.1.0
    pick top_electrode h = h.1.1.1.1.1.0
