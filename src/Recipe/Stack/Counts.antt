-- ===== src/Recipe/Stack/Counts.antt =====
-- The counting checks of `validate_layer_completeness`, by the number of layers of each material.
use perovskite_fabrication_w.Prelude.{
  ◌+◌, ◌≤◌, ◌≡◌, ◌↔◌, refl, List, true, not, arith, ok, for_each, raise_if, All, All-map, any,
  any_iff_count, count, count_zero, count_ext, count_mono, keep, length, ltb, ◌==◌, Bool-cases, inl,
  inr,
}
use perovskite_fabrication_w.Recipe.Data.{
  LayerType, niox, c60, bcp, sno2, ag, LayerRole, htl, etl, top_electrode, DeviceLayer, type_eq,
  role_eq,
}
use perovskite_fabrication_w.Recipe.Errors.{duplicate_layer}
use perovskite_fabrication_w.Recipe.Layer.{layer_role_by_type}
use perovskite_fabrication_w.Recipe.Stack.{
  has_role, has_type, transport_layers, head_or, material_order, unique_types, required_roles,
  is_empty,
}
use perovskite_fabrication_w.Recipe.Stack.Spec.{HasTypeRole}
use perovskite_fabrication_w.Recipe.Stack.Materials.{AreRanks, bcp-AreRanks, sno2-AreRanks}

perovskite_role :
    (t : LayerType)
    → role_eq (layer_role_by_type t) LayerRole.perovskite ≡ type_eq t LayerType.perovskite
perovskite_role niox = refl
perovskite_role _ = refl

electrode_role : (t : LayerType) → role_eq (layer_role_by_type t) top_electrode ≡ type_eq t ag
electrode_role niox = refl
electrode_role _ = refl

c60_role : (t : LayerType) → type_eq t c60 ≡ true → role_eq (layer_role_by_type t) etl ≡ true
c60_role c60 h = refl
c60_role _ h = cc

module _ (layers : List DeviceLayer) where
  module _ (typed : All HasTypeRole layers) where
    pub count-perovskite :
        count (has_role LayerRole.perovskite) layers ≡ count (has_type LayerType.perovskite) layers
    count-perovskite =
        count_ext (has_role LayerRole.perovskite) (has_type LayerType.perovskite) layers
          (All-map (λ l t. rw t (perovskite_role l.layer_type)) layers typed)

    pub count-electrode : count (has_role top_electrode) layers ≡ count (has_type ag) layers
    count-electrode =
        count_ext (has_role top_electrode) (has_type ag) layers
          (All-map (λ l t. rw t (electrode_role l.layer_type)) layers typed)

    pub count-etl : count (has_type c60) layers ≤ count (has_role etl) layers
    count-etl =
        count_mono (has_type c60) (has_role etl) layers
          (All-map (λ l t h. rw t (c60_role l.layer_type h)) layers typed)

  pub unique_iff :
      (for_each unique_types (λ t. raise_if (ltb 1 (count (has_type t) layers)) (duplicate_layer t))
        ≡ ok tt)
      ↔ All (λ t. count (has_type t) layers ≤ 1) unique_types
  unique_iff = (λ h. ground arith, λ h. ground arith)

  pub transport_iff :
      count (has_type bcp) layers ≤ 1
      → count (has_type sno2) layers ≤ 1
      → ((length (transport_layers layers) == 1) ≡ true)
        ↔ (count (has_type bcp) layers + count (has_type sno2) layers ≡ 1)
  transport_iff hb hs = (
    λ h. ground (arith, any_iff_count (has_type bcp) layers, any_iff_count (has_type sno2) layers),
    λ h. ground (arith, any_iff_count (has_type bcp) layers, any_iff_count (has_type sno2) layers),
  )

  pub roles_iff :
      (is_empty (keep (λ r. not (any (has_role r) layers)) required_roles) ≡ true)
      ↔ All (λ r. 1 ≤ count (has_role r) layers) required_roles
  roles_iff = (
    λ h. ground (
      arith,
      any_iff_count (has_role htl) layers,
      any_iff_count (has_role LayerRole.perovskite) layers,
      any_iff_count (has_role etl) layers,
      any_iff_count (has_role top_electrode) layers,
    ),
    λ h. ground (
      arith,
      any_iff_count (has_role htl) layers,
      any_iff_count (has_role LayerRole.perovskite) layers,
      any_iff_count (has_role etl) layers,
      any_iff_count (has_role top_electrode) layers,
    ),
  )

  pub transport_ranks :
      count (has_type bcp) layers + count (has_type sno2) layers ≡ 1
      → All
          (λ l. AreRanks (material_order (head_or bcp (transport_layers layers))) l.layer_type)
          layers
  transport_ranks h = elim (Bool-cases (any (has_type bcp) layers)) [
    | inl e ↦
        let none_of : count (has_type sno2) layers ≡ 0 =
          ground (arith, any_iff_count (has_type bcp) layers) in
        rw e (
          All-map (λ l. bcp-AreRanks l.layer_type) layers
            (count_zero (has_type sno2) layers none_of))
    | inr e ↦
        let none_of : count (has_type bcp) layers ≡ 0 =
          ground (arith, any_iff_count (has_type bcp) layers) in
        let some_of : any (has_type sno2) layers ≡ true =
          ground (arith, any_iff_count (has_type sno2) layers) in
        rw (e, some_of)
          (All-map (λ l. sno2-AreRanks l.layer_type) layers
            (count_zero (has_type bcp) layers none_of))
  ]
