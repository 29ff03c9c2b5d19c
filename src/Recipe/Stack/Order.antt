-- ===== src/Recipe/Stack/Order.antt =====
-- The order of a device stack: by role, and by material within each role, is one order by key.
use perovskite_fabrication_w.Prelude.{
  ℕ, ◌≤◌, ◌≡◌, ◌≢◌, ◌↔◌, List, [], ◌∷◌, true, arith, All, All-keep_iff, All-map, All-zip, keep,
  Bool-cases, inl, inr,
}
use perovskite_fabrication_w.Prelude.Sort.{IsSortedBy}
use perovskite_fabrication_w.Recipe.Data.{
  LayerType, niox, LayerRole, htl, Architecture, pin, nip, DeviceLayer, role_eq,
}
use perovskite_fabrication_w.Recipe.Stack.{has_role, role_index}
use perovskite_fabrication_w.Recipe.Stack.Spec.{material_rank, deposition_key}

-- The layers of one role stand in ascending order of material.
abbrev pub IsOrderedIn : List DeviceLayer → LayerRole → Type 0
IsOrderedIn layers role = IsSortedBy (λ l. material_rank l.layer_type) (keep (has_role role) layers)

role_eq_refl : (r : LayerRole) → role_eq r r ≡ true
role_eq_refl r = ground arith

role_eq_trans : (r s t : LayerRole) → role_eq s r ≡ true → role_eq t r ≡ true → role_eq t s ≡ true
role_eq_trans r s t h k = ground arith

material_rank-le : (t : LayerType) → material_rank t ≤ 2
material_rank-le niox = omega arith
material_rank-le _ = omega arith

-- The place of a role in the order of an architecture determines the role.
role_index_inj :
    (a : Architecture) (r s : LayerRole) → role_index a r ≡ role_index a s → role_eq s r ≡ true
unfolding role_index
role_index_inj pin htl s h = ground arith
role_index_inj nip htl s h = ground arith
role_index_inj pin _ s h = ground arith
role_index_inj nip _ s h = ground arith

role_index_of_eq :
    (a : Architecture) (r s : LayerRole) → role_eq s r ≡ true → role_index a r ≡ role_index a s
unfolding role_index
role_index_of_eq pin htl s h = ground arith
role_index_of_eq nip htl s h = ground arith
role_index_of_eq pin _ s h = ground arith
role_index_of_eq nip _ s h = ground arith

module _ (x : DeviceLayer) (xs : List DeviceLayer) where
  IsOrderedIn-tail : (role : LayerRole) → IsOrderedIn (x ∷ xs) role → IsOrderedIn xs role
  IsOrderedIn-tail role h = elim (Bool-cases (has_role role x)) [
    | inl e ↦ (rw e at h).1
    | inr e ↦ rw e at h
  ]

  IsOrderedIn-head :
      (role : LayerRole)
      → has_role role x ≡ true
      → IsOrderedIn (x ∷ xs) role
      → All (λ y. material_rank x.layer_type ≤ material_rank y.layer_type) (keep (has_role role) xs)
  IsOrderedIn-head role e h = (rw e at h).0

  IsOrderedIn-cons :
      (role : LayerRole)
      → (has_role role x ≡ true
          → All
              (λ y. material_rank x.layer_type ≤ material_rank y.layer_type)
              (keep (has_role role) xs))
      → IsOrderedIn xs role
      → IsOrderedIn (x ∷ xs) role
  IsOrderedIn-cons role f h = elim (Bool-cases (has_role role x)) [
    | inl e ↦ rw e (f e, h)
    | inr e ↦ rw e h
  ]

module _ (a : Architecture) where
  abbrev index : DeviceLayer → ℕ
  index layer = role_index a layer.role

  key_of_parts :
      (x y : DeviceLayer)
      → index x ≤ index y
      → (has_role x.role y ≡ true → material_rank x.layer_type ≤ material_rank y.layer_type)
      → deposition_key a x ≤ deposition_key a y
  key_of_parts x y le ranks = elim (Bool-cases (has_role x.role y)) [
    | inl same ↦ omega (arith, ranks same)
    | inr other ↦
        let apart : index x ≢ index y = λ e. ground (arith, role_index_inj a x.role y.role e) in
        omega (arith, material_rank-le x.layer_type)
  ]

  index_of_key : (x y : DeviceLayer) → deposition_key a x ≤ deposition_key a y → index x ≤ index y
  index_of_key x y h = omega (arith, material_rank-le y.layer_type)

  rank_of_key :
      (x y : DeviceLayer)
      → deposition_key a x ≤ deposition_key a y
      → has_role x.role y ≡ true
      → material_rank x.layer_type ≤ material_rank y.layer_type
  rank_of_key x y h same = omega (arith, role_index_of_eq a x.role y.role same)

  sorted_of_parts :
      (layers : List DeviceLayer)
      → IsSortedBy index layers
      → ((role : LayerRole) → IsOrderedIn layers role)
      → IsSortedBy (deposition_key a) layers
  sorted_of_parts [] h k = tt
  sorted_of_parts (x ∷ xs) h k = (
    All-zip (key_of_parts x) xs h.0 (
        (All-keep_iff (λ y. material_rank x.layer_type ≤ material_rank y.layer_type)
            (has_role x.role) xs).0
          (IsOrderedIn-head x xs x.role (role_eq_refl x.role) (k x.role))),
    sorted_of_parts xs h.1 (λ role. IsOrderedIn-tail x xs role (k role)),
  )

  index_of_sorted :
      (layers : List DeviceLayer) → IsSortedBy (deposition_key a) layers → IsSortedBy index layers
  index_of_sorted [] h = tt
  index_of_sorted (x ∷ xs) h = (All-map (index_of_key x) xs h.0, index_of_sorted xs h.1)

  ranks_of_sorted :
      (layers : List DeviceLayer) (role : LayerRole)
      → IsSortedBy (deposition_key a) layers
      → IsOrderedIn layers role
  ranks_of_sorted [] role h = tt
  ranks_of_sorted (x ∷ xs) role h =
      IsOrderedIn-cons x xs role
        (λ e.
          (All-keep_iff (λ y. material_rank x.layer_type ≤ material_rank y.layer_type)
              (has_role role) xs).1
            (All-map (λ y le same. rank_of_key x y le (role_eq_trans role x.role y.role e same)) xs
              h.0))
        (ranks_of_sorted xs role h.1)

  -- Sorted by role, and by material within each role, is sorted by the deposition key.
  pub key_order_iff :
      (layers : List DeviceLayer)
      → IsSortedBy (deposition_key a) layers
        ↔ (IsSortedBy index layers × ((role : LayerRole) → IsOrderedIn layers role))
  key_order_iff layers = (
    λ h. (index_of_sorted layers h, λ role. ranks_of_sorted layers role h),
    λ h. sorted_of_parts layers h.0 h.1,
  )
