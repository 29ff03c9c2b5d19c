-- ===== src/Recipe/Stack/Shape.antt =====
-- What an accepted stack looks like: where the perovskite and the electrode stand, and which
-- architecture it is for.
use perovskite_fabrication_w.Prelude.{
  ◌+◌, ◌*◌, ◌≤◌, ◌<◌, ◌≡◌, ◌≢◌, refl, subst, List, [], ◌∷◌, ◌++◌, arith, ok, All, All-map,
  All-middle, ap, All-after, count, count_ext, count-append, count_none, ◌==◌, Bool-cases, inl, inr,
  true, false,
}
use perovskite_fabrication_w.Prelude.Sort.{IsSortedBy, IsCutAt, IsSortedBy-IsCutAt}
use perovskite_fabrication_w.Recipe.Data.{
  LayerType, niox, ag, LayerRole, htl, etl, Architecture, pin, nip, DeviceLayer, type_eq, role_eq,
}
use perovskite_fabrication_w.Recipe.Layer.{layer_role_by_type}
use perovskite_fabrication_w.Recipe.Stack.{has_role, has_type, validate_layer_sequence, role_index}
use perovskite_fabrication_w.Recipe.Stack.Spec.{HasTypeRole, IsStack, deposition_key, material_rank}
use perovskite_fabrication_w.Recipe.Stack.Order.{key_order_iff}
use perovskite_fabrication_w.Recipe.Stack.Counts.{count-perovskite, count-etl}
use perovskite_fabrication_w.Recipe.Stack.Accepts.{validate_layer_sequence_iff}

perovskite_index :
    (a : Architecture) (r : LayerRole) → (role_index a r == 2) ≡ role_eq r LayerRole.perovskite
unfolding role_index
perovskite_index pin htl = refl
perovskite_index nip htl = refl
perovskite_index pin _ = refl
perovskite_index nip _ = refl

electrode_key :
    (a : Architecture) (t : LayerType)
    → (3 * role_index a (layer_role_by_type t) + material_rank t == 15) ≡ type_eq t ag
unfolding role_index
electrode_key pin niox = refl
electrode_key nip niox = refl
electrode_key pin _ = refl
electrode_key nip _ = refl

key-le :
    (a : Architecture) (t : LayerType)
    → 3 * role_index a (layer_role_by_type t) + material_rank t ≤ 15
unfolding role_index
key-le pin niox = omega arith
key-le nip niox = omega arith
key-le pin _ = omega arith
key-le nip _ = omega arith

module _ (a : Architecture) (layers : List DeviceLayer) (typed : All HasTypeRole layers)
    (accepted : validate_layer_sequence layers a ≡ ok tt) where
  stack : IsStack a layers
  stack = (validate_layer_sequence_iff a layers typed).0 accepted

  -- An accepted stack has one perovskite layer, every layer before it has a role that comes earlier
  -- in the order of the architecture, and every layer after it a role that comes later.
  pub perovskite_cut : IsCutAt (λ (l : DeviceLayer). role_index a l.role) 2 layers
  perovskite_cut =
      let s = stack in
      let same =
        count_ext (λ (l : DeviceLayer). role_index a l.role == 2) (has_role LayerRole.perovskite)
          layers (All-map (λ l t. perovskite_index a l.role) layers typed) in
      IsSortedBy-IsCutAt (λ (l : DeviceLayer). role_index a l.role) 2 layers
        ((key_order_iff a layers).0 s.ordered).0
        (omega (arith, s.one_perovskite, count-perovskite layers typed, same))

  is_electrode : (l : DeviceLayer) → HasTypeRole l → (deposition_key a l == 15) ≡ has_type ag l
  is_electrode l t = rw t (electrode_key a l.layer_type)

  nothing_above :
      (above : List DeviceLayer)
      → All HasTypeRole above
      → All (λ l. 15 < deposition_key a l) above
      → above ≡ []
  nothing_above [] t h = refl
  nothing_above (x ∷ xs) t h = absurd (
      omega (
        arith,
        key-le a x.layer_type,
        subst (λ r. 15 < 3 * role_index a r + material_rank x.layer_type) t.0 h.0,
      ))

  -- The last layer of an accepted stack is the silver electrode, and no other layer is silver.
  pub electrode_last :
      (below : List DeviceLayer) × (top : DeviceLayer) × (layers ≡ below ++ (top ∷ []))
      × (has_type ag top ≡ true)
      × (count (has_type ag) below ≡ 0)
  electrode_last =
      let s = stack in
      let same : count (λ l. deposition_key a l == 15) layers ≡ count (has_type ag) layers =
        count_ext (λ l. deposition_key a l == 15) (has_type ag) layers
          (All-map (λ l t. is_electrode l t) layers typed) in
      let cut =
        IsSortedBy-IsCutAt (deposition_key a) 15 layers s.ordered
          (omega (arith, s.one_electrode, same)) in
      let parts = subst (All HasTypeRole) cut.split typed in
      let top_typed = All-middle HasTypeRole cut.below cut.item cut.above parts in
      let alone =
        nothing_above cut.above (All-after HasTypeRole cut.below cut.item cut.above parts)
          cut.upper in
      let whole : layers ≡ cut.below ++ (cut.item ∷ []) =
        subst (λ r. layers ≡ cut.below ++ (cut.item ∷ r)) alone cut.split in
      let silver : has_type ag cut.item ≡ true =
        ground (arith, is_electrode cut.item top_typed, cut.at) in
      let total : count (has_type ag) cut.below + 1 ≡ 1 = ground (
        arith,
        s.one_electrode,
        ap (count (has_type ag)) whole,
        count-append (has_type ag) cut.below (cut.item ∷ []),
        silver,
      ) in
      (cut.below, cut.item, whole, silver, omega (arith, total))

after_htl :
    (r s : LayerRole)
    → role_eq r htl ≡ true
    → role_index nip r ≤ role_index nip s
    → role_eq s etl ≡ false
unfolding role_index
after_htl htl s h le = ground arith
after_htl _ s h le = cc

after_etl :
    (r s : LayerRole)
    → role_eq r etl ≡ true
    → role_index pin r ≤ role_index pin s
    → role_eq s htl ≡ false
unfolding role_index
after_etl etl s h le = ground arith
after_etl _ s h le = cc

-- A list with a hole-transport and an electron-transport layer is in the order of at most one of
-- the two architectures.
one_architecture :
    (layers : List DeviceLayer)
    → IsSortedBy (λ (l : DeviceLayer). role_index pin l.role) layers
    → IsSortedBy (λ (l : DeviceLayer). role_index nip l.role) layers
    → 1 ≤ count (has_role htl) layers
    → 1 ≤ count (has_role etl) layers
    → ⊥
one_architecture [] p n h e = omega arith
one_architecture (x ∷ xs) p n h e = elim (Bool-cases (has_role htl x)) [
  | inl is_htl ↦
      let rest : count (has_role etl) xs ≡ 0 =
        count_none (has_role etl) xs (All-map (λ y le. after_htl x.role y.role is_htl le) xs n.0) in
      ground (arith, rest)
  | inr no_htl ↦ elim (Bool-cases (has_role etl x)) [
    | inl is_etl ↦
        let rest : count (has_role htl) xs ≡ 0 =
          count_none (has_role htl) xs
            (All-map (λ y le. after_etl x.role y.role is_etl le) xs p.0) in
        ground (arith, rest)
    | inr no_etl ↦ one_architecture xs p.1 n.1 (ground arith) (ground arith)
  ]
]

-- A stack that is accepted for the inverted architecture is refused for the regular one.
pub pin-nip_exclusive :
    (layers : List DeviceLayer)
    → All HasTypeRole layers
    → validate_layer_sequence layers pin ≡ ok tt
    → validate_layer_sequence layers nip ≢ ok tt
pin-nip_exclusive layers typed p n =
    let sp = (validate_layer_sequence_iff pin layers typed).0 p in
    let sn = (validate_layer_sequence_iff nip layers typed).0 n in
    one_architecture layers ((key_order_iff pin layers).0 sp.ordered).0
      ((key_order_iff nip layers).0 sn.ordered).0 sp.some_htl
      (omega (arith, sp.one_c60, count-etl layers typed))
