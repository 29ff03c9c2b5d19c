-- ===== src/Recipe/Stack/Accepts.antt =====
-- `validate_layer_sequence` accepts exactly the stacks of Spec.
use perovskite_fabrication_w.Prelude.{
  ◌+◌, ◌≤◌, ◌≡◌, ◌↔◌, List, not, arith, ok, ◌>>◌, Check, for_each, for_each-eq-ok, for_each_ok,
  raise_if, raise_if-not_iff, >>-ok_iff, All, All-map, any, any_iff_count, count, keep, length,
  length-keep, ltb, ◌==◌, ==_iff,
}
use perovskite_fabrication_w.Prelude.Sort.{sorted, list_eq, list_eq-sorted_iff, IsSorted-map_iff}
use perovskite_fabrication_w.Recipe.Data.{
  LayerType, c60, bcp, sno2, ag, LayerRole, htl, top_electrode, Architecture, DeviceLayer,
}
use perovskite_fabrication_w.Recipe.Errors.{
  RecipeError, duplicate_layer, transport_choice, c60_missing, missing_roles, perovskite_count,
  electrode_count, role_disorder,
}
use perovskite_fabrication_w.Recipe.Stack.{
  has_role, has_type, transport_layers, head_or, material_order, unique_types, required_roles,
  is_empty, validate_layer_method, validate_material_order, validate_layer_completeness,
  validate_layer_sequence, role_index, role_indexes,
}
use perovskite_fabrication_w.Recipe.Stack.Spec.{HasTypeRole, UsesMethod, IsStack}
use perovskite_fabrication_w.Recipe.Stack.Methods.{validate_layer_method_iff}
use perovskite_fabrication_w.Recipe.Stack.Order.{IsOrderedIn, key_order_iff}
use perovskite_fabrication_w.Recipe.Stack.Materials.{materials_iff}
use perovskite_fabrication_w.Recipe.Stack.Counts.{
  count-perovskite, count-electrode, count-etl, unique_iff, transport_iff, roles_iff,
  transport_ranks,
}

module _ (layers : List DeviceLayer) where
  abbrev unique : Check RecipeError
  unique =
      for_each unique_types (λ t. raise_if (ltb 1 (count (has_type t) layers)) (duplicate_layer t))

  abbrev transport : Check RecipeError
  transport = raise_if (not (length (transport_layers layers) == 1)) transport_choice

  abbrev c60_present : Check RecipeError
  c60_present = raise_if (not (any (has_type c60) layers)) c60_missing

  abbrev missing : List LayerRole
  missing = keep (λ r. not (any (has_role r) layers)) required_roles

  abbrev roles : Check RecipeError
  roles = raise_if (not (is_empty missing)) (missing_roles missing)

  abbrev one_of : LayerRole → RecipeError → Check RecipeError
  one_of r e = raise_if (not (length (keep (has_role r) layers) == 1)) e

  abbrev materials : Check RecipeError
  materials =
      for_each (material_order (head_or bcp (transport_layers layers)))
        (validate_material_order layers)

  abbrev methods : Check RecipeError
  methods = for_each layers validate_layer_method

  -- What each check of `validate_layer_completeness` says.
  record Passed : Type 0 where
    unique_ok : unique ≡ ok tt
    transport_ok : transport ≡ ok tt
    c60_ok : c60_present ≡ ok tt
    roles_ok : roles ≡ ok tt
    perovskite_ok : one_of LayerRole.perovskite perovskite_count ≡ ok tt
    electrode_ok : one_of top_electrode electrode_count ≡ ok tt
    materials_ok : materials ≡ ok tt
    methods_ok : methods ≡ ok tt

  Passed_iff : (validate_layer_completeness layers ≡ ok tt) ↔ Passed
  unfolding validate_layer_completeness
  Passed_iff =
      let m6 = materials >> methods in
      let m5 = one_of top_electrode electrode_count >> m6 in
      let m4 = one_of LayerRole.perovskite perovskite_count >> m5 in
      let m3 = roles >> m4 in
      let m2 = c60_present >> m3 in
      let m1 = transport >> m2 in
      (
        λ h.
            let (a, h1) = (>>-ok_iff unique m1).0 h in
            let (b, h2) = (>>-ok_iff transport m2).0 h1 in
            let (c, h3) = (>>-ok_iff c60_present m3).0 h2 in
            let (d, h4) = (>>-ok_iff roles m4).0 h3 in
            let (e, h5) = (>>-ok_iff (one_of LayerRole.perovskite perovskite_count) m5).0 h4 in
            let (f, h6) = (>>-ok_iff (one_of top_electrode electrode_count) m6).0 h5 in
            let (g, i) = (>>-ok_iff materials methods).0 h6 in
            record {
              unique_ok = a;
              transport_ok = b;
              c60_ok = c;
              roles_ok = d;
              perovskite_ok = e;
              electrode_ok = f;
              materials_ok = g;
              methods_ok = i;
            },
        λ p.
            rw
              (
                p.unique_ok, p.transport_ok, p.c60_ok, p.roles_ok, p.perovskite_ok, p.electrode_ok,
                p.materials_ok,
              )
              p.methods_ok,
      )

  -- The numbers of layers that the counting checks ask for.
  record Numbers : Type 0 where
    one_perovskite : count (has_type LayerType.perovskite) layers ≡ 1
    one_c60 : count (has_type c60) layers ≡ 1
    one_transport : count (has_type bcp) layers + count (has_type sno2) layers ≡ 1
    one_electrode : count (has_type ag) layers ≡ 1
    some_htl : 1 ≤ count (has_role htl) layers

  module _ (typed : All HasTypeRole layers) where
    Numbers-of-Passed : Passed → Numbers
    Numbers-of-Passed p =
        let u = (unique_iff layers).0 p.unique_ok in
        let t = (transport_iff layers u.1.1.0 u.1.1.1.0).0 (
          (raise_if-not_iff (length (transport_layers layers) == 1) transport_choice).0
            p.transport_ok) in
        let c =
          (any_iff_count (has_type c60) layers).0
            ((raise_if-not_iff (any (has_type c60) layers) c60_missing).0 p.c60_ok) in
        let r =
          (roles_iff layers).0
            ((raise_if-not_iff (is_empty missing) (missing_roles missing)).0 p.roles_ok) in
        let e =
          (raise_if-not_iff (length (keep (has_role LayerRole.perovskite) layers) == 1)
              perovskite_count).0
            p.perovskite_ok in
        let f =
          (raise_if-not_iff (length (keep (has_role top_electrode) layers) == 1) electrode_count).0
            p.electrode_ok in
        record {
          one_perovskite = omega (
            arith,
            (==_iff _ _).0 e,
            length-keep (has_role LayerRole.perovskite) layers,
            count-perovskite layers typed,
          );
          one_c60 = omega arith;
          one_transport = t;
          one_electrode = omega (
            arith,
            (==_iff _ _).0 f,
            length-keep (has_role top_electrode) layers,
            count-electrode layers typed,
          );
          some_htl = r.0;
        }

    Passed-of-Numbers :
        Numbers → ((role : LayerRole) → IsOrderedIn layers role) → All UsesMethod layers → Passed
    Passed-of-Numbers n order used = record {
      unique_ok = (unique_iff layers).1 (omega arith);
      transport_ok =
          (raise_if-not_iff (length (transport_layers layers) == 1) transport_choice).1
            ((transport_iff layers (omega arith) (omega arith)).1 n.one_transport);
      c60_ok =
          (raise_if-not_iff (any (has_type c60) layers) c60_missing).1
            ((any_iff_count (has_type c60) layers).1 (omega arith));
      roles_ok = (raise_if-not_iff (is_empty missing) (missing_roles missing)).1 (
          (roles_iff layers).1 (
            omega (
              arith,
              count-perovskite layers typed,
              count-electrode layers typed,
              count-etl layers typed,
            )));
      perovskite_ok =
          (raise_if-not_iff (length (keep (has_role LayerRole.perovskite) layers) == 1)
              perovskite_count).1
            ((==_iff _ _).1 (
              omega (
                arith,
                length-keep (has_role LayerRole.perovskite) layers,
                count-perovskite layers typed,
              )));
      electrode_ok =
          (raise_if-not_iff (length (keep (has_role top_electrode) layers) == 1) electrode_count).1
            ((==_iff _ _).1 (
              omega (
                arith,
                length-keep (has_role top_electrode) layers,
                count-electrode layers typed,
              )));
      materials_ok =
          (materials_iff (head_or bcp (transport_layers layers)) layers typed
              (transport_ranks layers n.one_transport)).1
            order;
      methods_ok =
          for_each_ok layers validate_layer_method
            (All-map (λ l. (validate_layer_method_iff l).1) layers used);
    }

-- For layers that carry the role of their material, the validator accepts a stack exactly when it
-- is in the deposition order of the architecture with the mandatory materials and methods.
pub validate_layer_sequence_iff :
    (architecture : Architecture) (layers : List DeviceLayer)
    → All HasTypeRole layers
    → (validate_layer_sequence layers architecture ≡ ok tt) ↔ IsStack architecture layers
unfolding validate_layer_sequence
validate_layer_sequence_iff architecture layers typed =
    let indexes = role_indexes architecture layers in
    let last = raise_if (not (list_eq indexes (sorted indexes))) role_disorder in
    let chain = >>-ok_iff (validate_layer_completeness layers) last in
    let sort = list_eq-sorted_iff indexes in
    let check = raise_if-not_iff (list_eq indexes (sorted indexes)) role_disorder in
    let by_role = IsSorted-map_iff (λ (l : DeviceLayer). role_index architecture l.role) layers in
    let key = key_order_iff architecture layers in
    (
      λ h.
          let (complete, ordered) = chain.0 h in
          let p = (Passed_iff layers).0 complete in
          let n = Numbers-of-Passed layers typed p in
          let order =
            (materials_iff (head_or bcp (transport_layers layers)) layers typed
                (transport_ranks layers n.one_transport)).0
              p.materials_ok in
          record {
            ordered = key.1 (by_role.0 (sort.0 (check.0 ordered)), order);
            one_perovskite = n.one_perovskite;
            one_c60 = n.one_c60;
            one_transport = n.one_transport;
            one_electrode = n.one_electrode;
            some_htl = n.some_htl;
            methods =
                All-map (λ l. (validate_layer_method_iff l).0) layers
                  (for_each-eq-ok layers validate_layer_method p.methods_ok);
          },
      λ s.
          let (roles_sorted, materials_sorted) = key.0 s.ordered in
          let n : Numbers layers = record {
            one_perovskite = s.one_perovskite;
            one_c60 = s.one_c60;
            one_transport = s.one_transport;
            one_electrode = s.one_electrode;
            some_htl = s.some_htl;
          } in
          chain.1 (
            (Passed_iff layers).1 (Passed-of-Numbers layers typed n materials_sorted s.methods),
            check.1 (sort.1 (by_role.1 roles_sorted)),
          ),
    )
