-- ===== src/Recipe/Groups/Recipes.antt =====
-- What an accepted recipe is as a whole.
use perovskite_fabrication_w.Prelude.{
  Option, Bool, refl, if◌then◌else◌, ◌⊎◌, List, none, some, true, false, not, ◌≡◌, ok, ◌>>◌,
  >>-eq-ok, raise_if, raise_if_iff, raise_if-not_iff, for_each, for_each-eq-ok, Check, All, All-zip,
  length, ◌==◌, ==_iff, is_some, map, inl, inr,
}
use perovskite_fabrication_w.Prelude.Sets.{to_set}
use perovskite_fabrication_w.Recipe.Data.{
  DeviceLayer, ExperimentalGroup, target, kind_eq, Architecture,
}
use perovskite_fabrication_w.Recipe.Errors.{
  field_bound, RecipeError, tandem_unsupported, bandgap_unsupported, tandem_type_set,
  duplicate_group_id,
}
use perovskite_fabrication_w.Recipe.Layer.{length_within}
use perovskite_fabrication_w.Recipe.Stack.{validate_layer_sequence}
use perovskite_fabrication_w.Recipe.Stack.Spec.{HasTypeRole, IsStack}
use perovskite_fabrication_w.Recipe.Stack.Accepts.{validate_layer_sequence_iff}
use perovskite_fabrication_w.Recipe.Groups.{
  DeviceRecipe, is_single_junction, is_normal_bandgap, validate_group_kinds, target_sequence_check,
  validate_recipe,
}
use perovskite_fabrication_w.Recipe.Groups.Kinds.{IsPlan, validate_group_kinds_iff}

-- Layers that are given have the role of their material.
abbrev pub AreTyped : Option (List DeviceLayer) → Type 0
AreTyped none = Unit
AreTyped (some layers) = All HasTypeRole layers

-- Layers that a target group is given are a stack.
abbrev pub AreStack : Architecture → Bool → Option (List DeviceLayer) → Type 0
AreStack a is_target none = Unit
AreStack a is_target (some layers) = (is_target ≡ false) ⊎ IsStack a layers

-- What a recipe may be: the junction that is supported, an experiment plan with distinct names, and
-- stacks for the device and for each target that has its own layers.
pub record IsRecipe (r : DeviceRecipe) : Type 0 where
  pub layer_number : length_within 5 20 r.layers ≡ true
  pub single : is_single_junction r.junction_type ≡ true
  pub normal : is_normal_bandgap r.perovskite_bandgap ≡ true
  pub no_tandem : is_some r.tandem_type ≡ false
  pub plan : IsPlan r.experimental_groups
  pub distinct :
      length (map (λ g. g.group_id) r.experimental_groups)
      ≡ length (to_set (map (λ g. g.group_id) r.experimental_groups))
  pub stack : IsStack r.architecture r.layers
  pub targets :
      All (λ g. AreStack r.architecture (kind_eq g.kind target) g.layers) r.experimental_groups

-- `target_sequence_check` on what a group holds.
abbrev check_given : Architecture → Bool → Option (List DeviceLayer) → Check RecipeError
check_given a is_target given = elim given [
  | none ↦ ok tt
  | some layers ↦ if is_target then validate_layer_sequence layers a else ok tt
]

target_stack :
    (a : Architecture) (is_target : Bool) (given : Option (List DeviceLayer))
    → check_given a is_target given ≡ ok tt
    → AreTyped given
    → AreStack a is_target given
target_stack a is_target none h typed = tt
target_stack a false (some layers) h typed = inl refl
target_stack a true (some layers) h typed = inr ((validate_layer_sequence_iff a layers typed).0 h)

-- A recipe that is accepted, with layers that carry the role of their material, has 5 to 20 layers,
-- the supported junction, an allowed set of groups with distinct names, and a stack in the order of its
-- architecture for the device and for each target group that has layers of its own.
pub validate_recipe-IsRecipe :
    (r : DeviceRecipe)
    → All HasTypeRole r.layers
    → All (λ g. AreTyped g.layers) r.experimental_groups
    → validate_recipe r ≡ ok tt
    → IsRecipe r
unfolding validate_recipe
validate_recipe-IsRecipe r typed groups_typed h =
    let groups = r.experimental_groups in
    let ids = map (λ (g : ExperimentalGroup). g.group_id) groups in
    let k6 = for_each groups (target_sequence_check r.architecture) in
    let k5 = validate_layer_sequence r.layers r.architecture >> k6 in
    let k4 = raise_if (not (length ids == length (to_set ids))) duplicate_group_id >> k5 in
    let k3 = validate_group_kinds groups >> k4 in
    let k2 = raise_if (is_some r.tandem_type) tandem_type_set >> k3 in
    let k1 = raise_if (not (is_normal_bandgap r.perovskite_bandgap)) bandgap_unsupported >> k2 in
    let k0 = raise_if (not (is_single_junction r.junction_type)) tandem_unsupported >> k1 in
    let (cl, hl) =
      >>-eq-ok (raise_if (not (length_within 5 20 r.layers)) (field_bound "layers")) k0 h in
    let (c0, h0) =
      >>-eq-ok (raise_if (not (is_single_junction r.junction_type)) tandem_unsupported) k1 hl in
    let (c1, h1) =
      >>-eq-ok (raise_if (not (is_normal_bandgap r.perovskite_bandgap)) bandgap_unsupported) k2
        h0 in
    let (c2, h2) = >>-eq-ok (raise_if (is_some r.tandem_type) tandem_type_set) k3 h1 in
    let (c3, h3) = >>-eq-ok (validate_group_kinds groups) k4 h2 in
    let (c4, h4) =
      >>-eq-ok (raise_if (not (length ids == length (to_set ids))) duplicate_group_id) k5 h3 in
    let (c5, h5) = >>-eq-ok (validate_layer_sequence r.layers r.architecture) k6 h4 in
    record {
      layer_number = (raise_if-not_iff (length_within 5 20 r.layers) (field_bound "layers")).0 cl;
      single = (raise_if-not_iff (is_single_junction r.junction_type) tandem_unsupported).0 c0;
      normal = (raise_if-not_iff (is_normal_bandgap r.perovskite_bandgap) bandgap_unsupported).0 c1;
      no_tandem = (raise_if_iff (is_some r.tandem_type) tandem_type_set).0 c2;
      plan = (validate_group_kinds_iff groups).0 c3;
      distinct =
          (==_iff (length ids) (length (to_set ids))).0
            ((raise_if-not_iff (length ids == length (to_set ids)) duplicate_group_id).0 c4);
      stack = (validate_layer_sequence_iff r.architecture r.layers typed).0 c5;
      targets =
          All-zip (λ g c t. target_stack r.architecture (kind_eq g.kind target) g.layers c t) groups
            (for_each-eq-ok groups (target_sequence_check r.architecture) h5) groups_typed;
    }
