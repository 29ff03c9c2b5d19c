-- ===== src/Recipe/Stack/Typed.antt =====
-- Validated layers carry the role of their material, which the theorems on stacks ask for.
use perovskite_fabrication_w.Prelude.{
  Option, none, some, List, [], ◌∷◌, ◌≡◌, ok, ◌>>=◌, raise_if, >>-eq-ok, >>=-eq-ok, All, is_some,
  subst, not, String, sym, ◌∙◌, true, raise_if-not_iff, arith,
}
use perovskite_fabrication_w.Recipe.Data.{
  LayerType, LayerRole, DeviceLayer, role_eq, SolutionRecipe, LayerProcess,
}
use perovskite_fabrication_w.Recipe.Errors.{field_bound, role_mismatch}
use perovskite_fabrication_w.Recipe.Layer.{
  RawLayer, layer_role_by_type, traverse, traverse_option, validate_solution, validate_process,
  validate_role, strip_layer_name, normalize_legacy_reference_id, given_or_none, validate_layer,
}
use perovskite_fabrication_w.Recipe.Stack.Spec.{HasTypeRole}

role_eq_sound : (r s : LayerRole) → role_eq r s ≡ true → r ≡ s
role_eq_sound r s h = ground arith

validate_role-type :
    (t : LayerType) (given : Option LayerRole) (r : LayerRole)
    → validate_role t given ≡ ok r
    → r ≡ layer_role_by_type t
unfolding validate_role
validate_role-type t none r h = cc
validate_role-type t (some x) r h =
    let (checked, e) =
      >>-eq-ok
        (raise_if (not (role_eq x (layer_role_by_type t)))
          (role_mismatch t (layer_role_by_type t) x))
        (ok x) h in
    let given_role : x ≡ r = cc in
    sym given_role
    ∙ role_eq_sound x (layer_role_by_type t) (
        (raise_if-not_iff (role_eq x (layer_role_by_type t))
            (role_mismatch t (layer_role_by_type t) x)).0
          checked)

-- A layer that the model accepts has the role of its material.
validate_layer-HasTypeRole :
    (raw : RawLayer) (layer : DeviceLayer) → validate_layer raw ≡ ok layer → HasTypeRole layer
unfolding validate_layer
validate_layer-HasTypeRole raw layer h =
    let v = normalize_legacy_reference_id raw in
    let build : String → Option SolutionRecipe → Option LayerProcess → LayerRole → DeviceLayer =
      λ name s p r. record {
        layer_type = v.layer_type;
        role = r;
        name = name;
        preset_id = given_or_none v.preset_id;
        solution = s;
        process = p;
      } in
    let last = λ (name : String) (s : Option SolutionRecipe) (p : Option LayerProcess).
      validate_role v.layer_type v.role >>= λ r. ok (build name s p r) in
    let k3 = λ (name : String) (s : Option SolutionRecipe).
      traverse_option validate_process v.process >>= last name s in
    let k2 = λ (name : String). traverse_option validate_solution v.solution >>= k3 name in
    let k1 = strip_layer_name v.name >>= k2 in
    let (_, h1) = >>-eq-ok (raise_if (is_some v.reference_id) (field_bound "reference_id")) k1 h in
    let (name, _, h2) = >>=-eq-ok (strip_layer_name v.name) k2 h1 in
    let (s, _, h3) = >>=-eq-ok (traverse_option validate_solution v.solution) (k3 name) h2 in
    let (p, _, h4) = >>=-eq-ok (traverse_option validate_process v.process) (last name s) h3 in
    let (r, t, h5) =
      >>=-eq-ok (validate_role v.layer_type v.role) (λ r. ok (build name s p r)) h4 in
    let e : build name s p r ≡ layer = cc in
    subst HasTypeRole e (validate_role-type v.layer_type v.role r t)

-- Layers that the model accepts all have the role of their material, whether it was given or filled in.
pub validate_layers-HasTypeRole :
    (raws : List RawLayer) (layers : List DeviceLayer)
    → traverse validate_layer raws ≡ ok layers
    → All HasTypeRole layers
validate_layers-HasTypeRole [] layers h = let e : [] ≡ layers = cc in subst (All HasTypeRole) e tt
validate_layers-HasTypeRole (raw ∷ raws) layers h =
    let (x, h0, h1) =
      >>=-eq-ok (validate_layer raw) (λ y. traverse validate_layer raws >>= λ ys. ok (y ∷ ys)) h in
    let (xs, h2, h3) = >>=-eq-ok (traverse validate_layer raws) (λ ys. ok (x ∷ ys)) h1 in
    let e : x ∷ xs ≡ layers = cc in
    subst (All HasTypeRole) e
      (validate_layer-HasTypeRole raw x h0, validate_layers-HasTypeRole raws xs h2)
