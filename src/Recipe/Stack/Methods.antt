-- ===== src/Recipe/Stack/Methods.antt =====
-- `validate_layer_method` accepts exactly the layers that use their method.
use perovskite_fabrication_w.Prelude.{
  ◌≡◌, ◌↔◌, ok, arith, Bool-cases, Option-cases, inl, inr, any, true, sym, ◌∙◌,
}
use perovskite_fabrication_w.Recipe.Data.{DeviceLayer, LayerType, Method, method_of, type_eq}
use perovskite_fabrication_w.Recipe.Stack.{validate_layer_method, method_allowed}
use perovskite_fabrication_w.Recipe.Stack.Spec.{UsesMethod, method_materials}

-- The table of methods by material and the one of materials by method agree.
method_allowed-materials :
    (t : LayerType) (m : Method) → method_allowed t m ≡ any (type_eq t) (method_materials m)
unfolding method_allowed
method_allowed-materials t m = ground arith

UsesMethod-of-ok : (layer : DeviceLayer) → validate_layer_method layer ≡ ok tt → UsesMethod layer
unfolding validate_layer_method
UsesMethod-of-ok layer h = elim (Bool-cases (type_eq layer.layer_type LayerType.perovskite)) [
  | inl e ↦ inl (e, ground arith, ground arith)
  | inr e ↦ elim (Option-cases layer.process) [
    | inl missing ↦ absurd (ground arith)
    | inr (p, q) ↦
        let table = method_allowed-materials layer.layer_type (method_of p) in
        let allowed : method_allowed layer.layer_type (method_of p) ≡ true = ground arith in
        inr (e, p, q, sym table ∙ allowed, ground arith)
  ]
]

ok-of-UsesMethod : (layer : DeviceLayer) → UsesMethod layer → validate_layer_method layer ≡ ok tt
unfolding validate_layer_method
ok-of-UsesMethod layer (inl h) = ground arith
ok-of-UsesMethod layer (inr (e, p, q, among, solved)) =
    let allowed : method_allowed layer.layer_type (method_of p) ≡ true =
      method_allowed-materials layer.layer_type (method_of p) ∙ among in
    ground arith

-- The method check passes exactly for a perovskite layer with a solution and no process, and for any
-- other layer with a process of an allowed method and a solution exactly when it is spin coated.
pub validate_layer_method_iff :
    (layer : DeviceLayer) → (validate_layer_method layer ≡ ok tt) ↔ UsesMethod layer
validate_layer_method_iff layer = (UsesMethod-of-ok layer, ok-of-UsesMethod layer)
