-- ===== src/Recipe/Groups/Kinds.antt =====
-- Which groups an experiment may have.
use perovskite_fabrication_w.Prelude.{
  ℕ, ◌+◌, ◌≤◌, ◌≡◌, ◌↔◌, ◌⊎◌, inl, inr, refl, List, [], ◌∷◌, arith, ok, length, count, length-keep,
  Bool-cases, ltb, not,
}
use perovskite_fabrication_w.Recipe.Data.{
  ExperimentalGroup, ExperimentGroupKind, control, target, standalone, kind_eq,
}
use perovskite_fabrication_w.Recipe.Groups.{groups_of, validate_group_kinds}
use perovskite_fabrication_w.Recipe.Stack.{is_empty}

abbrev pub number_of : ExperimentGroupKind → List ExperimentalGroup → ℕ
number_of kind = count (λ g. kind_eq g.kind kind)

-- One standalone condition alone, or one control with at least one target and nothing else.
abbrev pub IsPlan : List ExperimentalGroup → Type 0
IsPlan groups =
    (length groups ≡ 1) × (number_of standalone groups ≡ 1)
    ⊎ (number_of control groups ≡ 1)
      × (1 ≤ number_of target groups)
      × (length groups ≡ 1 + number_of target groups)

kinds_total :
    (groups : List ExperimentalGroup)
    → number_of control groups + number_of target groups + number_of standalone groups
      ≡ length groups
kinds_total [] = refl
kinds_total (g ∷ gs) = ground (arith, kinds_total gs)

is_empty-keep :
    (kind : ExperimentGroupKind) (groups : List ExperimentalGroup)
    → is_empty (groups_of kind groups) ≡ not (ltb 0 (number_of kind groups))
is_empty-keep kind [] = refl
is_empty-keep kind (g ∷ gs) = ground (arith, is_empty-keep kind gs)

-- The group checks pass exactly for a single standalone condition, or for one control and at least
-- one target with no standalone condition beside them.
pub validate_group_kinds_iff :
    (groups : List ExperimentalGroup) → (validate_group_kinds groups ≡ ok tt) ↔ IsPlan groups
unfolding validate_group_kinds
validate_group_kinds_iff groups =
    let total = kinds_total groups in
    let c = length-keep (λ (g : ExperimentalGroup). kind_eq g.kind control) groups in
    let s = length-keep (λ (g : ExperimentalGroup). kind_eq g.kind standalone) groups in
    let es = is_empty-keep standalone groups in
    let et = is_empty-keep target groups in
    (
      λ h. elim (Bool-cases (is_empty (groups_of standalone groups))) [
        | inl e ↦ inr (ground arith, ground arith, ground arith)
        | inr e ↦ inl (ground arith, ground arith)
      ],
      λ h. ground arith,
    )
