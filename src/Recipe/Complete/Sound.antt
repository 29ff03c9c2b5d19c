-- ===== src/Recipe/Complete/Sound.antt =====
-- A recipe that passes the completeness checks has every value that fabrication needs.
use perovskite_fabrication_w.Prelude.{
  true, false, ◌≡◌, ◌≢◌, ◌⊎◌, inl, inr, arith, ok, ◌>>◌, Check, for_each, >>-ok_iff, raise_if, All,
  All-map, str_eq, eq_iff, is_none, is_some, enumerate, enumerate_check, enumerate_check_ok,
  Bool-cases, ◌↔◌, not, ◌&&◌, ◌||◌,
}
use perovskite_fabrication_w.Recipe.Data.{
  LayerType, SolidIngredient, SolventIngredient, SolutionRecipe,
}
use perovskite_fabrication_w.Recipe.Errors.{
  RecipeError, solid_incomplete, solvent_incomplete, solids_required, stock_required,
  solvents_required,
}
use perovskite_fabrication_w.Recipe.Stack.{is_empty}
use perovskite_fabrication_w.Recipe.Complete.{
  complete_solution, solid_missing, solvent_missing, is_weighed,
}

-- A weighed solid with its name and mass, a solvent with its name and volume.
abbrev pub IsWeighed : SolidIngredient → Type 0
IsWeighed i = (i.chemical ≢ "") × (is_some i.weight_mg ≡ true)

abbrev pub IsMeasured : SolventIngredient → Type 0
IsMeasured i = (i.solvent ≢ "") × (is_some i.volume_ml ≡ true)

-- What one needs to prepare a solution.
pub record IsPreparable (s : SolutionRecipe) : Type 0 where
  pub solids_or_stock :
      (is_weighed s.formulation_type ≡ true) × (is_empty s.solids ≡ false)
      ⊎ (is_weighed s.formulation_type ≡ false)
        × (s.stock_dispersion ≢ "")
        × (is_some s.stock_volume_ml ≡ true)
  pub some_solvent : is_empty s.solvents ≡ false
  pub solids_weighed : All IsWeighed s.solids
  pub solvents_measured : All IsMeasured s.solvents

solid_iff : (i : SolidIngredient) → (solid_missing i ≡ false) ↔ IsWeighed i
solid_iff i = (
  λ h. (λ e. ground (arith, eq_iff i.chemical ""), ground arith),
  λ h. ground (arith, eq_iff i.chemical ""),
)

solvent_iff : (i : SolventIngredient) → (solvent_missing i ≡ false) ↔ IsMeasured i
solvent_iff i = (
  λ h. (λ e. ground (arith, eq_iff i.solvent ""), ground arith),
  λ h. ground (arith, eq_iff i.solvent ""),
)

module _ (t : LayerType) (s : SolutionRecipe) where
  abbrev solids_check : Check RecipeError
  solids_check =
      for_each (enumerate 1 s.solids) (λ e. raise_if (solid_missing e.1) (solid_incomplete t e.0))

  abbrev solvents_check : Check RecipeError
  solvents_check =
      for_each (enumerate 1 s.solvents)
        (λ e. raise_if (solvent_missing e.1) (solvent_incomplete t e.0))

  solids_check_iff : (solids_check ≡ ok tt) ↔ All IsWeighed s.solids
  solids_check_iff = (
    λ h.
        All-map (λ i. (solid_iff i).0) s.solids
          (enumerate_check solid_missing (solid_incomplete t) 1 s.solids h),
    λ h.
        enumerate_check_ok solid_missing (solid_incomplete t) 1 s.solids
          (All-map (λ i. (solid_iff i).1) s.solids h),
  )

  solvents_check_iff : (solvents_check ≡ ok tt) ↔ All IsMeasured s.solvents
  solvents_check_iff = (
    λ h.
        All-map (λ i. (solvent_iff i).0) s.solvents
          (enumerate_check solvent_missing (solvent_incomplete t) 1 s.solvents h),
    λ h.
        enumerate_check_ok solvent_missing (solvent_incomplete t) 1 s.solvents
          (All-map (λ i. (solvent_iff i).1) s.solvents h),
  )

  head_check : Check RecipeError
  head_check =
      raise_if (is_weighed s.formulation_type && is_empty s.solids) (solids_required t)
      >> (raise_if
            (not (is_weighed s.formulation_type)
              && (str_eq s.stock_dispersion "" || is_none s.stock_volume_ml))
            (stock_required t)
          >> raise_if (is_empty s.solvents) (solvents_required t))

  IsPreparable-of-checks :
      head_check ≡ ok tt → All IsWeighed s.solids → All IsMeasured s.solvents → IsPreparable s
  unfolding head_check
  IsPreparable-of-checks h a b = record {
    solids_or_stock = elim (Bool-cases (is_weighed s.formulation_type)) [
      | inl e ↦ inl (e, ground arith)
      | inr e ↦ inr (e, λ q. ground (arith, eq_iff s.stock_dispersion ""), ground arith)
    ];
    some_solvent = ground arith;
    solids_weighed = a;
    solvents_measured = b;
  }

  head_check_ok : IsPreparable s → head_check ≡ ok tt
  unfolding head_check
  head_check_ok p =
      let given = p.solids_or_stock in
      let some_solvent = p.some_solvent in ground (arith, eq_iff s.stock_dispersion "")

  complete_solution_parts : complete_solution t s ≡ (head_check >> (solids_check >> solvents_check))
  unfolding complete_solution head_check
  complete_solution_parts = ground arith

  -- The solution check passes exactly when the solution can be prepared from what is recorded.
  pub complete_solution_iff : (complete_solution t s ≡ ok tt) ↔ IsPreparable s
  complete_solution_iff = rw complete_solution_parts (
    λ h.
        let (head, rest) = (>>-ok_iff head_check (solids_check >> solvents_check)).0 h in
        let (solids, solvents) = (>>-ok_iff solids_check solvents_check).0 rest in
        IsPreparable-of-checks head (solids_check_iff.0 solids) (solvents_check_iff.0 solvents),
    λ p.
        rw (head_check_ok p, solids_check_iff.1 p.solids_weighed)
          (solvents_check_iff.1 p.solvents_measured),
  )
