-- ===== src/Snapshots/Settled.antt =====
-- A validated snapshot is a fixed point of its validator: src/web/execution_snapshots.py accepts again
-- what it returned, and returns it unchanged.
use perovskite_fabrication_w.Prelude.{
  ℕ, String, Option, List, [], ◌∷◌, not, Result, Check, ok, err, ◌>>=◌, ◌>>◌, raise_if, >>=-eq-ok,
  >>-eq-ok, ◌≡◌, refl, ap, sym, subst, length, map, suc,
}
use perovskite_fabrication_w.Prelude.Text.{strip, strip_idem}
use perovskite_fabrication_w.Recipe.Data.{
  SolidIngredient, SolventIngredient, SolutionRecipe, VcdStage, VcdGasBackfillStage, sputter,
  evaporate, deposit,
}
use perovskite_fabrication_w.Recipe.Process.{strip_valve, strip_gas}
use perovskite_fabrication_w.Recipe.Errors.{RecipeError, field_bound}
use perovskite_fabrication_w.Recipe.Layer.{
  traverse, length_within, gt_zero_float, max_solid_chemicals, max_solvents, validate_solid,
  validate_solvent, validate_solution, validate_process,
}
use perovskite_fabrication_w.Snapshots.{
  or_refused, complete_solution_snapshot, validate_solution_snapshot, VcdOperation,
  ProcessOperation, spin_coating_operation, annealing_operation, vcd_operation,
  sputtering_operation, evaporation_operation, ald_operation, strip_operation, check_vcd_operation,
  validate_operation, validate_process_snapshot, differs, operation_method, method_differs,
  complete_operation, sputtering_of,
}

-- What a validator returns, it returns unchanged.
abbrev pub Settles {ℓ κ} : {E : Type ℓ} {A : Type κ} → (A → Result E A) → Type (ℓ ⊔ κ)
Settles {A = A} f = (x y : A) → f x ≡ ok y → f y ≡ ok y

module _ {ℓ κ} {E : Type ℓ} {A : Type κ} (f : A → Result E A) where
  traverse-Settles : Settles f → Settles (traverse f)
  traverse-Settles h [] ys e =
      let nil : ys ≡ [] = cc in subst (λ l. traverse f l ≡ ok l) (sym nil) refl
  traverse-Settles h (x ∷ xs) ys e =
      let (head, one, rest) = >>=-eq-ok (f x) (λ y. traverse f xs >>= λ ys. ok (y ∷ ys)) e in
      let (tail, many, last) = >>=-eq-ok (traverse f xs) (λ ys. ok (head ∷ ys)) rest in
      let same : ys ≡ head ∷ tail = cc in
      let first : f head ≡ ok head = h x head one in
      let others : traverse f tail ≡ ok tail = traverse-Settles h xs tail many in
      subst (λ l. traverse f l ≡ ok l) (sym same) (rw (first, others) refl)

  length-traverse : (xs ys : List A) → traverse f xs ≡ ok ys → length ys ≡ length xs
  length-traverse [] ys e = let nil : ys ≡ [] = cc in ap length nil
  length-traverse (x ∷ xs) ys e =
      let (head, one, rest) = >>=-eq-ok (f x) (λ y. traverse f xs >>= λ ys. ok (y ∷ ys)) e in
      let (tail, many, last) = >>=-eq-ok (traverse f xs) (λ ys. ok (head ∷ ys)) rest in
      let same : ys ≡ head ∷ tail = cc in
      let short : length tail ≡ length xs = length-traverse xs tail many in rw same (ap suc short)

validate_solid-Settles : Settles validate_solid
unfolding validate_solid
validate_solid-Settles s t e =
    let (bound, last) =
      >>-eq-ok (raise_if (not (gt_zero_float s.weight_mg)) (field_bound "weight_mg"))
        (ok (record s { chemical = strip s.chemical })) e in
    let same : t ≡ record s { chemical = strip s.chemical } = cc in
    subst (λ t. validate_solid t ≡ ok t) (sym same) (rw (bound, strip_idem s.chemical) refl)

validate_solvent-Settles : Settles validate_solvent
unfolding validate_solvent
validate_solvent-Settles s t e =
    let (bound, last) =
      >>-eq-ok (raise_if (not (gt_zero_float s.volume_ml)) (field_bound "volume_ml"))
        (ok (record s { solvent = strip s.solvent })) e in
    let same : t ≡ record s { solvent = strip s.solvent } = cc in
    subst (λ t. validate_solvent t ≡ ok t) (sym same) (rw (bound, strip_idem s.solvent) refl)

or_refused-eq-ok {κ} :
    {A : Type κ} (m : Result RecipeError A) (a : A) → or_refused m ≡ ok a → m ≡ ok a
or_refused-eq-ok (ok b) a e = let same : b ≡ a = cc in ap ok same
or_refused-eq-ok (err reason) a e = absurd cc

-- The solution that the validated parts make.
abbrev with_parts : SolutionRecipe → List SolidIngredient → List SolventIngredient → SolutionRecipe
with_parts s solids solvents = record s {
  stock_dispersion = strip s.stock_dispersion;
  solids = solids;
  solvents = solvents;
}

-- The bound on a length holds of every list of that length.
within_again {κ} :
    {A : Type κ} (xs ys : List A) (hi : ℕ) (error : RecipeError)
    → length ys ≡ length xs
    → raise_if (not (length_within 0 hi xs)) error ≡ ok tt
    → raise_if (not (length_within 0 hi ys)) error ≡ ok tt
within_again xs ys hi error same few = rw same few

module _ (s : SolutionRecipe) (solids : List SolidIngredient)
    (solvents : List SolventIngredient) where
  validate_solution-with_parts :
      raise_if (not (gt_zero_float s.stock_volume_ml)) (field_bound "stock_volume_ml") ≡ ok tt
      → raise_if (not (length_within 0 max_solid_chemicals solids)) (field_bound "solids") ≡ ok tt
      → traverse validate_solid solids ≡ ok solids
      → raise_if (not (length_within 0 max_solvents solvents)) (field_bound "solvents") ≡ ok tt
      → traverse validate_solvent solvents ≡ ok solvents
      → validate_solution (with_parts s solids solvents) ≡ ok (with_parts s solids solvents)
  unfolding validate_solution
  validate_solution-with_parts volume few_solids each_solid few_solvents each_solvent =
      rw (volume, few_solids, each_solid, few_solvents, each_solvent, strip_idem s.stock_dispersion)
        refl

validate_solution-Settles : Settles validate_solution
unfolding validate_solution
validate_solution-Settles s t e =
    let many_solids = not (length_within 0 max_solid_chemicals s.solids) in
    let many_solvents = not (length_within 0 max_solvents s.solvents) in
    let step4 = λ (solids : List SolidIngredient).
      traverse validate_solvent s.solvents >>= λ (solvents : List SolventIngredient).
      ok (with_parts s solids solvents) in
    let step3 = λ (solids : List SolidIngredient).
      raise_if many_solvents (field_bound "solvents") >> step4 solids in
    let step2 =
      raise_if many_solids (field_bound "solids") >> (traverse validate_solid s.solids >>= step3) in
    let (volume, e1) =
      >>-eq-ok (raise_if (not (gt_zero_float s.stock_volume_ml)) (field_bound "stock_volume_ml"))
        step2 e in
    let (few_solids, e2) =
      >>-eq-ok (raise_if many_solids (field_bound "solids"))
        (traverse validate_solid s.solids >>= step3) e1 in
    let (solids, solids_ok, e3) = >>=-eq-ok (traverse validate_solid s.solids) step3 e2 in
    let (few_solvents, e4) =
      >>-eq-ok (raise_if many_solvents (field_bound "solvents")) (step4 solids) e3 in
    let (solvents, solvents_ok, e5) =
      >>=-eq-ok (traverse validate_solvent s.solvents)
        (λ solvents. ok (with_parts s solids solvents)) e4 in
    let same : t ≡ with_parts s solids solvents = cc in
    let size_solids = length-traverse validate_solid s.solids solids solids_ok in
    let size_solvents = length-traverse validate_solvent s.solvents solvents solvents_ok in
    subst (λ t. validate_solution t ≡ ok t) (sym same)
      (validate_solution-with_parts s solids solvents volume
        (within_again s.solids solids max_solid_chemicals (field_bound "solids") size_solids
          few_solids)
        (traverse-Settles validate_solid validate_solid-Settles s.solids solids solids_ok)
        (within_again s.solvents solvents max_solvents (field_bound "solvents") size_solvents
          few_solvents)
        (traverse-Settles validate_solvent validate_solvent-Settles s.solvents solvents
          solvents_ok))

-- A solution snapshot that `validate_solution_snapshot` returned is returned unchanged when it is
-- validated again.
pub validate_solution_snapshot_idem :
    (s t : SolutionRecipe)
    → validate_solution_snapshot s ≡ ok t
    → validate_solution_snapshot t ≡ ok t
unfolding validate_solution_snapshot
validate_solution_snapshot_idem s t e =
    let finish =
      λ (solution : SolutionRecipe). complete_solution_snapshot solution >> ok solution in
    let (solution, valid, e1) = >>=-eq-ok (or_refused (validate_solution s)) finish e in
    let (complete, e2) = >>-eq-ok (complete_solution_snapshot solution) (ok solution) e1 in
    let same : t ≡ solution = cc in
    let again : validate_solution solution ≡ ok solution =
      validate_solution-Settles s solution
        (or_refused-eq-ok (validate_solution s) solution valid) in
    subst (λ t. validate_solution_snapshot t ≡ ok t) (sym same) (rw (again, complete) refl)

strip_valve_idem :
    (stages : List VcdStage) → map strip_valve (map strip_valve stages) ≡ map strip_valve stages
strip_valve_idem [] = refl
strip_valve_idem (s ∷ stages) = rw (strip_idem s.valve, strip_valve_idem stages) refl

strip_gas_idem :
    (stages : List VcdGasBackfillStage)
    → map strip_gas (map strip_gas stages) ≡ map strip_gas stages
strip_gas_idem [] = refl
strip_gas_idem (s ∷ stages) = rw (strip_idem s.gas, strip_gas_idem stages) refl

strip_operation_idem : (v : VcdOperation) → strip_operation (strip_operation v) ≡ strip_operation v
strip_operation_idem v =
    rw (strip_valve_idem v.vcd_stages, strip_gas_idem v.gas_backfill_stages) refl

-- An operation is the one that was validated, or the same with its texts stripped.
abbrev settled_operation : ProcessOperation → ProcessOperation
settled_operation (vcd_operation v) = vcd_operation (strip_operation v)
settled_operation (sputtering_operation p) =
    sputtering_operation (record p { gas1 = strip p.gas1; gas2 = strip p.gas2 })
settled_operation o = o

-- A check in front of a fixed result.
checked_result {ℓ κ} :
    {E : Type ℓ} {A : Type κ} (m : Check E) (x y : A)
    → (m >> ok x) ≡ ok y
    → (y ≡ x) × ((m >> ok x) ≡ ok x)
checked_result (ok tt) x y e = let same : x ≡ y = cc in (sym same, refl)
checked_result (err reason) x y e = absurd cc

-- A check in front of a result that a function then wraps.
wrapped_result {ℓ κ μ} :
    {E : Type ℓ} {A : Type κ} {B : Type μ} (m : Check E) (x : A) (wrap : A → B) (y : B)
    → ((m >> ok x) >>= λ valid. ok (wrap valid)) ≡ ok y
    → (y ≡ wrap x) × (m ≡ ok tt)
wrapped_result (ok tt) x wrap y e = let same : wrap x ≡ y = cc in (sym same, refl)
wrapped_result (err reason) x wrap y e = absurd cc

validate_operation-settled :
    (o valid : ProcessOperation)
    → validate_operation o ≡ ok valid
    → (valid ≡ settled_operation o)
      × (validate_operation (settled_operation o) ≡ ok (settled_operation o))
unfolding validate_operation validate_process
validate_operation-settled (spin_coating_operation steps) valid e =
    checked_result _ (spin_coating_operation steps) valid e
validate_operation-settled (annealing_operation steps) valid e =
    checked_result _ (annealing_operation steps) valid e
validate_operation-settled (vcd_operation v) valid e =
    let (checked, last) =
      >>-eq-ok (check_vcd_operation (strip_operation v)) (ok (vcd_operation (strip_operation v)))
        e in
    (cc, rw (strip_operation_idem v, checked) refl)
validate_operation-settled (sputtering_operation p) valid e =
    let (same, passed) =
      wrapped_result _ (sputter (record p { gas1 = strip p.gas1; gas2 = strip p.gas2 }))
        (λ v. sputtering_operation (sputtering_of v p)) valid e in
    (same, rw (passed, strip_idem p.gas1, strip_idem p.gas2) refl)
validate_operation-settled (evaporation_operation p) valid e =
    let (same, passed) = wrapped_result _ (evaporate p) (λ _. evaporation_operation p) valid e in
    (same, rw passed refl)
validate_operation-settled (ald_operation p) valid e =
    let (same, passed) = wrapped_result _ (deposit p) (λ _. ald_operation p) valid e in
    (same, rw passed refl)

validate_operation-Settles : Settles validate_operation
validate_operation-Settles o valid e =
    let (same, again) = validate_operation-settled o valid e in
    subst (λ v. validate_operation v ≡ ok v) (sym same) again

-- A process snapshot that `validate_process_snapshot` returned is returned unchanged when it is
-- validated again, under the same expectation of the method.
pub validate_process_snapshot_idem :
    (expected : Option String) (o t : ProcessOperation)
    → validate_process_snapshot expected o ≡ ok t
    → validate_process_snapshot expected t ≡ ok t
unfolding validate_process_snapshot
validate_process_snapshot_idem expected o t e =
    let finish = λ (operation : ProcessOperation).
      raise_if (differs expected (operation_method operation)) method_differs
      >> (complete_operation operation >> ok operation) in
    let (operation, valid, e1) = >>=-eq-ok (or_refused (validate_operation o)) finish e in
    let (agrees, e2) =
      >>-eq-ok (raise_if (differs expected (operation_method operation)) method_differs)
        (complete_operation operation >> ok operation) e1 in
    let (complete, e3) = >>-eq-ok (complete_operation operation) (ok operation) e2 in
    let same : t ≡ operation = cc in
    let again : validate_operation operation ≡ ok operation =
      validate_operation-Settles o operation
        (or_refused-eq-ok (validate_operation o) operation valid) in
    subst (λ t. validate_process_snapshot expected t ≡ ok t) (sym same)
      (rw (again, agrees, complete) refl)
