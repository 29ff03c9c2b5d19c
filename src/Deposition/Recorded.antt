-- ===== src/Deposition/Recorded.antt =====
-- `validate_deposition_process` returns only processes in which every step is recorded, and so the
-- recipe that the process flattens to passes the checks of the recipe class.
use perovskite_fabrication_w.Prelude.{
  ℕ, suc, ◌≤◌, List, [], ◌∷◌, true, false, not, ◌||◌, ◌≡◌, refl, sym, subst, arith, ok, ◌>>◌,
  >>-ok_iff, >>-eq-ok, >>=-eq-ok, raise_if, raise_if-not_iff, All, All-zip, all, all_sound, map,
  length, is_none, for_each, enumerate, enumerate_check,
}
use perovskite_fabrication_w.Prelude.Text.{strip, strip_idem}
use perovskite_fabrication_w.Prelude.Sets.{to_set, lists_each_once}
use perovskite_fabrication_w.Recipe.Data.{
  SpinStep, AnnealStep, VcdStage, VcdGasBackfillStage, PerovskiteDepositionProcess,
}
use perovskite_fabrication_w.Recipe.Errors.{
  field_bound, step_sequence_mismatch, gas_backfill_incomplete, pvk_spin_incomplete,
  pvk_anneal_incomplete,
}
use perovskite_fabrication_w.Recipe.Layer.{spin_step_in_bounds, anneal_step_in_bounds}
use perovskite_fabrication_w.Recipe.Process
use perovskite_fabrication_w.Recipe.Process.{
  RawProcess, build_process, strip_gas, strip_valve, step_names, process_fields_valid,
  vcd_stage_in_bounds, gas_stage_in_bounds, validate_perovskite_process, validate_vcd_step_sequence,
  validate_deposition_process, vcd_stage_check, require_complete_deposition_process,
  require_complete_gas_backfill_stages, is_vcd_valve,
}
use perovskite_fabrication_w.Deposition.Data.{DepositionRecipe}
use perovskite_fabrication_w.Deposition.Checks.{post_init}
use perovskite_fabrication_w.Deposition.Flatten.{flatten, deposition_recipe_from_process}
use perovskite_fabrication_w.Deposition.Stages.{
  IsSpinStep, IsAnnealStep, IsVcdStage, IsGasStage, flow_fits,
}
use perovskite_fabrication_w.Deposition.Accepts.{IsRecorded, pressure_fits, post_init-flatten}

module _ (p : PerovskiteDepositionProcess)
    (complete : require_complete_deposition_process "" p ≡ ok tt) where
  record Loops : Type 0 where
    spins : All (λ s. Process.spin_step_incomplete s ≡ false) p.spin_steps
    stages : for_each (enumerate 1 p.vcd_stages) (vcd_stage_check "") ≡ ok tt
    backfills : All (λ s. Process.gas_stage_incomplete s ≡ false) p.gas_backfill_stages
    anneals : All (λ s. Process.anneal_step_incomplete s ≡ false) p.anneal_steps

  loops : Loops
  unfolding require_complete_deposition_process require_complete_gas_backfill_stages
  loops =
      let spin_loop =
        for_each (enumerate 1 p.spin_steps)
          (λ e. raise_if (Process.spin_step_incomplete e.1) (pvk_spin_incomplete "" e.0)) in
      let stage_loop = for_each (enumerate 1 p.vcd_stages) (vcd_stage_check "") in
      let gas_loop =
        for_each (enumerate 1 p.gas_backfill_stages)
          (λ e. raise_if (Process.gas_stage_incomplete e.1) (gas_backfill_incomplete "" e.0)) in
      let anneal_loop =
        for_each (enumerate 1 p.anneal_steps)
          (λ e. raise_if (Process.anneal_step_incomplete e.1) (pvk_anneal_incomplete "" e.0)) in
      let (a, rest) = (>>-ok_iff spin_loop (stage_loop >> (gas_loop >> anneal_loop))).0 complete in
      let (b, rest') = (>>-ok_iff stage_loop (gas_loop >> anneal_loop)).0 rest in
      let (c, d) = (>>-ok_iff gas_loop anneal_loop).0 rest' in
      record {
        spins =
            enumerate_check Process.spin_step_incomplete (pvk_spin_incomplete "") 1 p.spin_steps a;
        stages = b;
        backfills =
            enumerate_check Process.gas_stage_incomplete (gas_backfill_incomplete "") 1
              p.gas_backfill_stages c;
        anneals =
            enumerate_check Process.anneal_step_incomplete (pvk_anneal_incomplete "") 1
              p.anneal_steps d;
      }

vcd_values :
    (index : ℕ) (xs : List VcdStage)
    → for_each (enumerate index xs) (vcd_stage_check "") ≡ ok tt
    → All
        (λ s.
          (is_vcd_valve s.valve ≡ true) × ((is_none s.pressure_pa || is_none s.seconds) ≡ false))
        xs
vcd_values index [] h = tt
vcd_values index (x ∷ xs) h =
    let (now, later) =
      (>>-ok_iff (vcd_stage_check "" (index, x))
          (for_each (enumerate (suc index) xs) (vcd_stage_check ""))).0
        h in
    ((ground arith, ground arith), vcd_values (suc index) xs later)

stripped_gases : (xs : List VcdGasBackfillStage) → All (λ s. strip s.gas ≡ s.gas) (map strip_gas xs)
stripped_gases [] = tt
stripped_gases (x ∷ xs) = (strip_idem x.gas, stripped_gases xs)

stripped :
    (raw : RawProcess) → All (λ s. strip s.gas ≡ s.gas) (build_process raw).gas_backfill_stages
unfolding build_process
stripped raw = stripped_gases raw.gas_backfill_stages

-- The parts of the bounds test.
record Bounds (p : PerovskiteDepositionProcess) : Type 0 where
  spins : all spin_step_in_bounds p.spin_steps ≡ true
  stages : all vcd_stage_in_bounds p.vcd_stages ≡ true
  backfills : all gas_stage_in_bounds p.gas_backfill_stages ≡ true
  anneals : all anneal_step_in_bounds p.anneal_steps ≡ true
  spin_number : (1 ≤ length p.spin_steps) × (length p.spin_steps ≤ 4)
  stage_number : (1 ≤ length p.vcd_stages) × (length p.vcd_stages ≤ 5)
  backfill_number : length p.gas_backfill_stages ≤ 5
  anneal_number : (1 ≤ length p.anneal_steps) × (length p.anneal_steps ≤ 2)

fields-Bounds : (p : PerovskiteDepositionProcess) → process_fields_valid p ≡ true → Bounds p
unfolding process_fields_valid
fields-Bounds p h = record {
  spins = ground arith;
  stages = ground arith;
  backfills = ground arith;
  anneals = ground arith;
  spin_number = (ground arith, ground arith);
  stage_number = (ground arith, ground arith);
  backfill_number = ground arith;
  anneal_number = (ground arith, ground arith);
}

spin_step :
    (s : SpinStep)
    → Process.spin_step_incomplete s ≡ false
    → spin_step_in_bounds s ≡ true
    → IsSpinStep s
unfolding spin_step_in_bounds
spin_step s h k = (h, ground arith, ground arith, ground arith)

anneal_step :
    (s : AnnealStep)
    → Process.anneal_step_incomplete s ≡ false
    → anneal_step_in_bounds s ≡ true
    → IsAnnealStep s
unfolding anneal_step_in_bounds
anneal_step s h k = (h, ground arith, ground arith)

vcd_stage :
    (s : VcdStage)
    → (is_vcd_valve s.valve ≡ true) × ((is_none s.pressure_pa || is_none s.seconds) ≡ false)
    → vcd_stage_in_bounds s ≡ true
    → IsVcdStage s
unfolding vcd_stage_in_bounds
vcd_stage s h k = (h.0, h.1, ground arith, ground arith)

gas_stage :
    (s : VcdGasBackfillStage)
    → (Process.gas_stage_incomplete s ≡ false) × (strip s.gas ≡ s.gas)
    → gas_stage_in_bounds s ≡ true
    → IsGasStage s
unfolding gas_stage_in_bounds
gas_stage s h k = (h.0, h.1, ground arith, ground arith, ground arith)

-- What `validate_deposition_process` has checked when it returns.
record Accepted (raw : RawProcess) (p : PerovskiteDepositionProcess) : Type 0 where
  built : build_process raw ≡ p
  fields : process_fields_valid p ≡ true
  sequence :
      lists_each_once p.vcd_step_sequence (to_set (step_names p.vcd_stages p.gas_backfill_stages))
      ≡ true
  complete : require_complete_deposition_process "" p ≡ ok tt

built_process :
    (raw : RawProcess) (q : PerovskiteDepositionProcess)
    → validate_perovskite_process raw ≡ ok q
    → require_complete_deposition_process "" q ≡ ok tt
    → Accepted raw q
unfolding validate_perovskite_process validate_vcd_step_sequence
built_process raw q h complete =
    let b = build_process raw in
    let names = to_set (step_names b.vcd_stages b.gas_backfill_stages) in
    let fields = raise_if (not (process_fields_valid b)) (field_bound "deposition_process") in
    let (f, rest) = >>-eq-ok fields (validate_vcd_step_sequence b >> ok b) h in
    let (t, same) = >>-eq-ok (validate_vcd_step_sequence b) (ok b) rest in
    let e : b ≡ q = cc in
    subst (Accepted raw) e (record {
      built = refl;
      fields = (raise_if-not_iff (process_fields_valid b) (field_bound "deposition_process")).0 f;
      sequence =
          (raise_if-not_iff (lists_each_once b.vcd_step_sequence names) step_sequence_mismatch).0 t;
      complete = subst (λ x. require_complete_deposition_process "" x ≡ ok tt) (sym e) complete;
    })

accepted :
    (raw : RawProcess) (p : PerovskiteDepositionProcess)
    → validate_deposition_process raw ≡ ok p
    → Accepted raw p
unfolding validate_deposition_process
accepted raw p h =
    let (q, built, rest) =
      >>=-eq-ok (validate_perovskite_process raw)
        (λ q. require_complete_deposition_process "" q >> ok q) h in
    let (complete, same) = >>-eq-ok (require_complete_deposition_process "" q) (ok q) rest in
    let e : q ≡ p = cc in subst (Accepted raw) e (built_process raw q built complete)

pub validate_deposition_process-IsRecorded :
    (raw : RawProcess) (p : PerovskiteDepositionProcess)
    → validate_deposition_process raw ≡ ok p
    → IsRecorded p
validate_deposition_process-IsRecorded raw p h =
    let a = accepted raw p h in
    let l = loops p a.complete in
    let b = fields-Bounds p a.fields in
    record {
      spins =
          All-zip spin_step p.spin_steps l.spins
            (all_sound spin_step_in_bounds p.spin_steps b.spins);
      stages =
          All-zip vcd_stage p.vcd_stages (vcd_values 1 p.vcd_stages l.stages)
            (all_sound vcd_stage_in_bounds p.vcd_stages b.stages);
      backfills =
          All-zip gas_stage p.gas_backfill_stages
            (All-zip (λ s x y. (x, y)) p.gas_backfill_stages l.backfills
              (subst (λ q. All (λ s. strip s.gas ≡ s.gas) q.gas_backfill_stages) a.built
                (stripped raw)))
            (all_sound gas_stage_in_bounds p.gas_backfill_stages b.backfills);
      anneals =
          All-zip anneal_step p.anneal_steps l.anneals
            (all_sound anneal_step_in_bounds p.anneal_steps b.anneals);
      spin_number = b.spin_number;
      stage_number = b.stage_number;
      backfill_number = b.backfill_number;
      anneal_number = b.anneal_number;
      sequence = a.sequence;
    }

-- The parts of a process that are built keep the pressures and the flows that are given.
pressures_kept :
    (xs : List VcdStage)
    → All (λ s. pressure_fits s ≡ true) xs
    → All (λ s. pressure_fits s ≡ true) (map strip_valve xs)
pressures_kept [] a = tt
pressures_kept (x ∷ xs) a = (a.0, pressures_kept xs a.1)

flows_kept :
    (xs : List VcdGasBackfillStage)
    → All (λ s. flow_fits s ≡ true) xs
    → All (λ s. flow_fits s ≡ true) (map strip_gas xs)
flows_kept [] a = tt
flows_kept (x ∷ xs) a = (a.0, flows_kept xs a.1)

built_fits :
    (raw : RawProcess)
    → All (λ s. pressure_fits s ≡ true) raw.vcd_stages
    → All (λ s. flow_fits s ≡ true) raw.gas_backfill_stages
    → All (λ s. pressure_fits s ≡ true) (build_process raw).vcd_stages
      × All (λ s. flow_fits s ≡ true) (build_process raw).gas_backfill_stages
unfolding build_process
built_fits raw pressures flows =
    (pressures_kept raw.vcd_stages pressures, flows_kept raw.gas_backfill_stages flows)

-- The flat recipe of a validated process passes the checks of the recipe class, which keep it as
-- it is, its step sequence included, when a float holds each gas flow and the hundredth of each
-- pressure: those checks divide the pressures, and convert the flows.
pub post_init-from_process :
    (raw : RawProcess) (r : DepositionRecipe)
    → deposition_recipe_from_process raw ≡ ok r
    → All (λ s. pressure_fits s ≡ true) raw.vcd_stages
    → All (λ s. flow_fits s ≡ true) raw.gas_backfill_stages
    → post_init r ≡ ok r
unfolding deposition_recipe_from_process
post_init-from_process raw r h pressures flows =
    let (p, valid, same) = >>=-eq-ok (validate_deposition_process raw) (λ p. ok (flatten p)) h in
    let e : flatten p ≡ r = cc in
    let fits =
      subst
        (λ q.
          All (λ s. pressure_fits s ≡ true) q.vcd_stages
          × All (λ s. flow_fits s ≡ true) q.gas_backfill_stages)
        (accepted raw p valid).built (built_fits raw pressures flows) in
    subst (λ q. post_init q ≡ ok q) e
      (post_init-flatten p (validate_deposition_process-IsRecorded raw p valid) fits.0 fits.1)
