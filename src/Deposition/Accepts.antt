-- ===== src/Deposition/Accepts.antt =====
-- The recipe that a complete process flattens to passes the checks of the recipe class.
use perovskite_fabrication_w.Prelude.{
  ℕ, zero, suc, ◌≤◌, String, Option, none, some, List, [], ◌∷◌, ◌++◌, Bool, true, false, not, ◌&&◌,
  ◌≡◌, refl, sym, ap, ◌∙◌, arith, ok, ◌>>◌, ◌>>=◌, raise_if, All, length, is_none, map,
}
use mathlib.Core.Path.{ap₂}
use perovskite_fabrication_w.Prelude.Sets.{to_set, lists_each_once}
use perovskite_fabrication_w.Recipe.Data.{
  SpinStep, AnnealStep, VcdStage, PerovskiteDepositionProcess,
}
use perovskite_fabrication_w.Recipe.Process
use perovskite_fabrication_w.Recipe.Process.{
  RawProcess, step_names, process_fields_valid, is_vcd_valve, require_complete_deposition_process,
  validate_perovskite_process, validate_deposition_process, vcd_stage_name, gas_backfill_stage_name,
  names_from,
}
use perovskite_fabrication_w.Deposition.Data.{
  Value, null, supplied, DepositionRecipe, vcd_stages, gas_backfill_stages,
}
use perovskite_fabrication_w.Deposition.Checks.{
  validate_optional_spin_stage, validate_spin_parameters, vcd_stage_loop, gas_stage_loop,
  supplied_names, expected_steps, step_sequence, validate_vcd_step_sequence, validate_anneal_stage2,
  canonicalize_vcd_pressure, canonicalize_vcd_pressures, quotient_overflows, validate_context,
  require_positive_integer, post_init, requires_previous,
}
use perovskite_fabrication_w.Deposition.Flatten.{
  get_elem?, spin_fields, vcd_fields, gas_fields, anneal_fields, flatten,
}
use perovskite_fabrication_w.Deposition.Stages.{
  IsSpinStep, IsAnnealStep, IsVcdStage, IsGasStage, flow_fits, pad, pad-five, spin_ok, vcd_loop_ok,
  gas_loop_ok, names_rest, spin_none, positive_ok,
}

-- The supplied names of padded stages are the names of the stages.
supplied_names-pad :
    {A : Type 0} (g : Option A → Value) (name : ℕ → String) (n index : ℕ) (xs : List A)
    → g none ≡ null
    → ((x : A) → supplied (g (some x)) ≡ true)
    → length xs ≤ n
    → supplied_names name index (map g (pad n xs)) ≡ names_from name index xs
unfolding supplied_names
supplied_names-pad g name zero index [] e f le = refl
supplied_names-pad g name zero index (x ∷ xs) e f le = absurd (omega arith)
supplied_names-pad {A} g name (suc n) index [] e f le = names_rest {A = A} g name (suc n) index e
supplied_names-pad g name (suc n) index (x ∷ xs) e f le =
    rw (f x)
      (ap (λ l. name index ∷ l) (supplied_names-pad g name n (suc index) xs e f (omega arith)))

-- A process in which every step has its values, in their bounds.
pub record IsRecorded (p : PerovskiteDepositionProcess) : Type 0 where
  pub spins : All IsSpinStep p.spin_steps
  pub stages : All IsVcdStage p.vcd_stages
  pub backfills : All IsGasStage p.gas_backfill_stages
  pub anneals : All IsAnnealStep p.anneal_steps
  pub spin_number : (1 ≤ length p.spin_steps) × (length p.spin_steps ≤ 4)
  pub stage_number : (1 ≤ length p.vcd_stages) × (length p.vcd_stages ≤ 5)
  pub backfill_number : length p.gas_backfill_stages ≤ 5
  pub anneal_number : (1 ≤ length p.anneal_steps) × (length p.anneal_steps ≤ 2)
  pub sequence :
      lists_each_once p.vcd_step_sequence (to_set (step_names p.vcd_stages p.gas_backfill_stages))
      ≡ true

spin_values :
    (s : SpinStep)
    → Process.spin_step_incomplete s ≡ false
    → (is_none s.rpm ≡ false)
      × (is_none s.seconds ≡ false)
      × (is_none s.acceleration_rpm_per_s ≡ false)
spin_values s h = ground arith

spins_ok :
    (r : DepositionRecipe) (xs : List SpinStep)
    → r.spin_cast ≡ spin_fields (get_elem? xs 0)
    → r.spin_spread ≡ spin_fields (get_elem? xs 1)
    → r.spin_thin ≡ spin_fields (get_elem? xs 2)
    → r.spin_stage4 ≡ spin_fields (get_elem? xs 3)
    → 1 ≤ length xs
    → All IsSpinStep xs
    → validate_spin_parameters r ≡ ok tt
unfolding validate_spin_parameters
spins_ok r [] p0 p1 p2 p3 h a = absurd (omega arith)
spins_ok r (x ∷ xs) p0 p1 p2 p3 h a =
    let (v0, v1, v2) = spin_values x a.0.0 in
    rw
      (
        p0,
        p1,
        p2,
        p3,
        positive_ok "spin_cast" x.rpm v0 a.0.1,
        positive_ok "spin_cast" x.seconds v1 a.0.2,
        positive_ok "spin_cast" x.acceleration_rpm_per_s v2 a.0.3,
      )
      (later xs a.1)
  where
    later :
        (ys : List SpinStep)
        → All IsSpinStep ys
        → (do
          has_spread ← validate_optional_spin_stage "spin_spread" (spin_fields (get_elem? ys 0))
          has_thin ← validate_optional_spin_stage "spin_thin" (spin_fields (get_elem? ys 1))
          has_stage4 ← validate_optional_spin_stage "spin_stage4" (spin_fields (get_elem? ys 2))
          raise_if (has_thin && not has_spread) (requires_previous "spin_thin")
          raise_if (has_stage4 && not has_thin) (requires_previous "spin_stage4"))
          ≡ ok tt
    later [] b = rw (spin_none "spin_spread", spin_none "spin_thin", spin_none "spin_stage4")
    later (y ∷ []) b =
        rw (spin_ok "spin_spread" y b.0, spin_none "spin_thin", spin_none "spin_stage4")
    later (y ∷ z ∷ []) b =
        rw (spin_ok "spin_spread" y b.0, spin_ok "spin_thin" z b.1.0, spin_none "spin_stage4")
    later (y ∷ z ∷ w ∷ ys) b =
        rw (
          spin_ok "spin_spread" y b.0,
          spin_ok "spin_thin" z b.1.0,
          spin_ok "spin_stage4" w b.1.1.0,
        )

anneal_values :
    (s : AnnealStep)
    → Process.anneal_step_incomplete s ≡ false
    → (is_none s.temperature_c ≡ false) × (is_none s.seconds ≡ false)
anneal_values s h = ground arith

anneal2_ok :
    (xs : List AnnealStep)
    → All IsAnnealStep xs
    → validate_anneal_stage2 (anneal_fields (get_elem? xs 1)) ≡ ok tt
unfolding validate_anneal_stage2
anneal2_ok [] a = refl
anneal2_ok (x ∷ []) a = refl
anneal2_ok (x ∷ y ∷ xs) a = ground arith

anneal1_ok :
    (xs : List AnnealStep)
    → 1 ≤ length xs
    → All IsAnnealStep xs
    → (require_positive_integer "anneal_stage1" (anneal_fields (get_elem? xs 0)).temperature_c
        ≡ ok tt)
      × (require_positive_integer "anneal_stage1" (anneal_fields (get_elem? xs 0)).seconds ≡ ok tt)
anneal1_ok [] h a = absurd (omega arith)
anneal1_ok (x ∷ xs) h a =
    let (v0, v1) = anneal_values x a.0.0 in
    (
      positive_ok "anneal_stage1" x.temperature_c v0 a.0.1,
      positive_ok "anneal_stage1" x.seconds v1 a.0.2,
    )

-- A pressure whose hundredth a float holds.
abbrev pub pressure_fits : VcdStage → Bool
pressure_fits s = elim s.pressure_pa [ none ↦ true | some n ↦ not (quotient_overflows n) ]

pressure_ok :
    (name : String) (s : VcdStage)
    → pressure_fits s ≡ true
    → canonicalize_vcd_pressure name (vcd_fields (some s)).pressure_pa ≡ ok tt
unfolding canonicalize_vcd_pressure
pressure_ok name s h = ground arith

no_pressure : (name : String) → canonicalize_vcd_pressure name null ≡ ok tt
unfolding canonicalize_vcd_pressure
no_pressure name = refl

pressures_ok :
    (r : DepositionRecipe) (xs : List VcdStage)
    → r.vcd_stage1 ≡ vcd_fields (get_elem? xs 0)
    → r.vcd_stage2 ≡ vcd_fields (get_elem? xs 1)
    → r.vcd_stage3 ≡ vcd_fields (get_elem? xs 2)
    → All (λ s. pressure_fits s ≡ true) xs
    → canonicalize_vcd_pressures r ≡ ok tt
unfolding canonicalize_vcd_pressures
pressures_ok r [] p0 p1 p2 a =
    rw (p0, p1, p2, no_pressure "vcd_stage1", no_pressure "vcd_stage2", no_pressure "vcd_stage3")
pressures_ok r (x ∷ []) p0 p1 p2 a =
    rw (
      p0,
      p1,
      p2,
      pressure_ok "vcd_stage1" x a.0,
      no_pressure "vcd_stage2",
      no_pressure "vcd_stage3",
    )
pressures_ok r (x ∷ y ∷ []) p0 p1 p2 a = rw (
  p0,
  p1,
  p2,
  pressure_ok "vcd_stage1" x a.0,
  pressure_ok "vcd_stage2" y a.1.0,
  no_pressure "vcd_stage3",
)
pressures_ok r (x ∷ y ∷ z ∷ xs) p0 p1 p2 a = rw (
  p0,
  p1,
  p2,
  pressure_ok "vcd_stage1" x a.0,
  pressure_ok "vcd_stage2" y a.1.0,
  pressure_ok "vcd_stage3" z a.1.1.0,
)

module _ (p : PerovskiteDepositionProcess) (h : IsRecorded p)
    (pressures : All (λ s. pressure_fits s ≡ true) p.vcd_stages)
    (flows : All (λ s. flow_fits s ≡ true) p.gas_backfill_stages) where
  stages_ok : vcd_stage_loop 1 true (vcd_stages (flatten p)) ≡ ok tt
  unfolding flatten
  stages_ok =
      rw (← pad-five vcd_fields p.vcd_stages)
        (vcd_loop_ok 5 1 p.vcd_stages (omega arith) (omega (arith, h.stage_number)) h.stages)

  backfills_ok : gas_stage_loop 1 true (gas_backfill_stages (flatten p)) ≡ ok tt
  unfolding flatten
  backfills_ok =
      rw (← pad-five gas_fields p.gas_backfill_stages)
        (gas_loop_ok 5 1 p.gas_backfill_stages h.backfills flows)

  expected_steps-flatten :
      expected_steps (flatten p) ≡ step_names p.vcd_stages p.gas_backfill_stages
  unfolding expected_steps flatten step_names
  expected_steps-flatten =
      ap₂ (λ xs ys. xs ++ ys)
        (ap (supplied_names vcd_stage_name 1)
            (sym (pad-five (λ o. (vcd_fields o).valve) p.vcd_stages))
          ∙ supplied_names-pad (λ o. (vcd_fields o).valve) vcd_stage_name 5 1 p.vcd_stages refl
              (λ x. refl) (omega (arith, h.stage_number)))
        (ap (supplied_names gas_backfill_stage_name 1)
            (sym (pad-five (λ o. (gas_fields o).gas) p.gas_backfill_stages))
          ∙ supplied_names-pad (λ o. (gas_fields o).gas) gas_backfill_stage_name 5 1
              p.gas_backfill_stages refl (λ x. refl) h.backfill_number)

  steps_ok : validate_vcd_step_sequence (flatten p) ≡ ok tt
  unfolding validate_vcd_step_sequence step_sequence flatten
  steps_ok = rw (ap to_set expected_steps-flatten) (rw h.sequence)

  -- A recorded process whose values fit flattens to a recipe that the recipe class keeps as it is.
  pub post_init-flatten : post_init (flatten p) ≡ ok (flatten p)
  unfolding post_init flatten step_sequence validate_context
  post_init-flatten =
      let (temperature, seconds) = anneal1_ok p.anneal_steps h.anneal_number.0 h.anneals in
      rw (
        pressures_ok (flatten p) p.vcd_stages refl refl refl pressures,
        spins_ok (flatten p) p.spin_steps refl refl refl refl h.spin_number.0 h.spins,
        stages_ok,
        backfills_ok,
        steps_ok,
        temperature,
        seconds,
        anneal2_ok p.anneal_steps h.anneals,
      )
