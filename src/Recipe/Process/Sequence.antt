-- ===== src/Recipe/Process/Sequence.antt =====
-- The step sequence of a perovskite process lists every stage once, in any order.
use perovskite_fabrication_w.Prelude.{
  ℕ, zero, suc, ◌≤◌, String, List, [], ◌∷◌, ◌++◌, true, ◌≡◌, ◌↔◌, refl, sym, subst, ok, length, ap,
  arith, raise_if-not_iff, at_each, at_each_sound,
}
use perovskite_fabrication_w.Prelude.Sets.{
  to_set, lists_each_once, lists_each_once_iff, no_repeats, to_set-no_repeats,
}
use mathlib.Core.List.{Perm}
use perovskite_fabrication_w.Recipe.Data.{
  VcdStage, VcdGasBackfillStage, PerovskiteDepositionProcess,
}
use perovskite_fabrication_w.Recipe.Errors.{step_sequence_mismatch}
use perovskite_fabrication_w.Recipe.Process.{
  step_names, names_from, vcd_stage_name, gas_backfill_stage_name, validate_vcd_step_sequence,
}

abbrev numbered : (ℕ → String) → ℕ → ℕ → List String
numbered name index zero = []
numbered name index (suc n) = name index ∷ numbered name (suc index) n

names_from-numbered {ℓ} :
    {A : Type ℓ} (name : ℕ → String) (index : ℕ) (xs : List A)
    → names_from name index xs ≡ numbered name index (length xs)
names_from-numbered name index [] = refl
names_from-numbered name index (x ∷ xs) =
    ap (λ l. name index ∷ l) (names_from-numbered name (suc index) xs)

abbrev stage_names : ℕ → ℕ → List String
stage_names v g = numbered vcd_stage_name 1 v ++ numbered gas_backfill_stage_name 1 g

names_table : at_each (λ v. at_each (λ g. no_repeats (stage_names v g)) 6) 6 ≡ true
unfolding at_each no_repeats vcd_stage_name gas_backfill_stage_name
names_table = refl

-- With at most five stages of a kind no name occurs twice.
pub step_names-distinct :
    (vcd : List VcdStage) (gas : List VcdGasBackfillStage)
    → length vcd ≤ 5
    → length gas ≤ 5
    → to_set (step_names vcd gas) ≡ step_names vcd gas
unfolding step_names
step_names-distinct vcd gas hv hg =
    let v = length vcd in
    let g = length gas in
    let row =
      at_each_sound (λ a. at_each (λ b. no_repeats (stage_names a b)) 6) 6 names_table v
        (omega arith) in
    let cell = at_each_sound (λ b. no_repeats (stage_names v b)) 6 row g (omega arith) in
    rw (names_from-numbered vcd_stage_name 1 vcd, names_from-numbered gas_backfill_stage_name 1 gas)
      (to_set-no_repeats (stage_names v g) cell)

-- Within the declared numbers of stages the sequence check passes exactly when the sequence is a
-- reordering of the names of all evacuation and gas backfill stages.
pub validate_vcd_step_sequence_iff :
    (p : PerovskiteDepositionProcess)
    → length p.vcd_stages ≤ 5
    → length p.gas_backfill_stages ≤ 5
    → (validate_vcd_step_sequence p ≡ ok tt)
      ↔ Perm p.vcd_step_sequence (step_names p.vcd_stages p.gas_backfill_stages)
unfolding validate_vcd_step_sequence
validate_vcd_step_sequence_iff p hv hg =
    let names = step_names p.vcd_stages p.gas_backfill_stages in
    let same = step_names-distinct p.vcd_stages p.gas_backfill_stages hv hg in
    let check =
      raise_if-not_iff (lists_each_once p.vcd_step_sequence (to_set names))
        step_sequence_mismatch in
    let once = lists_each_once_iff p.vcd_step_sequence names in
    (
      λ h. subst (Perm p.vcd_step_sequence) same (once.0 (check.0 h)),
      λ q. check.1 (once.1 (subst (Perm p.vcd_step_sequence) (sym same) q)),
    )
