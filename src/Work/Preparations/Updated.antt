-- ===== src/Work/Preparations/Updated.antt =====
-- What an update of a preparation that succeeds has checked, and what it writes.
use perovskite_fabrication_w.Prelude.{
  ℕ, ◌≡◌, refl, sym, ◌∙◌, String, Option, none, some, Bool, false, ◌&&◌, ◌||◌, ok, ◌>>=◌, ◌>>◌,
  >>-eq-ok, >>=-eq-ok, raise_if, raise_if-eq-ok, is_none, is_some,
}
use perovskite_fabrication_w.Recipe.Data.{SolutionRecipe}
use perovskite_fabrication_w.Batch.Data.{UserRole, PreparationStatus}
use perovskite_fabrication_w.Batch.Lifecycle.{preparation_terminal}
use perovskite_fabrication_w.Work.Data.{PreparationRow, BatchRow, Tables}
use perovskite_fabrication_w.Work.Rows.{find_row, alter}
use perovskite_fabrication_w.Work.Rows.Tables.{found-eq-ok}
use perovskite_fabrication_w.Work.{
  unknown_preparation, both_given, transition_refused, actual_required, terminal_immutable, is_open,
  batch_for_actor, with_event,
}
use perovskite_fabrication_w.Work.Preparations.{is_row, find_preparation}
use perovskite_fabrication_w.Work.Preparations.Recording.{
  PreparationUpdate, ActualSolution, normalized_actual, is_elsewhere, transition_fails, consumes,
  set_status, set_notes, write_preparation, update_solution_preparation,
}

module _ (hash : SolutionRecipe → String) where
  set_status-ident :
      (now : ℕ) (status : Option PreparationStatus) (p : PreparationRow)
      → (set_status now status p).ident ≡ p.ident
  set_status-ident now none p = refl
  set_status-ident now (some PreparationStatus.planned) p = refl
  set_status-ident now (some PreparationStatus.preparing) p = refl
  set_status-ident now (some PreparationStatus.ready) p = refl
  set_status-ident now (some PreparationStatus.consumed) p = refl
  set_status-ident now (some PreparationStatus.discarded) p = refl

  set_notes-ident :
      (notes : Option String) (p : PreparationRow) → (set_notes notes p).ident ≡ p.ident
  set_notes-ident none p = refl
  set_notes-ident (some notes) p = refl

  pub write_preparation-ident :
      (now actor : ℕ) (u : PreparationUpdate) (actual : Option ActualSolution) (p : PreparationRow)
      → (write_preparation hash now actor u actual p).ident ≡ p.ident
  unfolding write_preparation
  write_preparation-ident now actor u none p =
      let q = record p { updated_at = now } in
      set_notes-ident u.notes (set_status now u.status q) ∙ set_status-ident now u.status q
  write_preparation-ident now actor u (some a) p =
      let q = record p { updated_at = now } in
      set_notes-ident u.notes (set_status now u.status q) ∙ set_status-ident now u.status q

  module _ (now actor : ℕ) (actor_role : Option UserRole) (t : Tables) (id : ℕ)
      (u : PreparationUpdate) where
    abbrev updated_tables : Option ActualSolution → Tables
    updated_tables actual = with_event actor "solution_preparation.update" id (record t {
      preparations = alter (is_row id) (write_preparation hash now actor u actual) t.preparations;
    })

    -- Anything but the time of the update is to be written.
    abbrev pub writes : Option ActualSolution → Bool
    writes actual = is_some u.status || is_some actual || is_some u.notes

    pub record UpdateDone (t' : Tables) : Type 0 where
      pub existing : PreparationRow
      pub actual : Option ActualSolution
      pub existing_found : find_row (λ p. p.ident) id t.preparations ≡ some existing
      pub accepted : normalized_actual existing u ≡ ok actual
      pub moves : transition_fails existing.status u.status ≡ false
      pub recorded :
          (consumes u.status && is_none actual && is_none existing.actual_snapshot) ≡ false
      pub mutable : (preparation_terminal existing.status && writes actual) ≡ false
      pub written : t' ≡ updated_tables actual

    pub update-UpdateDone :
        (t' : Tables)
        → update_solution_preparation hash now actor actor_role t id u ≡ ok t'
        → UpdateDone t'
    unfolding update_solution_preparation
    update-UpdateDone t' h =
        let elsewhere =
          λ (p : PreparationRow). is_elsewhere u.fabrication_batch_id p.fabrication_batch_id in
        let missing = λ (p : PreparationRow) (a : Option ActualSolution).
          consumes u.status && is_none a && is_none p.actual_snapshot in
        let closed = λ (p : PreparationRow) (a : Option ActualSolution).
          preparation_terminal p.status && writes a in
        let step7 = λ (p : PreparationRow) (a : Option ActualSolution).
          raise_if (closed p a) terminal_immutable >> ok (updated_tables a) in
        let step6 = λ (p : PreparationRow) (a : Option ActualSolution).
          raise_if (missing p a) actual_required >> step7 p a in
        let step5 = λ (p : PreparationRow) (a : Option ActualSolution) (b : BatchRow).
          raise_if (transition_fails p.status u.status) transition_refused >> step6 p a in
        let lock = λ (p : PreparationRow).
          batch_for_actor t p.fabrication_batch_id actor actor_role is_open in
        let step4 = λ (p : PreparationRow) (a : Option ActualSolution). lock p >>= step5 p a in
        let step3 = λ (p : PreparationRow) (a : Option ActualSolution).
          raise_if (elsewhere p) unknown_preparation >> step4 p a in
        let step2 = λ (p : PreparationRow). normalized_actual p u >>= step3 p in
        let (one, h1) =
          >>-eq-ok (raise_if (is_some u.actual && u.actual_matches_planned) both_given)
            (find_preparation t id >>= step2) h in
        let (existing, existing_ok, h2) = >>=-eq-ok (find_preparation t id) step2 h1 in
        let (actual, actual_ok, h3) =
          >>=-eq-ok (normalized_actual existing u) (step3 existing) h2 in
        let (here, h4) =
          >>-eq-ok (raise_if (elsewhere existing) unknown_preparation) (step4 existing actual) h3 in
        let (locked, lock_ok, h5) = >>=-eq-ok (lock existing) (step5 existing actual) h4 in
        let (moves, h6) =
          >>-eq-ok (raise_if (transition_fails existing.status u.status) transition_refused)
            (step6 existing actual) h5 in
        let (present, h7) =
          >>-eq-ok (raise_if (missing existing actual) actual_required) (step7 existing actual)
            h6 in
        let (mutable, last) =
          >>-eq-ok (raise_if (closed existing actual) terminal_immutable)
            (ok (updated_tables actual)) h7 in
        let same : updated_tables actual ≡ t' = cc in
        record {
          existing = existing;
          actual = actual;
          existing_found = found-eq-ok unknown_preparation _ existing existing_ok;
          accepted = actual_ok;
          moves =
              raise_if-eq-ok (transition_fails existing.status u.status) transition_refused moves;
          recorded = raise_if-eq-ok (missing existing actual) actual_required present;
          mutable = raise_if-eq-ok (closed existing actual) terminal_immutable mutable;
          written = sym same;
        }
