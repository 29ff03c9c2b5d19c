-- ===== src/Work/Preparations/Recorded.antt =====
-- The rows of preparations are recorded soundly: after a split, a creation and an update, and a consumed
-- preparation has an actual snapshot.
use perovskite_fabrication_w.Prelude.{
  ℕ, ◌≡◌, refl, subst, String, Option, none, some, Bool, true, false, not, ◌&&◌, ◌||◌, ok, ◌>>=◌,
  >>=-eq-ok, is_none, is_some, inl, inr, Bool-cases, Option-cases, arith,
}
use perovskite_fabrication_w.Recipe.Data.{SolutionRecipe}
use perovskite_fabrication_w.Snapshots.{validate_solution_snapshot}
use perovskite_fabrication_w.Snapshots.Settled.{validate_solution_snapshot_idem}
use perovskite_fabrication_w.Batch.Data.{PreparationStatus}
use perovskite_fabrication_w.Work.Data.{
  RecordingMode, copied_from_plan, entered, PreparationRow, Tables,
}
use perovskite_fabrication_w.Work.{or_snapshot_refused}
use perovskite_fabrication_w.Work.Recorded.{IsPlanned, IsActual, or_snapshot_refused-eq-ok}
use perovskite_fabrication_w.Work.Preparations.{solution_schema_version, split_row}
use perovskite_fabrication_w.Work.Preparations.Recording.{
  PreparationUpdate, ActualSolution, normalized_actual, consumes, set_status, set_notes, set_actual,
  write_preparation, new_preparation,
}

abbrev pub is_consumed : PreparationStatus → Bool
is_consumed PreparationStatus.consumed = true
is_consumed _ = false

module _ (hash : SolutionRecipe → String) where
  abbrev pub IsKept : PreparationRow → Type 0
  IsKept p =
      IsPlanned validate_solution_snapshot hash p.planned_snapshot p.planned_hash
      × IsActual validate_solution_snapshot hash solution_schema_version p.actual_snapshot
          p.actual_version p.actual_hash p.recording_mode

  abbrev pub is_recorded : PreparationStatus → Option SolutionRecipe → Bool
  is_recorded status actual = not (is_consumed status) || is_some actual

  pub record IsPreparation (p : PreparationRow) : Type 0 where
    pub kept : IsKept p
    pub consumed_recorded : is_recorded p.status p.actual_snapshot ≡ true

  pub split_row-IsPreparation :
      (now new_id next_id : ℕ) (notes : String) (source : PreparationRow)
      → IsPreparation source
      → IsPreparation (split_row now new_id next_id notes source)
  split_row-IsPreparation now new_id next_id notes source h = record {
    kept = (h.kept.0, (refl, refl, refl));
    consumed_recorded = refl;
  }

  pub new_preparation-IsPreparation :
      (now new_id batch_id : ℕ) (t : Tables) (given planned : SolutionRecipe) (notes : String)
      → or_snapshot_refused (validate_solution_snapshot given) ≡ ok planned
      → IsPreparation (new_preparation hash now new_id batch_id t planned notes)
  unfolding new_preparation
  new_preparation-IsPreparation now new_id batch_id t given planned notes accepted = record {
    kept = (
      record {
        plan_accepted =
            validate_solution_snapshot_idem given planned
              (or_snapshot_refused-eq-ok (validate_solution_snapshot given) planned accepted);
        plan_hashed = refl;
      },
      (refl, refl, refl),
    );
    consumed_recorded = refl;
  }

  -- What an update records was accepted by the validator.
  abbrev IsAccepted : Option ActualSolution → Type 0
  IsAccepted none = Unit
  IsAccepted (some a) = validate_solution_snapshot a.snapshot ≡ ok a.snapshot

  validated-IsAccepted :
      (mode : RecordingMode) (given : SolutionRecipe) (actual : Option ActualSolution)
      → (or_snapshot_refused (validate_solution_snapshot given) >>= λ snapshot.
          ok (some (record { snapshot = snapshot; mode = mode })))
        ≡ ok actual
      → IsAccepted actual
  validated-IsAccepted mode given actual h =
      let (snapshot, accepted, last) =
        >>=-eq-ok (or_snapshot_refused (validate_solution_snapshot given))
          (λ snapshot. ok (some (record { snapshot = snapshot; mode = mode }))) h in
      let same : some (record { snapshot = snapshot; mode = mode }) ≡ actual = cc in
      subst IsAccepted same (
        validate_solution_snapshot_idem given snapshot
          (or_snapshot_refused-eq-ok (validate_solution_snapshot given) snapshot accepted))

  entered_or_none :
      (given : Option SolutionRecipe) (actual : Option ActualSolution)
      → elim given [
        | none ↦ ok none
        | some s ↦
            (or_snapshot_refused (validate_solution_snapshot s) >>= λ snapshot.
            ok (some (record { snapshot = snapshot; mode = entered })))
      ]
        ≡ ok actual
      → IsAccepted actual
  entered_or_none none actual h = let same : none ≡ actual = cc in subst IsAccepted same tt
  entered_or_none (some s) actual h = validated-IsAccepted entered s actual h

  normalized_actual-IsAccepted :
      (p : PreparationRow) (u : PreparationUpdate) (actual : Option ActualSolution)
      → normalized_actual p u ≡ ok actual
      → IsAccepted actual
  unfolding normalized_actual
  normalized_actual-IsAccepted p u actual = elim (Bool-cases u.actual_matches_planned) [
    | inl e ↦ rw e (validated-IsAccepted copied_from_plan p.planned_snapshot actual)
    | inr e ↦ rw e (entered_or_none u.actual actual)
  ]

  set_status-IsKept :
      (now : ℕ) (status : Option PreparationStatus) (p : PreparationRow)
      → IsKept p
      → IsKept (set_status now status p)
  set_status-IsKept now none p h = h
  set_status-IsKept now (some PreparationStatus.planned) p h = h
  set_status-IsKept now (some PreparationStatus.preparing) p h = h
  set_status-IsKept now (some PreparationStatus.ready) p h = h
  set_status-IsKept now (some PreparationStatus.consumed) p h = h
  set_status-IsKept now (some PreparationStatus.discarded) p h = h

  -- A status that is set is that of a recorded row, if the code let it be set.
  set_status-recorded :
      (now : ℕ) (status : Option PreparationStatus) (p : PreparationRow)
      → (consumes status && is_none p.actual_snapshot) ≡ false
      → is_recorded p.status p.actual_snapshot ≡ true
      → is_recorded (set_status now status p).status (set_status now status p).actual_snapshot
        ≡ true
  set_status-recorded now none p let_in h = h
  set_status-recorded now (some PreparationStatus.planned) p let_in h = refl
  set_status-recorded now (some PreparationStatus.preparing) p let_in h = refl
  set_status-recorded now (some PreparationStatus.ready) p let_in h = refl
  set_status-recorded now (some PreparationStatus.consumed) p let_in h =
      elim (Option-cases p.actual_snapshot) [
        | inl none_yet ↦ let met : is_none p.actual_snapshot ≡ true = rw none_yet refl in cc
        | inr (s, given) ↦ rw given refl
      ]
  set_status-recorded now (some PreparationStatus.discarded) p let_in h = refl

  set_notes-IsPreparation :
      (notes : Option String) (p : PreparationRow)
      → IsPreparation p
      → IsPreparation (set_notes notes p)
  set_notes-IsPreparation none p h = h
  set_notes-IsPreparation (some notes) p h = record {
    kept = h.kept;
    consumed_recorded = h.consumed_recorded;
  }

  set_notes-IsKept :
      (notes : Option String) (p : PreparationRow) → IsKept p → IsKept (set_notes notes p)
  set_notes-IsKept none p h = h
  set_notes-IsKept (some notes) p h = h

  set_actual-IsPreparation :
      (now actor : ℕ) (a : ActualSolution) (p : PreparationRow)
      → IsAccepted (some a)
      → IsKept p
      → IsPreparation (set_actual hash now actor (some a) p)
  set_actual-IsPreparation now actor a p accepted h = record {
    kept = (h.0, (accepted, refl, refl, refl));
    consumed_recorded = ground arith;
  }

  -- The update keeps the row sound, whatever it is asked to write.
  pub write_preparation-IsPreparation :
      (now actor : ℕ) (u : PreparationUpdate) (actual : Option ActualSolution) (p : PreparationRow)
      → normalized_actual p u ≡ ok actual
      → (consumes u.status && is_none actual && is_none p.actual_snapshot) ≡ false
      → IsPreparation p
      → IsPreparation (write_preparation hash now actor u actual p)
  unfolding write_preparation
  write_preparation-IsPreparation now actor u none p accepted let_in h =
      let q = record p { updated_at = now } in
      set_notes-IsPreparation u.notes (set_status now u.status q) (record {
        kept = set_status-IsKept now u.status q h.kept;
        consumed_recorded =
            set_status-recorded now u.status q (ground (arith, let_in)) h.consumed_recorded;
      })
  write_preparation-IsPreparation now actor u (some a) p accepted let_in h =
      let q = record p { updated_at = now } in
      set_actual-IsPreparation now actor a (set_notes u.notes (set_status now u.status q))
        (normalized_actual-IsAccepted p u (some a) accepted)
        (set_notes-IsKept u.notes (set_status now u.status q)
          (set_status-IsKept now u.status q h.kept))
