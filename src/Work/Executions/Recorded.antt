-- ===== src/Work/Executions/Recorded.antt =====
-- The rows of executions are recorded soundly: after a split, a creation and an update, and a completed
-- execution has an actual snapshot.
use perovskite_fabrication_w.Prelude.{
  ℕ, ◌≡◌, refl, sym, subst, ◌∙◌, String, Option, none, some, Bool, true, false, not, ◌&&◌, ◌||◌, ok,
  ◌>>=◌, >>=-eq-ok, is_none, is_some, inl, inr, Bool-cases, Option-cases, arith,
}
use perovskite_fabrication_w.Snapshots.{ProcessOperation, validate_process_snapshot}
use perovskite_fabrication_w.Snapshots.Settled.{validate_process_snapshot_idem}
use perovskite_fabrication_w.Batch.Data.{ExecutionStatus}
use perovskite_fabrication_w.Work.Data.{
  RecordingMode, copied_from_plan, entered, ExecutionRow, Tables,
}
use perovskite_fabrication_w.Work.{or_snapshot_refused}
use perovskite_fabrication_w.Work.Recorded.{IsPlanned, IsActual, or_snapshot_refused-eq-ok}
use perovskite_fabrication_w.Work.Executions.{split_execution_row}
use perovskite_fabrication_w.Work.Executions.Recording.{
  NewExecution, process_schema_version, set_equipment, ExecutionUpdate, ActualProcess,
  normalized_actual, completes, set_status, set_notes, set_actual, write_execution, new_execution,
}

abbrev pub is_completed : ExecutionStatus → Bool
is_completed ExecutionStatus.completed = true
is_completed _ = false

module _ (hash : ProcessOperation → String) where
  abbrev pub IsKept : ExecutionRow → Type 0
  IsKept p =
      IsPlanned (validate_process_snapshot (some p.method)) hash p.planned_snapshot p.planned_hash
      × IsActual (validate_process_snapshot (some p.method)) hash process_schema_version
          p.actual_snapshot p.actual_version p.actual_hash p.recording_mode

  abbrev pub is_recorded : ExecutionStatus → Option ProcessOperation → Bool
  is_recorded status actual = not (is_completed status) || is_some actual

  pub record IsExecution (p : ExecutionRow) : Type 0 where
    pub kept : IsKept p
    pub completed_recorded : is_recorded p.status p.actual_snapshot ≡ true

  pub split_execution_row-IsExecution :
      (now new_id next_id : ℕ) (notes : String) (shared : Bool) (source : ExecutionRow)
      → IsExecution source
      → IsExecution (split_execution_row now new_id next_id notes shared source)
  split_execution_row-IsExecution now new_id next_id notes shared source h = record {
    kept = (h.kept.0, (refl, refl, refl));
    completed_recorded = refl;
  }

  pub new_execution-IsExecution :
      (now new_id batch_id : ℕ) (t : Tables) (given : NewExecution) (planned : ProcessOperation)
      → or_snapshot_refused (validate_process_snapshot (some given.method) given.planned)
        ≡ ok planned
      → IsExecution (new_execution hash now new_id batch_id t given planned)
  unfolding new_execution
  new_execution-IsExecution now new_id batch_id t given planned accepted = record {
    kept = (
      record {
        plan_accepted = validate_process_snapshot_idem (some given.method) given.planned planned (
            or_snapshot_refused-eq-ok (validate_process_snapshot (some given.method) given.planned)
              planned accepted);
        plan_hashed = refl;
      },
      (refl, refl, refl),
    );
    completed_recorded = refl;
  }

  -- What an update records was accepted by the validator.
  abbrev IsAccepted : String → Option ActualProcess → Type 0
  IsAccepted method none = Unit
  IsAccepted method (some a) = validate_process_snapshot (some method) a.snapshot ≡ ok a.snapshot

  validated-IsAccepted :
      (method : String) (mode : RecordingMode) (given : ProcessOperation)
      (actual : Option ActualProcess)
      → (or_snapshot_refused (validate_process_snapshot (some method) given) >>= λ snapshot.
          ok (some (record { snapshot = snapshot; mode = mode })))
        ≡ ok actual
      → IsAccepted method actual
  validated-IsAccepted method mode given actual h =
      let (snapshot, accepted, last) =
        >>=-eq-ok (or_snapshot_refused (validate_process_snapshot (some method) given))
          (λ snapshot. ok (some (record { snapshot = snapshot; mode = mode }))) h in
      let same : some (record { snapshot = snapshot; mode = mode }) ≡ actual = cc in
      subst (IsAccepted method) same (
        validate_process_snapshot_idem (some method) given snapshot (
          or_snapshot_refused-eq-ok (validate_process_snapshot (some method) given) snapshot
            accepted))

  entered_or_none :
      (method : String) (given : Option ProcessOperation) (actual : Option ActualProcess)
      → elim given [
        | none ↦ ok none
        | some s ↦
            (or_snapshot_refused (validate_process_snapshot (some method) s) >>= λ snapshot.
            ok (some (record { snapshot = snapshot; mode = entered })))
      ]
        ≡ ok actual
      → IsAccepted method actual
  entered_or_none method none actual h =
      let same : none ≡ actual = cc in subst (IsAccepted method) same tt
  entered_or_none method (some s) actual h = validated-IsAccepted method entered s actual h

  normalized_actual-IsAccepted :
      (p : ExecutionRow) (u : ExecutionUpdate) (actual : Option ActualProcess)
      → normalized_actual p u ≡ ok actual
      → IsAccepted p.method actual
  unfolding normalized_actual
  normalized_actual-IsAccepted p u actual = elim (Bool-cases u.actual_matches_planned) [
    | inl e ↦ rw e (validated-IsAccepted p.method copied_from_plan p.planned_snapshot actual)
    | inr e ↦ rw e (entered_or_none p.method u.actual actual)
  ]

  set_status-IsKept :
      (now : ℕ) (status : Option ExecutionStatus) (p : ExecutionRow)
      → IsKept p
      → IsKept (set_status now status p)
  set_status-IsKept now none p h = h
  set_status-IsKept now (some ExecutionStatus.planned) p h = h
  set_status-IsKept now (some ExecutionStatus.ready) p h = h
  set_status-IsKept now (some ExecutionStatus.running) p h = h
  set_status-IsKept now (some ExecutionStatus.completed) p h = h
  set_status-IsKept now (some ExecutionStatus.failed) p h = h
  set_status-IsKept now (some ExecutionStatus.cancelled) p h = h

  -- A status that is set is that of a recorded row, if the code let it be set.
  set_status-recorded :
      (now : ℕ) (status : Option ExecutionStatus) (p : ExecutionRow)
      → (completes status && is_none p.actual_snapshot) ≡ false
      → is_recorded p.status p.actual_snapshot ≡ true
      → is_recorded (set_status now status p).status (set_status now status p).actual_snapshot
        ≡ true
  set_status-recorded now none p let_in h = h
  set_status-recorded now (some ExecutionStatus.planned) p let_in h = refl
  set_status-recorded now (some ExecutionStatus.ready) p let_in h = refl
  set_status-recorded now (some ExecutionStatus.running) p let_in h = refl
  set_status-recorded now (some ExecutionStatus.completed) p let_in h =
      elim (Option-cases p.actual_snapshot) [
        | inl none_yet ↦ let met : is_none p.actual_snapshot ≡ true = rw none_yet refl in cc
        | inr (s, given) ↦ rw given refl
      ]
  set_status-recorded now (some ExecutionStatus.failed) p let_in h = refl
  set_status-recorded now (some ExecutionStatus.cancelled) p let_in h = refl

  set_equipment-IsExecution :
      (given : Option String) (p : ExecutionRow)
      → IsExecution p
      → IsExecution (set_equipment given p)
  set_equipment-IsExecution none p h = h
  set_equipment-IsExecution (some given) p h = record {
    kept = h.kept;
    completed_recorded = h.completed_recorded;
  }

  -- The method does not change, so the validator stays the same.
  set_status-method :
      (now : ℕ) (status : Option ExecutionStatus) (p : ExecutionRow)
      → (set_status now status p).method ≡ p.method
  set_status-method now none p = refl
  set_status-method now (some ExecutionStatus.planned) p = refl
  set_status-method now (some ExecutionStatus.ready) p = refl
  set_status-method now (some ExecutionStatus.running) p = refl
  set_status-method now (some ExecutionStatus.completed) p = refl
  set_status-method now (some ExecutionStatus.failed) p = refl
  set_status-method now (some ExecutionStatus.cancelled) p = refl

  set_equipment-IsKept :
      (given : Option String) (p : ExecutionRow)
      → IsKept p
      → IsKept (set_equipment given p) × ((set_equipment given p).method ≡ p.method)
  set_equipment-IsKept none p h = (h, refl)
  set_equipment-IsKept (some given) p h = (h, refl)

  set_notes-IsKept :
      (notes : Option String) (p : ExecutionRow)
      → IsKept p
      → IsKept (set_notes notes p) × ((set_notes notes p).method ≡ p.method)
  set_notes-IsKept none p h = (h, refl)
  set_notes-IsKept (some notes) p h = (h, refl)

  set_notes-IsExecution :
      (notes : Option String) (p : ExecutionRow) → IsExecution p → IsExecution (set_notes notes p)
  set_notes-IsExecution none p h = h
  set_notes-IsExecution (some notes) p h = record {
    kept = h.kept;
    completed_recorded = h.completed_recorded;
  }

  set_actual-IsExecution :
      (now actor : ℕ) (a : ActualProcess) (p : ExecutionRow)
      → IsAccepted p.method (some a)
      → IsKept p
      → IsExecution (set_actual hash now actor (some a) p)
  set_actual-IsExecution now actor a p accepted h = record {
    kept = (h.0, (accepted, refl, refl, refl));
    completed_recorded = ground arith;
  }

  -- The update keeps the row sound, whatever it is asked to write.
  pub write_execution-IsExecution :
      (now actor : ℕ) (u : ExecutionUpdate) (actual : Option ActualProcess) (p : ExecutionRow)
      → normalized_actual p u ≡ ok actual
      → (completes u.status && is_none actual && is_none p.actual_snapshot) ≡ false
      → IsExecution p
      → IsExecution (write_execution hash now actor u actual p)
  unfolding write_execution
  write_execution-IsExecution now actor u none p accepted let_in h =
      let q = record p { updated_at = now } in
      let q1 = set_status now u.status q in
      set_notes-IsExecution u.notes (set_equipment u.equipment_identifier q1) (
        set_equipment-IsExecution u.equipment_identifier q1 (record {
          kept = set_status-IsKept now u.status q h.kept;
          completed_recorded =
              set_status-recorded now u.status q (ground (arith, let_in)) h.completed_recorded;
        }))
  write_execution-IsExecution now actor u (some a) p accepted let_in h =
      let q = record p { updated_at = now } in
      let q1 = set_status now u.status q in
      let (kept2, method2) =
        set_equipment-IsKept u.equipment_identifier q1 (set_status-IsKept now u.status q h.kept) in
      let (kept3, method3) =
        set_notes-IsKept u.notes (set_equipment u.equipment_identifier q1) kept2 in
      let method : (set_notes u.notes (set_equipment u.equipment_identifier q1)).method ≡ p.method =
        method3 ∙ method2 ∙ set_status-method now u.status q in
      set_actual-IsExecution now actor a
        (set_notes u.notes (set_equipment u.equipment_identifier q1))
        (subst (λ m. IsAccepted m (some a)) (sym method)
          (normalized_actual-IsAccepted p u (some a) accepted))
        kept3
