-- ===== src/Work/Preparations/Recording.antt =====
-- The creation and the update of a solution preparation: what is planned, and what is recorded of it.
use perovskite_fabrication_w.Prelude.{
  ℕ, suc, String, Option, none, some, Bool, true, false, not, ◌&&◌, ◌||◌, Result, ok, ◌>>=◌, ◌>>◌,
  raise_if, if◌then◌else◌, ◌==◌, is_none, is_some, count,
}
use Prim.Native.String.{◌++◌ as text_append}
use perovskite_fabrication_w.Prelude.Text.{decimal}
use perovskite_fabrication_w.Recipe.Data.{SolutionRecipe}
use perovskite_fabrication_w.Snapshots.{validate_solution_snapshot}
use perovskite_fabrication_w.Batch.Data.{UserRole, PreparationStatus}
use perovskite_fabrication_w.Batch.Lifecycle.{preparation_terminal}
use perovskite_fabrication_w.Work.Data.{
  RecordingMode, copied_from_plan, entered, PreparationRow, Tables,
}
use perovskite_fabrication_w.Work.Rows.{alter, two_digits}
use perovskite_fabrication_w.Work.{
  WorkError, or_snapshot_refused, unknown_preparation, both_given, transition_refused,
  actual_required, terminal_immutable, is_draft, is_open, batch_for_actor, with_event,
  preparation_transition_allowed,
}
use perovskite_fabrication_w.Work.Preparations.{
  solution_schema_version, short_notes, preparation_status_eq, is_row, find_preparation,
  insert_preparation,
}

-- The arguments of an update; `none` is an argument that is not given.
pub record PreparationUpdate : Type 0 where
  pub actual : Option SolutionRecipe
  pub actual_matches_planned : Bool
  pub status : Option PreparationStatus
  pub notes : Option String
  pub fabrication_batch_id : Option ℕ

-- An actual snapshot with the way it was recorded.
pub record ActualSolution : Type 0 where
  pub snapshot : SolutionRecipe
  pub mode : RecordingMode

abbrev pub recorded_solution : RecordingMode → SolutionRecipe → Option ActualSolution
recorded_solution mode snapshot = some (record { snapshot = snapshot; mode = mode })

-- What the update records: the plan copied, the snapshot that was entered, or nothing.
unfoldable pub normalized_actual :
    PreparationRow → PreparationUpdate → Result WorkError (Option ActualSolution)
normalized_actual existing u =
    if u.actual_matches_planned
    then (do
      snapshot ← or_snapshot_refused (validate_solution_snapshot existing.planned_snapshot)
      ok (recorded_solution copied_from_plan snapshot))
    else (elim u.actual [
      | none ↦ ok none
      | some given ↦ do
        snapshot ← or_snapshot_refused (validate_solution_snapshot given)
        ok (recorded_solution entered snapshot)
    ])

-- `given is not None and actual != given`
abbrev pub is_elsewhere : Option ℕ → ℕ → Bool
is_elsewhere none batch_id = false
is_elsewhere (some given) batch_id = not (batch_id == given)

-- `status is not None and status != current and status not in allowed`
unfoldable pub transition_fails : PreparationStatus → Option PreparationStatus → Bool
transition_fails current none = false
transition_fails current (some status) =
    not (preparation_status_eq status current)
    && not (preparation_transition_allowed current status)

abbrev pub consumes : Option PreparationStatus → Bool
consumes (some PreparationStatus.consumed) = true
consumes _ = false

abbrev pub set_status : ℕ → Option PreparationStatus → PreparationRow → PreparationRow
set_status now none p = p
set_status now (some PreparationStatus.consumed) p = record p {
  status = PreparationStatus.consumed;
  completed_at = some now;
}
set_status now (some status) p = record p { status = status }

abbrev pub set_notes : Option String → PreparationRow → PreparationRow
set_notes none p = p
set_notes (some notes) p = record p { notes = short_notes notes }

-- `f"P{fabrication_batch_id}-{count + 1:02d}"`
unfoldable pub preparation_code_of : ℕ → ℕ → String
unfolding decimal two_digits
preparation_code_of batch_id number =
    text_append "P" (text_append (decimal batch_id) (text_append "-" (two_digits number)))

module _ (snapshot_hash : SolutionRecipe → String) where
  abbrev pub set_actual : ℕ → ℕ → Option ActualSolution → PreparationRow → PreparationRow
  set_actual now actor none p = p
  set_actual now actor (some a) p = record p {
    actual_snapshot = some a.snapshot;
    actual_version = some solution_schema_version;
    actual_hash = some (snapshot_hash a.snapshot);
    recording_mode = some a.mode;
    prepared_by = some actor;
    prepared_at = some now;
  }

  -- The values of the UPDATE statement.
  unfoldable pub write_preparation :
      ℕ → ℕ → PreparationUpdate → Option ActualSolution → PreparationRow → PreparationRow
  write_preparation now actor u actual p =
      set_actual now actor actual
        (set_notes u.notes (set_status now u.status (record p { updated_at = now })))

  -- The row was found and is locked, so the UPDATE meets exactly one row.
  unfoldable pub update_solution_preparation :
      ℕ → ℕ → Option UserRole → Tables → ℕ → PreparationUpdate → Result WorkError Tables
  unfolding normalized_actual transition_fails write_preparation
  update_solution_preparation now actor actor_role t preparation_id u = do
    raise_if (is_some u.actual && u.actual_matches_planned) both_given
    existing ← find_preparation t preparation_id
    actual ← normalized_actual existing u
    raise_if (is_elsewhere u.fabrication_batch_id existing.fabrication_batch_id) unknown_preparation
    locked ← batch_for_actor t existing.fabrication_batch_id actor actor_role is_open
    raise_if (transition_fails existing.status u.status) transition_refused
    raise_if (consumes u.status && is_none actual && is_none existing.actual_snapshot)
        actual_required
    raise_if
        (preparation_terminal existing.status
          && (is_some u.status || is_some actual || is_some u.notes))
        terminal_immutable
    ok (
        with_event actor "solution_preparation.update" preparation_id (record t {
          preparations =
              alter (is_row preparation_id) (write_preparation now actor u actual) t.preparations;
        }))

  -- The row that a creation inserts.
  unfoldable pub new_preparation : ℕ → ℕ → ℕ → Tables → SolutionRecipe → String → PreparationRow
  new_preparation now new_id batch_id t planned notes = record {
    ident = new_id;
    fabrication_batch_id = batch_id;
    preparation_code =
        preparation_code_of batch_id
          (suc (count (λ p. p.fabrication_batch_id == batch_id) t.preparations));
    status = PreparationStatus.planned;
    planned_snapshot = planned;
    planned_version = solution_schema_version;
    planned_hash = snapshot_hash planned;
    actual_snapshot = none;
    actual_version = none;
    actual_hash = none;
    recording_mode = none;
    prepared_by = none;
    prepared_at = none;
    completed_at = none;
    notes = short_notes notes;
    updated_at = now;
  }

  unfoldable pub create_solution_preparation :
      ℕ → ℕ → ℕ → Option UserRole → Tables → ℕ → SolutionRecipe → String → Result WorkError Tables
  create_solution_preparation now new_id actor actor_role t batch_id planned notes = do
    normalized ← or_snapshot_refused (validate_solution_snapshot planned)
    locked ← batch_for_actor t batch_id actor actor_role is_draft
    grown ← insert_preparation (new_preparation now new_id batch_id t normalized notes) t
    ok (with_event actor "solution_preparation.create" new_id grown)
