-- ===== src/Work/Preparations.antt =====
-- The solution preparations of a batch (src/web/repository/batch.py): create, split, merge and update.
-- The hash of a snapshot and the primary key that the database gives a new row are parameters.
pub mod Recording
pub mod Recorded
pub mod Merged
pub mod Updated
pub mod Kept
pub mod Codes
pub mod Regroup
pub mod RoundTrip
use perovskite_fabrication_w.Prelude.{
  ℕ, suc, ◌+◌, String, Option, none, some, List, [], ◌∷◌, ◌++◌, Bool, true, false, not, ◌&&◌, ◌||◌,
  Result, ok, err, Check, ◌>>=◌, ◌>>◌, raise_if, if◌then◌else◌, ◌==◌, str_eq, is_none, is_some,
  length, all, any, count, keep, map,
}
use Prim.Native.String.{◌++◌ as text_append}
use perovskite_fabrication_w.Prelude.Text.{strip, take, decimal}
use perovskite_fabrication_w.Recipe.Data.{SolutionRecipe}
use perovskite_fabrication_w.Recipe.Stack.{is_empty}
use perovskite_fabrication_w.Snapshots.{validate_solution_snapshot}
use perovskite_fabrication_w.Batch.Data.{UserRole, PreparationStatus}
use perovskite_fabrication_w.Batch.Counts.{mem}
use perovskite_fabrication_w.Batch.Lifecycle.{preparation_terminal}
use perovskite_fabrication_w.Work.Data.{
  RecordingMode, copied_from_plan, entered, PreparationRow, UseRow, Tables,
}
use perovskite_fabrication_w.Work.Rows.{
  find_row, alter, delete, found, distinct, greatest, two_digits,
}
use perovskite_fabrication_w.Work.{
  WorkError, or_snapshot_refused, unknown_preparation, code_taken, both_given, transition_refused,
  actual_required, terminal_immutable, nothing_selected, selected_elsewhere, nothing_left, same_row,
  batches_differ, plans_differ, not_planned, referenced, overlapping, is_draft, is_open,
  batch_for_actor, with_event, preparation_transition_allowed,
}

-- SOLUTION_SNAPSHOT_SCHEMA_VERSION
abbrev pub solution_schema_version : ℕ
solution_schema_version = 1

-- `notes.strip()[:2000]`
abbrev pub short_notes : String → String
short_notes notes = take 2000 (strip notes)

abbrev pub preparation_rank : PreparationStatus → ℕ
preparation_rank PreparationStatus.planned = 0
preparation_rank PreparationStatus.preparing = 1
preparation_rank PreparationStatus.ready = 2
preparation_rank PreparationStatus.consumed = 3
preparation_rank PreparationStatus.discarded = 4

abbrev pub preparation_status_eq : PreparationStatus → PreparationStatus → Bool
preparation_status_eq a b = preparation_rank a == preparation_rank b

abbrev pub is_row : ℕ → PreparationRow → Bool
is_row id p = p.ident == id

abbrev pub uses_of : ℕ → List UseRow → List UseRow
uses_of id uses = keep (λ u. u.solution_preparation_id == id) uses

abbrev pub move_use : ℕ → UseRow → UseRow
move_use id u = record u { solution_preparation_id = id }

abbrev pub find_preparation : Tables → ℕ → Result WorkError PreparationRow
find_preparation t id = found unknown_preparation (find_row (λ p. p.ident) id t.preparations)

-- INSERT, with the unique code of the column.
unfoldable pub insert_preparation : PreparationRow → Tables → Result WorkError Tables
insert_preparation row t = do
  raise_if (any (λ p. str_eq p.preparation_code row.preparation_code) t.preparations) code_taken
  ok (record t { preparations = t.preparations ++ (row ∷ []) })

-- The checks of a split on the selected ids and on those of the source.
unfoldable pub check_split : List ℕ → List ℕ → Check WorkError
unfolding mem distinct
check_split selected available = do
  raise_if (not (all (λ n. mem n available) selected)) selected_elsewhere
  raise_if (length selected == length (distinct available)) nothing_left

-- The row of a split: planned as the source is, and nothing recorded yet.
abbrev pub split_row : ℕ → ℕ → ℕ → String → PreparationRow → PreparationRow
split_row now new_id next_id notes source = record {
  ident = new_id;
  fabrication_batch_id = source.fabrication_batch_id;
  preparation_code =
      text_append (take 170 source.preparation_code) (text_append "-S" (decimal next_id));
  status = PreparationStatus.planned;
  planned_snapshot = source.planned_snapshot;
  planned_version = source.planned_version;
  planned_hash = source.planned_hash;
  actual_snapshot = none;
  actual_version = none;
  actual_hash = none;
  recording_mode = none;
  prepared_by = none;
  prepared_at = none;
  completed_at = none;
  notes = short_notes notes;
  updated_at = now;
}

unfoldable pub split_solution_preparation :
    ℕ → ℕ → ℕ → Option UserRole → Tables → ℕ → List ℕ → String → Result WorkError Tables
unfolding distinct insert_preparation
split_solution_preparation now new_id actor actor_role t preparation_id member_ids notes = do
  let selected = distinct member_ids
  raise_if (is_empty selected) nothing_selected
  source ← find_preparation t preparation_id
  locked ← batch_for_actor t source.fabrication_batch_id actor actor_role is_draft
  check_split selected (map (λ u. u.ident) (uses_of preparation_id t.uses))
  let next_id = suc (greatest (map (λ p. p.ident) t.preparations))
  grown ← insert_preparation (split_row now new_id next_id notes source) t
  ok (
      with_event actor "solution_preparation.split" new_id
        (record grown { uses = alter (λ u. mem u.ident selected) (move_use new_id) grown.uses }))

-- The unique key of a use within its preparation.
abbrev pub same_use_key : UseRow → UseRow → Bool
same_use_key a b =
    a.batch_condition_id == b.batch_condition_id && a.layer_ordinal == b.layer_ordinal

-- `target_keys & source_keys`
unfoldable pub uses_overlap : List UseRow → List UseRow → Bool
uses_overlap targets sources = any (λ a. any (same_use_key a) sources) targets

-- `or`, on the versions and the hashes
abbrev pub plans_agree : PreparationRow → PreparationRow → Bool
plans_agree a b = a.planned_version == b.planned_version && str_eq a.planned_hash b.planned_hash

abbrev pub is_planned : PreparationRow → Bool
is_planned p = preparation_status_eq p.status PreparationStatus.planned

unfoldable pub preparation_references : ℕ → Tables → ℕ
preparation_references id t =
    count (λ d. elim d.targets.solution_preparation_id [ none ↦ false | some n ↦ n == id ])
      t.deviations

-- DELETE of a preparation: its uses go with it, and deviations lose their target.
unfoldable pub delete_preparation : ℕ → Tables → Tables
delete_preparation id t = record t {
  preparations = delete (is_row id) t.preparations;
  uses = delete (λ u. u.solution_preparation_id == id) t.uses;
  deviations =
      alter (λ d. elim d.targets.solution_preparation_id [ none ↦ false | some n ↦ n == id ])
        (λ d. record d { targets = record d.targets { solution_preparation_id = none } })
        t.deviations;
}

-- The checks of a merge on the two rows.
unfoldable pub check_merge : Tables → PreparationRow → PreparationRow → Check WorkError
unfolding uses_overlap preparation_references
check_merge t target source = do
  raise_if (not (plans_agree target source)) plans_differ
  raise_if (not (is_planned target && is_planned source)) not_planned
  raise_if (not (preparation_references source.ident t == 0)) referenced
  raise_if (uses_overlap (uses_of target.ident t.uses) (uses_of source.ident t.uses)) overlapping

unfoldable pub merge_solution_preparations :
    ℕ → Option UserRole → Tables → ℕ → ℕ → Result WorkError Tables
unfolding delete_preparation
merge_solution_preparations actor actor_role t target_id source_id = do
  raise_if (target_id == source_id) same_row
  target ← find_preparation t target_id
  source ← find_preparation t source_id
  raise_if (not (source.fabrication_batch_id == target.fabrication_batch_id)) batches_differ
  locked ← batch_for_actor t target.fabrication_batch_id actor actor_role is_draft
  check_merge t target source
  let moved = alter (λ u. u.solution_preparation_id == source_id) (move_use target_id) t.uses
  ok (
      with_event actor "solution_preparation.merge" target_id
        (delete_preparation source_id (record t { uses = moved })))
