-- ===== src/Work/Runs/Closed.antt =====
-- Preparations that are consumed or discarded do not change any more, whatever operations follow.
use perovskite_fabrication_w.Prelude.{
  ℕ, ◌≡◌, refl, sym, ap, subst, ◌∙◌, String, Option, none, some, Bool, true, false, ◌&&◌, ◌||◌, ok,
  ==_iff, is_some, inl, inr, Bool-cases, arith, if◌then◌else◌,
}
use perovskite_fabrication_w.Recipe.Data.{SolutionRecipe}
use perovskite_fabrication_w.Snapshots.{ProcessOperation}
use perovskite_fabrication_w.Batch.Data.{UserRole, PreparationStatus}
use perovskite_fabrication_w.Batch.Lifecycle.{preparation_terminal}
use perovskite_fabrication_w.Work.Data.{PreparationRow, Tables}
use perovskite_fabrication_w.Work.Rows.{find_row}
use perovskite_fabrication_w.Work.Rows.Tables.{
  find_row-ident, find_row-append, find_row-alter, find_row-map, find_row-delete_other,
}
use perovskite_fabrication_w.Work.Preparations.{
  is_row, is_planned, preparation_status_eq, delete_preparation,
}
use perovskite_fabrication_w.Work.Preparations.Recording.{
  PreparationUpdate, ActualSolution, write_preparation, update_solution_preparation,
}
use perovskite_fabrication_w.Work.Preparations.Regroup.{split-SplitDone}
use perovskite_fabrication_w.Work.Preparations.Merged.{merge-MergeDone}
use perovskite_fabrication_w.Work.Preparations.Updated.{
  update-UpdateDone, writes, write_preparation-ident,
}
use perovskite_fabrication_w.Work.Preparations.Kept.{create-written}
use perovskite_fabrication_w.Work.Executions.Kept.{
  create-kept as create_execution-kept, split-kept as split_execution-kept,
  merge-kept as merge_executions-kept, update-kept as update_execution-kept,
}
use perovskite_fabrication_w.Work.Deviations.Links.{create-DeviationDone}
use perovskite_fabrication_w.Work.AsPlanned.{is_pending, Recorded, record_batch_as_planned}
use perovskite_fabrication_w.Work.AsPlanned.Copies.{as_planned}
use perovskite_fabrication_w.Work.AsPlanned.Kept.{record-planned_result}
use perovskite_fabrication_w.Work.Runs.{
  Step, Run, IsWork, create_preparation, split_preparation, merge_preparations, update_preparation,
  create_execution, split_execution, merge_executions, update_execution, record_as_planned, deviate,
  done, next,
}
use perovskite_fabrication_w.Work.Runs.Sound.{Step-sound}

abbrev find_prepared : ℕ → Tables → Option PreparationRow
find_prepared id t = find_row (λ p. p.ident) id t.preparations

-- The row is found as it was, but for the time of an update that wrote nothing else.
abbrev Unchanged : ℕ → PreparationRow → Tables → Type 0
Unchanged id row t = (time : ℕ) × (find_prepared id t ≡ some (record row { updated_at = time }))

is_none-eq {ℓ} : {A : Type ℓ} (o : Option A) → is_some o ≡ false → o ≡ none
is_none-eq none h = refl
is_none-eq (some a) h = cc

-- An update that is given nothing to write sets the time.
write_nothing :
    (hash : SolutionRecipe → String) (now actor : ℕ) (u : PreparationUpdate)
    (actual : Option ActualSolution) (p : PreparationRow)
    → (is_some u.status || is_some actual || is_some u.notes) ≡ false
    → write_preparation hash now actor u actual p ≡ record p { updated_at = now }
unfolding write_preparation
write_nothing hash now actor u actual p h =
    let no_status = is_none-eq u.status (ground arith) in
    let no_actual = is_none-eq actual (ground arith) in
    let no_notes = is_none-eq u.notes (ground arith) in rw (no_status, no_actual, no_notes) refl

not_planned :
    (s : PreparationStatus)
    → preparation_terminal s ≡ true
    → preparation_status_eq s PreparationStatus.planned ≡ false
not_planned PreparationStatus.planned h = cc
not_planned PreparationStatus.preparing h = cc
not_planned PreparationStatus.ready h = cc
not_planned PreparationStatus.consumed h = refl
not_planned PreparationStatus.discarded h = refl

terminal-not_planned :
    (p : PreparationRow) → preparation_terminal p.status ≡ true → is_planned p ≡ false
terminal-not_planned p = not_planned p.status

as_planned_ident :
    (solution_hash : SolutionRecipe → String) (process_hash : ProcessOperation → String)
    (now actor batch_id : ℕ) (p : PreparationRow)
    → (as_planned solution_hash process_hash now actor batch_id p).ident ≡ p.ident
as_planned_ident solution_hash process_hash now actor batch_id p =
    elim (Bool-cases (is_pending batch_id p)) [ inl e ↦ rw e refl | inr e ↦ rw e refl ]

open_no_more : {a b : Bool} → a ≡ true → (a && b) ≡ false → b ≡ false
open_no_more closed shut = ground arith

module _ (solution_hash : SolutionRecipe → String) (process_hash : ProcessOperation → String)
    (id : ℕ) (row : PreparationRow) where
  -- Tables with the same preparations.
  same_rows :
      (t t' : Tables)
      → t'.preparations ≡ t.preparations
      → find_prepared id t ≡ some row
      → Unchanged id row t'
  same_rows t t' same row_found = (row.updated_at, ap (find_row (λ p. p.ident) id) same ∙ row_found)

  update_Unchanged :
      (now actor : ℕ) (role : Option UserRole) (t t' : Tables) (target : ℕ) (u : PreparationUpdate)
      → preparation_terminal row.status ≡ true
      → find_prepared id t ≡ some row
      → update_solution_preparation solution_hash now actor role t target u ≡ ok t'
      → Unchanged id row t'
  update_Unchanged now actor role t t' target u closed row_found h =
      let done = update-UpdateDone solution_hash now actor role t target u t' h in
      let change = write_preparation solution_hash now actor u done.actual in
      let seen =
        find_row-alter (λ p. p.ident) (is_row target) change id t.preparations row
          (write_preparation-ident solution_hash now actor u done.actual) row_found in
      elim (Bool-cases (is_row target row)) [
        | inl e ↦
            let at_id : row.ident ≡ id =
              find_row-ident (λ p. p.ident) id t.preparations row row_found in
            let same_id : id ≡ target = sym at_id ∙ (==_iff _ _).0 e in
            let found_too : find_prepared target t ≡ some row =
              subst (λ n. find_prepared n t ≡ some row) same_id row_found in
            let both : some done.existing ≡ some row = sym done.existing_found ∙ found_too in
            let same : done.existing ≡ row = cc in
            let shut : (preparation_terminal row.status
                  && writes solution_hash now actor role t target u done.actual)
                ≡ false =
              subst
                (λ p.
                  (preparation_terminal p.status
                    && writes solution_hash now actor role t target u done.actual)
                  ≡ false)
                same done.mutable in
            let idle =
              write_nothing solution_hash now actor u done.actual row (open_no_more closed shut) in
            let chosen : (if is_row target row then change row else row)
                ≡ record row { updated_at = now } =
              rw e idle in
            subst (Unchanged id row) (sym done.written) (now, seen ∙ ap some chosen)
        | inr e ↦
            let chosen : (if is_row target row then change row else row) ≡ row = rw e refl in
            subst (Unchanged id row) (sym done.written) (row.updated_at, seen ∙ ap some chosen)
      ]

  record_Unchanged :
      (now actor : ℕ) (role : Option UserRole) (t : Tables) (batch_id : ℕ) (r : Recorded)
      → IsWork solution_hash process_hash t
      → preparation_terminal row.status ≡ true
      → find_prepared id t ≡ some row
      → record_batch_as_planned solution_hash process_hash now actor role t batch_id ≡ ok r
      → Unchanged id row r.tables
  record_Unchanged now actor role t batch_id r sound closed row_found h =
      let whole =
        record-planned_result solution_hash process_hash now actor batch_id role t r
          sound.preparations_sound sound.executions_sound h in
      let stays : as_planned solution_hash process_hash now actor batch_id row ≡ row =
        let settled : is_pending batch_id row ≡ false = ground arith in rw settled refl in
      subst (λ r. Unchanged id row r.tables) (sym whole)
        (
          row.updated_at,
          find_row-map (λ p. p.ident) (as_planned solution_hash process_hash now actor batch_id) id
                t.preparations row (as_planned_ident solution_hash process_hash now actor batch_id)
                row_found
              ∙ ap some stays,
        )

  Step-Unchanged :
      (t t' : Tables)
      → IsWork solution_hash process_hash t
      → preparation_terminal row.status ≡ true
      → find_prepared id t ≡ some row
      → Step solution_hash process_hash t t'
      → Unchanged id row t'
  unfolding delete_preparation
  Step-Unchanged t _ sound closed row_found
        (create_preparation now new_id actor role t1 t' batch_id planned notes fresh h) =
      let (accepted, _, written) =
        create-written solution_hash actor role t1 t' now new_id batch_id planned notes h in
      subst (Unchanged id row) (sym written)
        (row.updated_at, find_row-append (λ p. p.ident) id t1.preparations _ row row_found)
  Step-Unchanged t _ sound closed row_found
        (split_preparation now new_id actor role t1 t' source_id member_ids notes fresh h) =
      let parted = split-SplitDone now new_id actor role t1 source_id member_ids notes t' h in
      subst (Unchanged id row) (sym parted.written)
        (row.updated_at, find_row-append (λ p. p.ident) id t1.preparations _ row row_found)
  Step-Unchanged t _ sound closed row_found
        (merge_preparations actor role t1 t' target_id source_id h) =
      let merged = merge-MergeDone actor role t1 target_id source_id t' h in
      let other : is_row source_id row ≡ false = elim (Bool-cases (is_row source_id row)) [
        | inl e ↦
            let at_id : row.ident ≡ id =
              find_row-ident (λ p. p.ident) id t1.preparations row row_found in
            let same_id : id ≡ source_id = sym at_id ∙ (==_iff _ _).0 e in
            let found_too : find_prepared source_id t1 ≡ some row =
              subst (λ n. find_prepared n t1 ≡ some row) same_id row_found in
            let both : some merged.source ≡ some row = sym merged.source_found ∙ found_too in
            let same : merged.source ≡ row = cc in
            let not_planned = terminal-not_planned row closed in
            let planned : is_planned row ≡ true =
              subst (λ p. is_planned p ≡ true) same (ground (arith, merged.checked.both_planned)) in
            absurd cc
        | inr e ↦ e
      ] in
      subst (Unchanged id row) (sym merged.written) (
        row.updated_at,
        find_row-delete_other (λ p. p.ident) (is_row source_id) id t1.preparations row other
            row_found,
      )
  Step-Unchanged t _ sound closed row_found (update_preparation now actor role t1 t' target u h) =
      update_Unchanged now actor role t1 t' target u closed row_found h
  Step-Unchanged t _ sound closed row_found
        (create_execution now new_id actor role t1 t' batch_id given fresh h) =
      same_rows t1 t'
        (create_execution-kept process_hash actor role t1 t' now new_id batch_id given fresh h
          sound.executions_sound).1.0
        row_found
  Step-Unchanged t _ sound closed row_found
        (split_execution now new_id actor role t1 t' source_id member_ids notes fresh h) =
      same_rows t1 t'
        (split_execution-kept process_hash actor role t1 t' now new_id source_id member_ids notes
          fresh h sound.executions_sound).1.0
        row_found
  Step-Unchanged t _ sound closed row_found
        (merge_executions now actor role t1 t' target_id source_id h) =
      same_rows t1 t'
        (merge_executions-kept process_hash actor role t1 t' now target_id source_id h
          sound.executions_sound).1.0
        row_found
  Step-Unchanged t _ sound closed row_found (update_execution now actor role t1 t' target u h) =
      same_rows t1 t'
        (update_execution-kept process_hash actor role t1 t' now target u h
          sound.executions_sound).1.0
        row_found
  Step-Unchanged t _ sound closed row_found (record_as_planned now actor role t1 batch_id r h) =
      record_Unchanged now actor role t1 batch_id r sound closed row_found h
  Step-Unchanged t _ sound closed row_found (deviate now new_id actor role t1 t' d h) =
      let made = create-DeviationDone now new_id actor role t1 d t' h in
      subst (Unchanged id row) (sym made.written) (row.updated_at, row_found)

module _ (solution_hash : SolutionRecipe → String) (process_hash : ProcessOperation → String) where
  -- A consumed or discarded preparation of sound tables is still there after any sequence of operations that
  -- succeed, under its key and with all its columns as they were, but for the time of its last update.
  pub Run-terminal :
      (t t' : Tables) (id : ℕ) (row : PreparationRow)
      → IsWork solution_hash process_hash t
      → preparation_terminal row.status ≡ true
      → find_row (λ p. p.ident) id t.preparations ≡ some row
      → Run solution_hash process_hash t t'
      → (time : ℕ) × (find_row (λ p. p.ident) id t'.preparations
          ≡ some (record row { updated_at = time }))
  Run-terminal _ _ id row sound closed row_found (done t) = (row.updated_at, row_found)
  Run-terminal _ _ id row sound closed row_found (next t between t' step rest) =
      let (time, still) =
        Step-Unchanged solution_hash process_hash id row t between sound closed row_found step in
      Run-terminal between t' id (record row { updated_at = time })
        (Step-sound solution_hash process_hash t between step sound) closed still rest
