-- ===== src/Work/Preparations/Merged.antt =====
-- What a merge of preparations that succeeds has checked, and what it writes.
use perovskite_fabrication_w.Prelude.{
  ℕ, ◌≡◌, sym, Option, some, true, false, not, ◌&&◌, ok, ◌>>=◌, ◌>>◌, >>-eq-ok, >>=-eq-ok, raise_if,
  raise_if-eq-ok, raise_if-not_iff, ◌==◌,
}
use perovskite_fabrication_w.Batch.Data.{UserRole}
use perovskite_fabrication_w.Work.Data.{PreparationRow, BatchRow, Tables}
use perovskite_fabrication_w.Work.Rows.{find_row}
use perovskite_fabrication_w.Work.Rows.Tables.{found-eq-ok}
use perovskite_fabrication_w.Work.Rows.Links.{merge_links}
use perovskite_fabrication_w.Work.{
  unknown_preparation, same_row, batches_differ, plans_differ, not_planned, referenced, overlapping,
  is_draft, batch_for_actor, with_event,
}
use perovskite_fabrication_w.Work.Preparations.{
  is_planned, plans_agree, uses_of, find_preparation, uses_overlap, preparation_references,
  delete_preparation, check_merge, merge_solution_preparations,
}
use perovskite_fabrication_w.Work.Preparations.Regroup.{use_link}

-- What the checks of a merge leave.
pub record MergeChecked (t : Tables) (target source : PreparationRow) : Type 0 where
  pub same_plan : plans_agree target source ≡ true
  pub both_planned : (is_planned target && is_planned source) ≡ true
  pub unreferenced : (preparation_references source.ident t == 0) ≡ true
  pub disjoint : uses_overlap (uses_of target.ident t.uses) (uses_of source.ident t.uses) ≡ false

check_merge-MergeChecked :
    (t : Tables) (target source : PreparationRow)
    → check_merge t target source ≡ ok tt
    → MergeChecked t target source
unfolding check_merge
check_merge-MergeChecked t target source h =
    let overlaps = uses_overlap (uses_of target.ident t.uses) (uses_of source.ident t.uses) in
    let step3 = raise_if overlaps overlapping in
    let step2 = raise_if (not (preparation_references source.ident t == 0)) referenced >> step3 in
    let step1 = raise_if (not (is_planned target && is_planned source)) not_planned >> step2 in
    let (plans, h1) = >>-eq-ok (raise_if (not (plans_agree target source)) plans_differ) step1 h in
    let (planned, h2) =
      >>-eq-ok (raise_if (not (is_planned target && is_planned source)) not_planned) step2 h1 in
    let (free, h3) =
      >>-eq-ok (raise_if (not (preparation_references source.ident t == 0)) referenced) step3 h2 in
    record {
      same_plan = (raise_if-not_iff (plans_agree target source) plans_differ).0 plans;
      both_planned =
          (raise_if-not_iff (is_planned target && is_planned source) not_planned).0 planned;
      unreferenced =
          (raise_if-not_iff (preparation_references source.ident t == 0) referenced).0 free;
      disjoint = raise_if-eq-ok overlaps overlapping h3;
    }

module _ (actor : ℕ) (actor_role : Option UserRole) (t : Tables) (target_id source_id : ℕ) where
  -- The tables after a merge.
  abbrev pub merged_tables : Tables
  merged_tables = with_event actor "solution_preparation.merge" target_id (
      delete_preparation source_id
        (record t { uses = merge_links use_link target_id source_id t.uses }))

  -- What a merge that succeeds has found.
  pub record MergeDone (t' : Tables) : Type 0 where
    pub target : PreparationRow
    pub source : PreparationRow
    pub differ : (target_id == source_id) ≡ false
    pub target_found : find_row (λ p. p.ident) target_id t.preparations ≡ some target
    pub source_found : find_row (λ p. p.ident) source_id t.preparations ≡ some source
    pub checked : MergeChecked t target source
    pub written : t' ≡ merged_tables

  pub merge-MergeDone :
      (t' : Tables)
      → merge_solution_preparations actor actor_role t target_id source_id ≡ ok t'
      → MergeDone t'
  unfolding merge_solution_preparations delete_preparation
  merge-MergeDone t' h =
      let step5 =
        λ (target source : PreparationRow). check_merge t target source >> ok merged_tables in
      let step4 = λ (target source : PreparationRow).
        batch_for_actor t target.fabrication_batch_id actor actor_role is_draft
        >>= λ (locked : BatchRow). step5 target source in
      let step3 = λ (target source : PreparationRow).
        raise_if (not (source.fabrication_batch_id == target.fabrication_batch_id)) batches_differ
        >> step4 target source in
      let step2 = λ (target : PreparationRow). find_preparation t source_id >>= step3 target in
      let (other, h1) =
        >>-eq-ok (raise_if (target_id == source_id) same_row)
          (find_preparation t target_id >>= step2) h in
      let (target, target_ok, h2) = >>=-eq-ok (find_preparation t target_id) step2 h1 in
      let (source, source_ok, h3) = >>=-eq-ok (find_preparation t source_id) (step3 target) h2 in
      let (batch_ok, h4) =
        >>-eq-ok
          (raise_if (not (source.fabrication_batch_id == target.fabrication_batch_id))
            batches_differ)
          (step4 target source) h3 in
      let (locked, lock_ok, h5) =
        >>=-eq-ok (batch_for_actor t target.fabrication_batch_id actor actor_role is_draft)
          (λ locked. step5 target source) h4 in
      let (checked, last) = >>-eq-ok (check_merge t target source) (ok merged_tables) h5 in
      let same : merged_tables ≡ t' = cc in
      record {
        target = target;
        source = source;
        differ = raise_if-eq-ok (target_id == source_id) same_row other;
        target_found = found-eq-ok unknown_preparation _ target target_ok;
        source_found = found-eq-ok unknown_preparation _ source source_ok;
        checked = check_merge-MergeChecked t target source checked;
        written = sym same;
      }
