-- ===== src/Work/Executions/Merged.antt =====
-- What a merge of executions that succeeds has checked, and what it writes.
use perovskite_fabrication_w.Prelude.{
  ℕ, ◌≡◌, sym, Option, some, List, true, false, not, ◌&&◌, ok, ◌>>=◌, ◌>>◌, >>-eq-ok, >>=-eq-ok,
  raise_if, raise_if-eq-ok, raise_if-not_iff, ◌==◌,
}
use perovskite_fabrication_w.Batch.Data.{UserRole}
use perovskite_fabrication_w.Work.Data.{ExecutionRow, MemberRow, BatchRow, Tables}
use perovskite_fabrication_w.Work.Rows.{find_row, alter}
use perovskite_fabrication_w.Work.Rows.Tables.{found-eq-ok}
use perovskite_fabrication_w.Work.Rows.Links.{merge_links}
use perovskite_fabrication_w.Work.{
  unknown_execution, same_row, batches_differ, plans_differ, not_planned, referenced, overlapping,
  is_draft, batch_for_actor, with_event,
}
use perovskite_fabrication_w.Work.Executions.{
  is_planned_execution, same_process, is_execution, share, spans_conditions, members_of,
  find_execution, members_overlap, execution_references, delete_execution, check_execution_merge,
  merge_process_executions,
}
use perovskite_fabrication_w.Work.Executions.Regroup.{member_link}

-- What the checks of a merge leave.
pub record MergeChecked (t : Tables) (target source : ExecutionRow) : Type 0 where
  pub same_plan : same_process target source ≡ true
  pub both_planned : (is_planned_execution target && is_planned_execution source) ≡ true
  pub unreferenced : (execution_references source.ident t == 0) ≡ true
  pub disjoint :
      members_overlap (members_of target.ident t.members) (members_of source.ident t.members)
      ≡ false

check_execution_merge-MergeChecked :
    (t : Tables) (target source : ExecutionRow)
    → check_execution_merge t target source ≡ ok tt
    → MergeChecked t target source
unfolding check_execution_merge
check_execution_merge-MergeChecked t target source h =
    let overlaps =
      members_overlap (members_of target.ident t.members) (members_of source.ident t.members) in
    let step3 = raise_if overlaps overlapping in
    let step2 = raise_if (not (execution_references source.ident t == 0)) referenced >> step3 in
    let step1 =
      raise_if (not (is_planned_execution target && is_planned_execution source)) not_planned
      >> step2 in
    let (plans, h1) = >>-eq-ok (raise_if (not (same_process target source)) plans_differ) step1 h in
    let (planned, h2) =
      >>-eq-ok
        (raise_if (not (is_planned_execution target && is_planned_execution source)) not_planned)
        step2 h1 in
    let (free, h3) =
      >>-eq-ok (raise_if (not (execution_references source.ident t == 0)) referenced) step3 h2 in
    record {
      same_plan = (raise_if-not_iff (same_process target source) plans_differ).0 plans;
      both_planned =
          (raise_if-not_iff (is_planned_execution target && is_planned_execution source)
              not_planned).0
            planned;
      unreferenced =
          (raise_if-not_iff (execution_references source.ident t == 0) referenced).0 free;
      disjoint = raise_if-eq-ok overlaps overlapping h3;
    }

module _ (now actor : ℕ) (actor_role : Option UserRole) (t : Tables) (target_id source_id : ℕ) where
  -- The tables after a merge.
  abbrev moved : List MemberRow
  moved = merge_links member_link target_id source_id t.members

  abbrev pub shared_rows : List ExecutionRow
  shared_rows =
      alter (is_execution target_id) (share now (spans_conditions (members_of target_id moved)))
        t.executions

  abbrev pub merged_tables : Tables
  merged_tables =
      with_event actor "process_execution.merge" target_id
        (delete_execution source_id (record t { executions = shared_rows; members = moved }))

  -- What a merge that succeeds has found.
  pub record MergeDone (t' : Tables) : Type 0 where
    pub target : ExecutionRow
    pub source : ExecutionRow
    pub differ : (target_id == source_id) ≡ false
    pub target_found : find_row (λ p. p.ident) target_id t.executions ≡ some target
    pub source_found : find_row (λ p. p.ident) source_id t.executions ≡ some source
    pub checked : MergeChecked t target source
    pub written : t' ≡ merged_tables

  pub merge-MergeDone :
      (t' : Tables)
      → merge_process_executions now actor actor_role t target_id source_id ≡ ok t'
      → MergeDone t'
  unfolding merge_process_executions delete_execution spans_conditions
  merge-MergeDone t' h =
      let step5 = λ (target source : ExecutionRow).
        check_execution_merge t target source >> ok merged_tables in
      let step4 = λ (target source : ExecutionRow).
        batch_for_actor t target.fabrication_batch_id actor actor_role is_draft
        >>= λ (locked : BatchRow). step5 target source in
      let step3 = λ (target source : ExecutionRow).
        raise_if (not (source.fabrication_batch_id == target.fabrication_batch_id)) batches_differ
        >> step4 target source in
      let step2 = λ (target : ExecutionRow). find_execution t source_id >>= step3 target in
      let (other, h1) =
        >>-eq-ok (raise_if (target_id == source_id) same_row) (find_execution t target_id >>= step2)
          h in
      let (target, target_ok, h2) = >>=-eq-ok (find_execution t target_id) step2 h1 in
      let (source, source_ok, h3) = >>=-eq-ok (find_execution t source_id) (step3 target) h2 in
      let (batch_ok, h4) =
        >>-eq-ok
          (raise_if (not (source.fabrication_batch_id == target.fabrication_batch_id))
            batches_differ)
          (step4 target source) h3 in
      let (locked, lock_ok, h5) =
        >>=-eq-ok (batch_for_actor t target.fabrication_batch_id actor actor_role is_draft)
          (λ locked. step5 target source) h4 in
      let (checked, last) =
        >>-eq-ok (check_execution_merge t target source) (ok merged_tables) h5 in
      let same : merged_tables ≡ t' = cc in
      record {
        target = target;
        source = source;
        differ = raise_if-eq-ok (target_id == source_id) same_row other;
        target_found = found-eq-ok unknown_execution _ target target_ok;
        source_found = found-eq-ok unknown_execution _ source source_ok;
        checked = check_execution_merge-MergeChecked t target source checked;
        written = sym same;
      }
