-- ===== src/Work/Executions/Kept.antt =====
-- Every operation on preparations keeps the tables of executions and uses sound, and leaves those of
-- executions and members alone.
use perovskite_fabrication_w.Prelude.{
  ℕ, ◌≡◌, refl, sym, ap, subst, ◌∙◌, String, Option, some, List, [], ◌∷◌, ◌++◌, Bool, false, ok,
  ◌>>=◌, >>=-eq-ok, ◌==◌, All,
}
use perovskite_fabrication_w.Snapshots.{ProcessOperation, validate_process_snapshot}
use perovskite_fabrication_w.Batch.Data.{UserRole}
use perovskite_fabrication_w.Batch.Counts.{mem}
use perovskite_fabrication_w.Work.Data.{ExecutionRow, MemberRow, BatchRow, Tables}
use perovskite_fabrication_w.Work.Rows.{alter}
use perovskite_fabrication_w.Work.Rows.Tables.{find_row-ident, find_row-All, map-alter, All-alter}
use perovskite_fabrication_w.Work.Rows.Links.{unowned, unowned-split, unowned-merge}
use perovskite_fabrication_w.Work.Rows.Sound.{
  IsTable, inserted-IsTable, split-IsTable, merged-IsTable, updated-IsTable, replaced-IsTable,
  find_row-mem,
}
use perovskite_fabrication_w.Work.{or_snapshot_refused, is_draft, batch_for_actor, with_event}
use perovskite_fabrication_w.Work.Executions.{
  share, is_execution, members_of, insert_execution, members_overlap, delete_execution,
  split_process_execution, merge_process_executions,
}
use perovskite_fabrication_w.Work.Executions.Recording.{
  NewExecution, ExecutionUpdate, write_execution, update_process_execution, new_execution,
  create_process_execution,
}
use perovskite_fabrication_w.Work.Executions.Regroup.{
  member_link, insert_execution-eq-ok, new_row, stays, split-SplitDone,
}
use perovskite_fabrication_w.Work.Executions.Merged.{shared_rows, merge-MergeDone}
use perovskite_fabrication_w.Work.Executions.Updated.{update-UpdateDone, write_execution-ident}
use perovskite_fabrication_w.Work.Executions.Recorded.{
  IsExecution, split_execution_row-IsExecution, new_execution-IsExecution,
  write_execution-IsExecution,
}

module _ (hash : ProcessOperation → String) where
  abbrev pub AreExecutions : Tables → Type 0
  AreExecutions t = IsTable (λ p. p.ident) (IsExecution hash) member_link t.executions t.members

  -- The tables that an operation on executions leaves alone.
  abbrev pub SamePreparations : Tables → Tables → Type 0
  SamePreparations t t' = (t'.preparations ≡ t.preparations) × (t'.uses ≡ t.uses)

  -- The flag for shared executions is no part of what is recorded.
  shared-IsTable :
      (now : ℕ) (shared : Bool) (id : ℕ) (rows : List ExecutionRow) (members : List MemberRow)
      → IsTable (λ p. p.ident) (IsExecution hash) member_link rows members
      → IsTable
          (λ p. p.ident)
          (IsExecution hash)
          member_link
          (alter (is_execution id) (share now shared) rows)
          members
  shared-IsTable now shared id rows members h =
      replaced-IsTable (λ p. p.ident) (IsExecution hash) member_link rows
        (alter (is_execution id) (share now shared) rows) members
        (map-alter (λ p. p.ident) (is_execution id) (share now shared) rows (λ p. refl))
        (All-alter (IsExecution hash) (is_execution id) (share now shared) rows
          (λ p ok_p _. record { kept = ok_p.kept; completed_recorded = ok_p.completed_recorded })
          h.rows_sound)
        h

  -- The members are those that were there, up to the row that each belongs to.
  abbrev pub SameMembers : Tables → Tables → Type 0
  SameMembers t t' = unowned member_link t'.members ≡ unowned member_link t.members

  module _ (actor : ℕ) (actor_role : Option UserRole) (t t' : Tables) where
    -- What a creation that succeeds has accepted, and what it writes.
    pub create-written :
        (now new_id batch_id : ℕ) (given : NewExecution)
        → create_process_execution hash now new_id actor actor_role t batch_id given ≡ ok t'
        → (planned : ProcessOperation) × (or_snapshot_refused
              (validate_process_snapshot (some given.method) given.planned)
            ≡ ok planned)
          × (t'
              ≡ with_event actor "process_execution.create" new_id (record t {
                executions =
                    t.executions ++ (new_execution hash now new_id batch_id t given planned ∷ []);
              }))
    unfolding create_process_execution
    create-written now new_id batch_id given h =
        let row =
          λ (planned : ProcessOperation). new_execution hash now new_id batch_id t given planned in
        let finish =
          λ (grown : Tables). ok (with_event actor "process_execution.create" new_id grown) in
        let insert = λ (planned : ProcessOperation) (locked : BatchRow).
          insert_execution (row planned) t >>= finish in
        let lock = batch_for_actor t batch_id actor actor_role is_draft in
        let (planned, accepted, h1) =
          >>=-eq-ok
            (or_snapshot_refused (validate_process_snapshot (some given.method) given.planned))
            (λ planned. lock >>= insert planned) h in
        let (locked, lock_ok, h2) = >>=-eq-ok lock (insert planned) h1 in
        let (grown, inserted, last) = >>=-eq-ok (insert_execution (row planned) t) finish h2 in
        let whole = insert_execution-eq-ok (row planned) t grown inserted in
        let written : t' ≡ with_event actor "process_execution.create" new_id grown = cc in
        (planned, accepted, written ∙ ap (with_event actor "process_execution.create" new_id) whole)

    pub create-kept :
        (now new_id batch_id : ℕ) (given : NewExecution)
        → All (λ p. (p.ident == new_id) ≡ false) t.executions
        → create_process_execution hash now new_id actor actor_role t batch_id given ≡ ok t'
        → AreExecutions t
        → AreExecutions t' × SamePreparations t t' × SameMembers t t'
    unfolding new_execution
    create-kept now new_id batch_id given fresh h sound =
        let (planned, accepted, written) = create-written now new_id batch_id given h in
        subst (λ after. AreExecutions after × SamePreparations t after × SameMembers t after)
          (sym written)
          (
            inserted-IsTable (λ p. p.ident) (IsExecution hash) member_link t.executions t.members
                (new_execution hash now new_id batch_id t given planned) fresh
                (new_execution-IsExecution hash now new_id batch_id t given planned accepted) sound,
            (refl, refl),
            refl,
          )

    pub split-kept :
        (now new_id id : ℕ) (member_ids : List ℕ) (notes : String)
        → All (λ p. (p.ident == new_id) ≡ false) t.executions
        → split_process_execution now new_id actor actor_role t id member_ids notes ≡ ok t'
        → AreExecutions t
        → AreExecutions t' × SamePreparations t t' × SameMembers t t'
    split-kept now new_id id member_ids notes fresh h sound =
        let done = split-SplitDone now new_id actor actor_role t id member_ids notes t' h in
        let source_sound =
          find_row-All (λ p. p.ident) (IsExecution hash) id t.executions done.source
            sound.rows_sound done.source_found in
        let row = new_row now new_id actor actor_role t id member_ids notes done.source in
        let grown =
          split-IsTable (λ p. p.ident) (IsExecution hash) member_link t.executions t.members _ id
            row fresh
            (split_execution_row-IsExecution hash now new_id _ notes _ done.source source_sound)
            done.chosen sound in
        subst (λ after. AreExecutions after × SamePreparations t after × SameMembers t after)
          (sym done.written)
          (
            shared-IsTable now (stays now new_id actor actor_role t id member_ids notes) id
                (t.executions ++ (row ∷ [])) _ grown,
            (refl, refl),
            unowned-split member_link _ new_id t.members,
          )

    pub merge-kept :
        (now target_id source_id : ℕ)
        → merge_process_executions now actor actor_role t target_id source_id ≡ ok t'
        → AreExecutions t
        → AreExecutions t' × SamePreparations t t' × SameMembers t t'
    unfolding delete_execution members_overlap
    merge-kept now target_id source_id h sound =
        let done = merge-MergeDone now actor actor_role t target_id source_id t' h in
        let target_is =
          find_row-ident (λ p. p.ident) target_id t.executions done.target done.target_found in
        let source_is =
          find_row-ident (λ p. p.ident) source_id t.executions done.source done.source_found in
        let disjoint : members_overlap (members_of target_id t.members)
              (members_of source_id t.members)
            ≡ false =
          subst
            (λ n. members_overlap (members_of target_id t.members) (members_of n t.members) ≡ false)
            source_is
            (subst
              (λ n.
                members_overlap (members_of n t.members) (members_of done.source.ident t.members)
                ≡ false)
              target_is done.checked.disjoint) in
        subst (λ after. AreExecutions after × SamePreparations t after × SameMembers t after)
          (sym done.written)
          (
            merged-IsTable (λ p. p.ident) (IsExecution hash) member_link
                (shared_rows now actor actor_role t target_id source_id) t.members target_id
                source_id done.differ
                (ap (mem target_id)
                    (map-alter (λ p. p.ident) (is_execution target_id) _ t.executions (λ p. refl))
                  ∙ find_row-mem (λ p. p.ident) (IsExecution hash) member_link target_id
                      t.executions done.target done.target_found)
                disjoint (shared-IsTable now _ target_id t.executions t.members sound),
            (refl, refl),
            unowned-merge member_link target_id source_id t.members done.differ,
          )

    pub update-kept :
        (now id : ℕ) (u : ExecutionUpdate)
        → update_process_execution hash now actor actor_role t id u ≡ ok t'
        → AreExecutions t
        → AreExecutions t' × SamePreparations t t' × SameMembers t t'
    unfolding write_execution
    update-kept now id u h sound =
        let done = update-UpdateDone hash now actor actor_role t id u t' h in
        let existing_sound =
          find_row-All (λ p. p.ident) (IsExecution hash) id t.executions done.existing
            sound.rows_sound done.existing_found in
        subst (λ after. AreExecutions after × SamePreparations t after × SameMembers t after)
          (sym done.written)
          (
            updated-IsTable (λ p. p.ident) (IsExecution hash) member_link t.executions t.members id
                (write_execution hash now actor u done.actual) done.existing
                (write_execution-ident hash now actor u done.actual) done.existing_found
                (write_execution-IsExecution hash now actor u done.actual done.existing
                  done.accepted done.recorded existing_sound)
                sound,
            (refl, refl),
            refl,
          )
