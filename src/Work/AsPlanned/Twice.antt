-- ===== src/Work/AsPlanned/Twice.antt =====
-- A second `record_batch_as_planned` finds nothing to do, and what the first wrote is sound.
use perovskite_fabrication_w.Prelude.{
  ℕ, ◌≡◌, refl, ap, subst, ◌∙◌, String, Option, some, List, [], ◌++◌, false, ok, ◌>>=◌, >>=-eq-ok,
  inl, inr, Bool-cases, All, All-map, keep, count, count_none, arith,
}
use perovskite_fabrication_w.Recipe.Data.{SolutionRecipe}
use perovskite_fabrication_w.Recipe.Layer.{traverse}
use perovskite_fabrication_w.Snapshots.{
  ProcessOperation, validate_solution_snapshot, validate_process_snapshot,
}
use perovskite_fabrication_w.Batch.Data.{UserRole}
use perovskite_fabrication_w.Work.Data.{PreparationRow, ExecutionRow, BatchRow, Tables}
use perovskite_fabrication_w.Work.{or_snapshot_refused, is_open, batch_for_actor}
use perovskite_fabrication_w.Work.AsPlanned.{
  is_pending, is_pending_execution, Recorded, copied_preparation, copy_preparation,
  copied_execution, copy_execution, copy_events, with_summary, prepared_events, executed_events,
  record_batch_as_planned,
}
use perovskite_fabrication_w.Work.AsPlanned.Copies.{
  traverse_fixed, traverse-All, keep_none, append_nil,
}

module _ (solution_hash : SolutionRecipe → String) (process_hash : ProcessOperation → String) where
  copied-settled :
      (now actor batch_id : ℕ) (p q : PreparationRow)
      → copy_preparation solution_hash process_hash now actor batch_id p ≡ ok q
      → is_pending batch_id q ≡ false
  unfolding copy_preparation
  copied-settled now actor batch_id p q = elim (Bool-cases (is_pending batch_id p)) [
    | inl e ↦ rw e (λ h.
        let (snapshot, accepted, last) =
          >>=-eq-ok (or_snapshot_refused (validate_solution_snapshot p.planned_snapshot))
            (λ snapshot. ok (copied_preparation solution_hash process_hash now actor p snapshot))
            h in
        let same : copied_preparation solution_hash process_hash now actor p snapshot ≡ q = cc in
        subst (λ r. is_pending batch_id r ≡ false) same (ground arith))
    | inr e ↦ rw e (λ h. let same : p ≡ q = cc in subst (λ r. is_pending batch_id r ≡ false) same e)
  ]

  executed-settled :
      (now actor batch_id : ℕ) (p q : ExecutionRow)
      → copy_execution solution_hash process_hash now actor batch_id p ≡ ok q
      → is_pending_execution batch_id q ≡ false
  unfolding copy_execution
  executed-settled now actor batch_id p q = elim (Bool-cases (is_pending_execution batch_id p)) [
    | inl e ↦ rw e (λ h.
        let (snapshot, accepted, last) =
          >>=-eq-ok
            (or_snapshot_refused (validate_process_snapshot (some p.method) p.planned_snapshot))
            (λ snapshot. ok (copied_execution solution_hash process_hash now actor p snapshot)) h in
        let same : copied_execution solution_hash process_hash now actor p snapshot ≡ q = cc in
        subst (λ r. is_pending_execution batch_id r ≡ false) same (ground arith))
    | inr e ↦
        rw e (λ h.
          let same : p ≡ q = cc in subst (λ r. is_pending_execution batch_id r ≡ false) same e)
  ]

  no_events :
      (now actor : ℕ) (t : Tables) (batch_id : ℕ)
      → All (λ p. is_pending batch_id p ≡ false) t.preparations
      → All (λ e. is_pending_execution batch_id e ≡ false) t.executions
      → copy_events solution_hash process_hash now actor batch_id t ≡ []
  unfolding copy_events
  no_events now actor t batch_id prepared executed =
      let none_prepared = keep_none (is_pending batch_id) t.preparations prepared in
      let none_executed = keep_none (is_pending_execution batch_id) t.executions executed in
      ap
        (λ ps. with_summary solution_hash process_hash now actor batch_id (
          prepared_events solution_hash process_hash now actor ps
          ++ executed_events solution_hash process_hash now actor
              (keep (is_pending_execution batch_id) t.executions)))
        none_prepared
      ∙ ap
          (λ es.
            with_summary solution_hash process_hash now actor batch_id
              (executed_events solution_hash process_hash now actor es))
          none_executed

  -- Tables without a pending row are returned as they are.
  nothing_pending :
      (now actor : ℕ) (actor_role : Option UserRole) (t : Tables) (batch_id : ℕ) (locked : BatchRow)
      → All (λ p. is_pending batch_id p ≡ false) t.preparations
      → All (λ e. is_pending_execution batch_id e ≡ false) t.executions
      → batch_for_actor t batch_id actor actor_role is_open ≡ ok locked
      → record_batch_as_planned solution_hash process_hash now actor actor_role t batch_id
        ≡ ok (record { tables = t; preparations = 0; executions = 0 })
  unfolding record_batch_as_planned copy_preparation copy_execution
  nothing_pending now actor actor_role t batch_id locked prepared executed allowed =
      let preparations =
        traverse_fixed (copy_preparation solution_hash process_hash now actor batch_id)
          t.preparations (All-map (λ p e. rw e refl) t.preparations prepared) in
      let executions =
        traverse_fixed (copy_execution solution_hash process_hash now actor batch_id) t.executions
          (All-map (λ p e. rw e refl) t.executions executed) in
      rw
        (
          allowed,
          preparations,
          executions,
          count_none (is_pending batch_id) t.preparations prepared,
          count_none (is_pending_execution batch_id) t.executions executed,
          no_events now actor t batch_id prepared executed,
          append_nil t.audit,
        )
        refl

  abbrev recorded_result : ℕ → ℕ → Tables → ℕ → List PreparationRow → List ExecutionRow → Recorded
  recorded_result now actor t batch_id ps es = record {
    tables = record t {
      preparations = ps;
      executions = es;
      audit = t.audit ++ copy_events solution_hash process_hash now actor batch_id t;
    };
    preparations = count (is_pending batch_id) t.preparations;
    executions = count (is_pending_execution batch_id) t.executions;
  }

  -- After `record_batch_as_planned` succeeded, the same call on the tables that it left, at any time and by
  -- any actor who may write to the open batch, changes nothing and counts no row.
  pub record_batch_as_planned_idem :
      (now actor later again : ℕ) (actor_role again_role : Option UserRole) (t : Tables)
      (batch_id : ℕ) (r : Recorded) (locked : BatchRow)
      → record_batch_as_planned solution_hash process_hash now actor actor_role t batch_id ≡ ok r
      → batch_for_actor t batch_id again again_role is_open ≡ ok locked
      → record_batch_as_planned solution_hash process_hash later again again_role r.tables batch_id
        ≡ ok (record { tables = r.tables; preparations = 0; executions = 0 })
  unfolding record_batch_as_planned batch_for_actor
  record_batch_as_planned_idem now actor later again actor_role again_role t batch_id r locked h
        allowed =
      let result = recorded_result now actor t batch_id in
      let copies =
        traverse (copy_preparation solution_hash process_hash now actor batch_id) t.preparations in
      let runs =
        traverse (copy_execution solution_hash process_hash now actor batch_id) t.executions in
      let step2 =
        λ (ps : List PreparationRow). runs >>= λ (es : List ExecutionRow). ok (result ps es) in
      let (first, first_ok, h1) =
        >>=-eq-ok (batch_for_actor t batch_id actor actor_role is_open)
          (λ (b : BatchRow). copies >>= step2) h in
      let (ps, ps_ok, h2) = >>=-eq-ok copies step2 h1 in
      let (es, es_ok, h3) = >>=-eq-ok runs (λ (es : List ExecutionRow). ok (result ps es)) h2 in
      let same : result ps es ≡ r = cc in
      let prepared =
        traverse-All _ (λ p. is_pending batch_id p ≡ false) t.preparations ps
          (copied-settled now actor batch_id) ps_ok in
      let executed =
        traverse-All _ (λ e. is_pending_execution batch_id e ≡ false) t.executions es
          (executed-settled now actor batch_id) es_ok in
      subst
        (λ r.
          record_batch_as_planned solution_hash process_hash later again again_role r.tables
            batch_id
          ≡ ok (record { tables = r.tables; preparations = 0; executions = 0 }))
        same
        (nothing_pending later again again_role (result ps es).tables batch_id locked prepared
          executed allowed)
