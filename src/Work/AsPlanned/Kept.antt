-- ===== src/Work/AsPlanned/Kept.antt =====
-- `record_batch_as_planned` keeps the tables sound and moves no use and no member.
use perovskite_fabrication_w.Prelude.{
  ℕ, ◌≡◌, refl, sym, subst, ◌∙◌, String, Option, List, [], ◌∷◌, ◌++◌, ok, >>=-eq-ok, inl, inr,
  Bool-cases, All, map, arith, count,
}
use perovskite_fabrication_w.Recipe.Data.{SolutionRecipe}
use perovskite_fabrication_w.Snapshots.{ProcessOperation}
use perovskite_fabrication_w.Batch.Data.{UserRole}
use perovskite_fabrication_w.Work.Data.{PreparationRow, ExecutionRow, BatchRow, Tables}
use perovskite_fabrication_w.Work.Rows.Sound.{replaced-IsTable}
use perovskite_fabrication_w.Work.{is_open, batch_for_actor}
use perovskite_fabrication_w.Work.Preparations.Recorded.{IsPreparation}
use perovskite_fabrication_w.Work.Preparations.Regroup.{use_link}
use perovskite_fabrication_w.Work.Preparations.Kept.{ArePreparations}
use perovskite_fabrication_w.Work.Executions.Recorded.{IsExecution}
use perovskite_fabrication_w.Work.Executions.Regroup.{member_link}
use perovskite_fabrication_w.Work.Executions.Kept.{AreExecutions}
use perovskite_fabrication_w.Work.AsPlanned.{
  is_pending, is_pending_execution, Recorded, copy_events, record_batch_as_planned,
}
use perovskite_fabrication_w.Work.AsPlanned.Copies.{
  as_planned, executed_as_planned, record_batch_as_planned_ok,
}

module _ (solution_hash : SolutionRecipe → String) (process_hash : ProcessOperation → String)
    (now actor batch_id : ℕ) where
  as_planned-IsPreparation :
      (p : PreparationRow)
      → IsPreparation solution_hash p
      → IsPreparation solution_hash (as_planned solution_hash process_hash now actor batch_id p)
  as_planned-IsPreparation p sound = elim (Bool-cases (is_pending batch_id p)) [
    | inl e ↦ rw e (record {
      kept = (sound.kept.0, (sound.kept.0.plan_accepted, refl, refl, refl));
      consumed_recorded = ground arith;
    })
    | inr e ↦ rw e sound
  ]

  executed_as_planned-IsExecution :
      (p : ExecutionRow)
      → IsExecution process_hash p
      → IsExecution process_hash
          (executed_as_planned solution_hash process_hash now actor batch_id p)
  executed_as_planned-IsExecution p sound = elim (Bool-cases (is_pending_execution batch_id p)) [
    | inl e ↦ rw e (record {
      kept = (sound.kept.0, (sound.kept.0.plan_accepted, refl, refl, refl));
      completed_recorded = ground arith;
    })
    | inr e ↦ rw e sound
  ]

  as_planned-ident :
      (rows : List PreparationRow)
      → map (λ p. p.ident) (map (as_planned solution_hash process_hash now actor batch_id) rows)
        ≡ map (λ p. p.ident) rows
  as_planned-ident [] = refl
  as_planned-ident (p ∷ rows) = elim (Bool-cases (is_pending batch_id p)) [
    | inl e ↦ rw (e, as_planned-ident rows) refl
    | inr e ↦ rw (e, as_planned-ident rows) refl
  ]

  executed_as_planned-ident :
      (rows : List ExecutionRow)
      → map
          (λ p. p.ident)
          (map (executed_as_planned solution_hash process_hash now actor batch_id) rows)
        ≡ map (λ p. p.ident) rows
  executed_as_planned-ident [] = refl
  executed_as_planned-ident (p ∷ rows) = elim (Bool-cases (is_pending_execution batch_id p)) [
    | inl e ↦ rw (e, executed_as_planned-ident rows) refl
    | inr e ↦ rw (e, executed_as_planned-ident rows) refl
  ]

  All-mapped :
      {A : Type 0} (P : A → Type 0) (f : A → A) (rows : List A)
      → ((a : A) → P a → P (f a))
      → All P rows
      → All P (map f rows)
  All-mapped P f [] step h = tt
  All-mapped P f (a ∷ rows) step h = (step a h.0, All-mapped P f rows step h.1)

  -- The result of a call that succeeds on sound tables.
  abbrev planned_result : Tables → Recorded
  planned_result t = record {
    tables = record t {
      preparations = map (as_planned solution_hash process_hash now actor batch_id) t.preparations;
      executions =
          map (executed_as_planned solution_hash process_hash now actor batch_id) t.executions;
      audit = t.audit ++ copy_events solution_hash process_hash now actor batch_id t;
    };
    preparations = count (is_pending batch_id) t.preparations;
    executions = count (is_pending_execution batch_id) t.executions;
  }

  record-allowed :
      (actor_role : Option UserRole) (t : Tables) (r : Recorded)
      → record_batch_as_planned solution_hash process_hash now actor actor_role t batch_id ≡ ok r
      → (locked : BatchRow) × (batch_for_actor t batch_id actor actor_role is_open ≡ ok locked)
  unfolding record_batch_as_planned
  record-allowed actor_role t r h =
      let (locked, allowed, rest) =
        >>=-eq-ok (batch_for_actor t batch_id actor actor_role is_open) _ h in
      (locked, allowed)

  pub record-planned_result :
      (actor_role : Option UserRole) (t : Tables) (r : Recorded)
      → ArePreparations solution_hash t
      → AreExecutions process_hash t
      → record_batch_as_planned solution_hash process_hash now actor actor_role t batch_id ≡ ok r
      → r ≡ planned_result t
  record-planned_result actor_role t r prepared executed h =
      let (locked, allowed) = record-allowed actor_role t r h in
      let whole =
        record_batch_as_planned_ok solution_hash process_hash now actor actor_role t batch_id locked
          prepared.rows_sound executed.rows_sound allowed in
      let same : ok r ≡ ok (planned_result t) = sym h ∙ whole in cc

  pub record-kept :
      (actor_role : Option UserRole) (t : Tables) (r : Recorded)
      → ArePreparations solution_hash t
      → AreExecutions process_hash t
      → record_batch_as_planned solution_hash process_hash now actor actor_role t batch_id ≡ ok r
      → ArePreparations solution_hash r.tables
        × AreExecutions process_hash r.tables
        × (r.tables.uses ≡ t.uses)
        × (r.tables.members ≡ t.members)
  record-kept actor_role t r prepared executed h =
      subst
        (λ r.
          ArePreparations solution_hash r.tables
          × AreExecutions process_hash r.tables
          × (r.tables.uses ≡ t.uses)
          × (r.tables.members ≡ t.members))
        (sym (record-planned_result actor_role t r prepared executed h))
        (
          replaced-IsTable (λ p. p.ident) (IsPreparation solution_hash) use_link t.preparations _
              t.uses (as_planned-ident t.preparations)
              (All-mapped (IsPreparation solution_hash) _ t.preparations as_planned-IsPreparation
                prepared.rows_sound)
              prepared,
          replaced-IsTable (λ p. p.ident) (IsExecution process_hash) member_link t.executions _
              t.members (executed_as_planned-ident t.executions)
              (All-mapped (IsExecution process_hash) _ t.executions executed_as_planned-IsExecution
                executed.rows_sound)
              executed,
          refl,
          refl,
        )
