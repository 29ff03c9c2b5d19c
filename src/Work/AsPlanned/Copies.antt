-- ===== src/Work/AsPlanned/Copies.antt =====
-- `record_batch_as_planned` on sound tables: it succeeds, each open row that was not recorded gets exactly
-- its plan, and a second call finds nothing to do.
use perovskite_fabrication_w.Prelude.{
  ℕ, ◌≡◌, refl, sym, ap, subst, String, Option, List, [], ◌∷◌, ◌++◌, Bool, false, Result, ok, ◌>>=◌,
  >>=-eq-ok, if◌then◌else◌, inl, inr, Bool-cases, All, All-map, keep, count, map,
}
use perovskite_fabrication_w.Recipe.Data.{SolutionRecipe}
use perovskite_fabrication_w.Recipe.Layer.{traverse}
use perovskite_fabrication_w.Snapshots.{ProcessOperation}
use perovskite_fabrication_w.Batch.Data.{UserRole}
use perovskite_fabrication_w.Work.Data.{PreparationRow, ExecutionRow, BatchRow, Tables}
use perovskite_fabrication_w.Work.{is_open, batch_for_actor}
use perovskite_fabrication_w.Work.Preparations.Recorded.{IsPreparation}
use perovskite_fabrication_w.Work.Executions.Recorded.{IsExecution}
use perovskite_fabrication_w.Work.AsPlanned.{
  is_pending, is_pending_execution, copied_preparation, copy_preparation, copied_execution,
  copy_execution, copy_events, record_batch_as_planned,
}

module _ {ℓ} {E : Type ℓ} {A : Type 0} (f : A → Result E A) where
  -- A traversal by a function that succeeds.
  traverse_ok :
      (g : A → A) (rows : List A)
      → All (λ a. f a ≡ ok (g a)) rows
      → traverse f rows ≡ ok (map g rows)
  traverse_ok g [] h = refl
  traverse_ok g (a ∷ rows) h = rw (h.0, traverse_ok g rows h.1) refl

  pub traverse_fixed : (rows : List A) → All (λ a. f a ≡ ok a) rows → traverse f rows ≡ ok rows
  traverse_fixed [] h = refl
  traverse_fixed (a ∷ rows) h = rw (h.0, traverse_fixed rows h.1) refl

  pub traverse-All :
      (P : A → Type 0) (rows others : List A)
      → ((a b : A) → f a ≡ ok b → P b)
      → traverse f rows ≡ ok others
      → All P others
  traverse-All P [] others each h = let same : others ≡ [] = cc in subst (All P) (sym same) tt
  traverse-All P (a ∷ rows) others each h =
      let (first, one, h1) = >>=-eq-ok (f a) (λ b. traverse f rows >>= λ bs. ok (b ∷ bs)) h in
      let (rest, many, last) = >>=-eq-ok (traverse f rows) (λ bs. ok (first ∷ bs)) h1 in
      let same : others ≡ first ∷ rest = cc in
      subst (All P) (sym same) (each a first one, traverse-All P rows rest each many)

pub keep_none :
    {A : Type 0} (p : A → Bool) (rows : List A) → All (λ a. p a ≡ false) rows → keep p rows ≡ []
keep_none p [] h = refl
keep_none p (a ∷ rows) h = rw (h.0, keep_none p rows h.1) refl

pub append_nil : {A : Type 0} (rows : List A) → rows ++ [] ≡ rows
append_nil [] = refl
append_nil (a ∷ rows) = ap (λ l. a ∷ l) (append_nil rows)

module _ (solution_hash : SolutionRecipe → String) (process_hash : ProcessOperation → String)
    (now actor : ℕ) where
  -- A row with its plan as its actual snapshot, if it is open and not recorded yet.
  abbrev pub as_planned : ℕ → PreparationRow → PreparationRow
  as_planned batch_id p =
      if is_pending batch_id p
      then copied_preparation solution_hash process_hash now actor p p.planned_snapshot
      else p

  abbrev pub executed_as_planned : ℕ → ExecutionRow → ExecutionRow
  executed_as_planned batch_id e =
      if is_pending_execution batch_id e
      then copied_execution solution_hash process_hash now actor e e.planned_snapshot
      else e

  copy_preparation_ok :
      (batch_id : ℕ) (p : PreparationRow)
      → IsPreparation solution_hash p
      → copy_preparation solution_hash process_hash now actor batch_id p
        ≡ ok (as_planned batch_id p)
  unfolding copy_preparation
  copy_preparation_ok batch_id p sound = elim (Bool-cases (is_pending batch_id p)) [
    | inl e ↦ rw (e, sound.kept.0.plan_accepted) refl
    | inr e ↦ rw e refl
  ]

  copy_execution_ok :
      (batch_id : ℕ) (e : ExecutionRow)
      → IsExecution process_hash e
      → copy_execution solution_hash process_hash now actor batch_id e
        ≡ ok (executed_as_planned batch_id e)
  unfolding copy_execution
  copy_execution_ok batch_id e sound = elim (Bool-cases (is_pending_execution batch_id e)) [
    | inl d ↦ rw (d, sound.kept.0.plan_accepted) refl
    | inr d ↦ rw d refl
  ]

  pub record_batch_as_planned_ok :
      (actor_role : Option UserRole) (t : Tables) (batch_id : ℕ) (locked : BatchRow)
      → All (IsPreparation solution_hash) t.preparations
      → All (IsExecution process_hash) t.executions
      → batch_for_actor t batch_id actor actor_role is_open ≡ ok locked
      → record_batch_as_planned solution_hash process_hash now actor actor_role t batch_id
        ≡ ok (record {
          tables = record t {
            preparations = map (as_planned batch_id) t.preparations;
            executions = map (executed_as_planned batch_id) t.executions;
            audit = t.audit ++ copy_events solution_hash process_hash now actor batch_id t;
          };
          preparations = count (is_pending batch_id) t.preparations;
          executions = count (is_pending_execution batch_id) t.executions;
        })
  unfolding record_batch_as_planned
  record_batch_as_planned_ok actor_role t batch_id locked prepared executed allowed =
      let preparations =
        traverse_ok _ (as_planned batch_id) t.preparations
          (All-map (copy_preparation_ok batch_id) t.preparations prepared) in
      let executions =
        traverse_ok _ (executed_as_planned batch_id) t.executions
          (All-map (copy_execution_ok batch_id) t.executions executed) in
      rw (allowed, preparations, executions) refl
