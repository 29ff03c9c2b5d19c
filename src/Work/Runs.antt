-- ===== src/Work/Runs.antt =====
-- What holds of the tables after any sequence of the operations of src/web/repository/batch.py that record
-- the work on a batch.
pub mod Sound
pub mod Closed
use perovskite_fabrication_w.Prelude.{
  ℕ, ◌≡◌, refl, sym, ap, subst, ◌∙◌, String, Option, List, Bool, true, false, ok, ◌==◌, All,
  All-map, map,
}
use perovskite_fabrication_w.Recipe.Data.{SolutionRecipe}
use perovskite_fabrication_w.Snapshots.{ProcessOperation}
use perovskite_fabrication_w.Batch.Data.{UserRole}
use perovskite_fabrication_w.Work.Data.{Tables}
use perovskite_fabrication_w.Work.Preparations.{
  split_solution_preparation, merge_solution_preparations,
}
use perovskite_fabrication_w.Work.Preparations.Recording.{
  PreparationUpdate, update_solution_preparation, create_solution_preparation,
}
use perovskite_fabrication_w.Work.Preparations.Kept.{ArePreparations, SameUses}
use perovskite_fabrication_w.Work.Executions.{split_process_execution, merge_process_executions}
use perovskite_fabrication_w.Work.Executions.Recording.{
  ExecutionUpdate, NewExecution, update_process_execution, create_process_execution,
}
use perovskite_fabrication_w.Work.Executions.Kept.{AreExecutions, SameMembers}
use perovskite_fabrication_w.Work.Deviations.{NewDeviation, create_deviation}
use perovskite_fabrication_w.Work.AsPlanned.{Recorded, record_batch_as_planned}

module _ (solution_hash : SolutionRecipe → String) (process_hash : ProcessOperation → String) where
  -- One operation that succeeds. The primary key of a new row is one that no row has.
  pub data Step : Tables → Tables → Type 0 where
    create_preparation :
        (now new_id actor : ℕ) (role : Option UserRole) (t t' : Tables) (batch_id : ℕ)
        (planned : SolutionRecipe) (notes : String)
        → All (λ p. (p.ident == new_id) ≡ false) t.preparations
        → create_solution_preparation solution_hash now new_id actor role t batch_id planned notes
          ≡ ok t'
        → Step t t'
    split_preparation :
        (now new_id actor : ℕ) (role : Option UserRole) (t t' : Tables) (id : ℕ)
        (member_ids : List ℕ) (notes : String)
        → All (λ p. (p.ident == new_id) ≡ false) t.preparations
        → split_solution_preparation now new_id actor role t id member_ids notes ≡ ok t'
        → Step t t'
    merge_preparations :
        (actor : ℕ) (role : Option UserRole) (t t' : Tables) (target_id source_id : ℕ)
        → merge_solution_preparations actor role t target_id source_id ≡ ok t'
        → Step t t'
    update_preparation :
        (now actor : ℕ) (role : Option UserRole) (t t' : Tables) (id : ℕ) (u : PreparationUpdate)
        → update_solution_preparation solution_hash now actor role t id u ≡ ok t'
        → Step t t'
    create_execution :
        (now new_id actor : ℕ) (role : Option UserRole) (t t' : Tables) (batch_id : ℕ)
        (given : NewExecution)
        → All (λ e. (e.ident == new_id) ≡ false) t.executions
        → create_process_execution process_hash now new_id actor role t batch_id given ≡ ok t'
        → Step t t'
    split_execution :
        (now new_id actor : ℕ) (role : Option UserRole) (t t' : Tables) (id : ℕ)
        (member_ids : List ℕ) (notes : String)
        → All (λ e. (e.ident == new_id) ≡ false) t.executions
        → split_process_execution now new_id actor role t id member_ids notes ≡ ok t'
        → Step t t'
    merge_executions :
        (now actor : ℕ) (role : Option UserRole) (t t' : Tables) (target_id source_id : ℕ)
        → merge_process_executions now actor role t target_id source_id ≡ ok t'
        → Step t t'
    update_execution :
        (now actor : ℕ) (role : Option UserRole) (t t' : Tables) (id : ℕ) (u : ExecutionUpdate)
        → update_process_execution process_hash now actor role t id u ≡ ok t'
        → Step t t'
    record_as_planned :
        (now actor : ℕ) (role : Option UserRole) (t : Tables) (batch_id : ℕ) (r : Recorded)
        → record_batch_as_planned solution_hash process_hash now actor role t batch_id ≡ ok r
        → Step t r.tables
    deviate :
        (now new_id actor : ℕ) (role : Option UserRole) (t t' : Tables) (d : NewDeviation)
        → create_deviation now new_id actor role t d ≡ ok t'
        → Step t t'

  -- Any number of operations.
  pub data Run : Tables → Tables → Type 0 where
    done : (t : Tables) → Run t t
    next : (t t' last : Tables) → Step t t' → Run t' last → Run t last

  -- Rows that are recorded soundly, and links that belong to rows that are there.
  pub record IsWork (t : Tables) : Type 0 where
    pub preparations_sound : ArePreparations solution_hash t
    pub executions_sound : AreExecutions process_hash t
