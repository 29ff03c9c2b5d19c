-- ===== src/Work/Runs/Sound.antt =====
-- Sound tables stay sound, and keep all uses and members, through any sequence of operations.
use perovskite_fabrication_w.Prelude.{◌≡◌, refl, sym, ap, subst, ◌∙◌, String}
use perovskite_fabrication_w.Recipe.Data.{SolutionRecipe}
use perovskite_fabrication_w.Snapshots.{ProcessOperation}
use perovskite_fabrication_w.Work.Data.{Tables}
use perovskite_fabrication_w.Work.Rows.Links.{unowned}
use perovskite_fabrication_w.Work.Rows.Sound.{IsTable}
use perovskite_fabrication_w.Work.Preparations.Recorded.{IsPreparation}
use perovskite_fabrication_w.Work.Executions.Recorded.{IsExecution}
use perovskite_fabrication_w.Work.Preparations.Regroup.{use_link}
use perovskite_fabrication_w.Work.Preparations.Kept.{
  ArePreparations, SameExecutions, SameUses, create-kept as create_preparation-kept,
  split-kept as split_preparation-kept, merge-kept as merge_preparations-kept,
  update-kept as update_preparation-kept,
}
use perovskite_fabrication_w.Work.Executions.Regroup.{member_link}
use perovskite_fabrication_w.Work.Executions.Kept.{
  AreExecutions, SamePreparations, SameMembers, create-kept as create_execution-kept,
  split-kept as split_execution-kept, merge-kept as merge_executions-kept,
  update-kept as update_execution-kept,
}
use perovskite_fabrication_w.Work.Deviations.Links.{create-DeviationDone}
use perovskite_fabrication_w.Work.AsPlanned.Kept.{record-kept}
use perovskite_fabrication_w.Work.Runs.{
  Step, Run, IsWork, create_preparation, split_preparation, merge_preparations, update_preparation,
  create_execution, split_execution, merge_executions, update_execution, record_as_planned, deviate,
  done, next,
}

module _ (solution_hash : SolutionRecipe → String) (process_hash : ProcessOperation → String) where
  -- Sound tables with the same links as before.
  record IsKept (t t' : Tables) : Type 0 where
    sound : IsWork solution_hash process_hash t'
    uses : SameUses solution_hash t t'
    members : SameMembers process_hash t t'

  from_preparations :
      (t t' : Tables)
      → IsWork solution_hash process_hash t
      → ArePreparations solution_hash t'
        × SameExecutions solution_hash t t'
        × SameUses solution_hash t t'
      → IsKept t t'
  from_preparations t t' sound (prepared, others, uses) =
      let (executions, members) = others in
      record {
        sound = record {
          preparations_sound = prepared;
          executions_sound =
              subst
                (λ rows.
                  IsTable (λ p. p.ident) (IsExecution process_hash) member_link rows t'.members)
                (sym executions)
                (subst (IsTable (λ p. p.ident) (IsExecution process_hash) member_link t.executions)
                  (sym members) sound.executions_sound);
        };
        uses = uses;
        members = ap (unowned member_link) members;
      }

  from_executions :
      (t t' : Tables)
      → IsWork solution_hash process_hash t
      → AreExecutions process_hash t'
        × SamePreparations process_hash t t'
        × SameMembers process_hash t t'
      → IsKept t t'
  from_executions t t' sound (executed, others, members) =
      let (preparations, uses) = others in
      record {
        sound = record {
          preparations_sound =
              subst
                (λ rows. IsTable (λ p. p.ident) (IsPreparation solution_hash) use_link rows t'.uses)
                (sym preparations)
                (subst
                  (IsTable (λ p. p.ident) (IsPreparation solution_hash) use_link t.preparations)
                  (sym uses) sound.preparations_sound);
          executions_sound = executed;
        };
        uses = ap (unowned use_link) uses;
        members = members;
      }

  Step-IsKept :
      (t t' : Tables)
      → Step solution_hash process_hash t t'
      → IsWork solution_hash process_hash t
      → IsKept t t'
  Step-IsKept _ _ (create_preparation now new_id actor role t t' batch_id planned notes fresh h)
        sound =
      from_preparations t t' sound (
        create_preparation-kept solution_hash actor role t t' now new_id batch_id planned notes
          fresh h sound.preparations_sound)
  Step-IsKept _ _ (split_preparation now new_id actor role t t' id member_ids notes fresh h) sound =
      from_preparations t t' sound (
        split_preparation-kept solution_hash actor role t t' now new_id id member_ids notes fresh h
          sound.preparations_sound)
  Step-IsKept _ _ (merge_preparations actor role t t' target_id source_id h) sound =
      from_preparations t t' sound (
        merge_preparations-kept solution_hash actor role t t' target_id source_id h
          sound.preparations_sound)
  Step-IsKept _ _ (update_preparation now actor role t t' id u h) sound =
      from_preparations t t' sound
        (update_preparation-kept solution_hash actor role t t' now id u h sound.preparations_sound)
  Step-IsKept _ _ (create_execution now new_id actor role t t' batch_id given fresh h) sound =
      from_executions t t' sound (
        create_execution-kept process_hash actor role t t' now new_id batch_id given fresh h
          sound.executions_sound)
  Step-IsKept _ _ (split_execution now new_id actor role t t' id member_ids notes fresh h) sound =
      from_executions t t' sound (
        split_execution-kept process_hash actor role t t' now new_id id member_ids notes fresh h
          sound.executions_sound)
  Step-IsKept _ _ (merge_executions now actor role t t' target_id source_id h) sound =
      from_executions t t' sound (
        merge_executions-kept process_hash actor role t t' now target_id source_id h
          sound.executions_sound)
  Step-IsKept _ _ (update_execution now actor role t t' id u h) sound =
      from_executions t t' sound
        (update_execution-kept process_hash actor role t t' now id u h sound.executions_sound)
  Step-IsKept _ _ (record_as_planned now actor role t batch_id r h) sound =
      let (prepared, executed, uses, members) =
        record-kept solution_hash process_hash now actor batch_id role t r sound.preparations_sound
          sound.executions_sound h in
      record {
        sound = record { preparations_sound = prepared; executions_sound = executed };
        uses = ap (unowned use_link) uses;
        members = ap (unowned member_link) members;
      }
  Step-IsKept _ _ (deviate now new_id actor role t t' d h) sound =
      let done = create-DeviationDone now new_id actor role t d t' h in
      subst (IsKept t) (sym done.written) (record {
        sound = record {
          preparations_sound = sound.preparations_sound;
          executions_sound = sound.executions_sound;
        };
        uses = refl;
        members = refl;
      })

  pub Step-sound :
      (t t' : Tables)
      → Step solution_hash process_hash t t'
      → IsWork solution_hash process_hash t
      → IsWork solution_hash process_hash t'
  Step-sound t t' step sound = (Step-IsKept t t' step sound).sound

  -- Any sequence of operations that succeed keeps the tables sound: every plan stays one that its validator
  -- accepts as it stands, an actual snapshot is absent or complete with version, hash and recording mode, a
  -- consumed preparation and a completed execution have one, keys stay distinct, and every use and member
  -- belongs to a row that is there and has a key that is unique within it. New rows get primary keys that
  -- no row has.
  pub Run-IsWork :
      (t t' : Tables)
      → IsWork solution_hash process_hash t
      → Run solution_hash process_hash t t'
      → IsWork solution_hash process_hash t'
  Run-IsWork _ _ sound (done t) = sound
  Run-IsWork _ _ sound (next t between t' step rest) =
      Run-IsWork between t' (Step-IsKept t between step sound).sound rest

  -- Any sequence of operations that succeed from sound tables keeps every use and every member, in order and
  -- unchanged up to the preparation or execution that it belongs to: none is lost, added or doubled.
  pub Run-links :
      (t t' : Tables)
      → IsWork solution_hash process_hash t
      → Run solution_hash process_hash t t'
      → (unowned use_link t'.uses ≡ unowned use_link t.uses)
        × (unowned member_link t'.members ≡ unowned member_link t.members)
  Run-links _ _ sound (done t) = (refl, refl)
  Run-links _ _ sound (next t between t' step rest) =
      let kept = Step-IsKept t between step sound in
      let (uses, members) = Run-links between t' kept.sound rest in
      (uses ∙ kept.uses, members ∙ kept.members)
