-- ===== src/Work/Preparations/Kept.antt =====
-- Every operation on preparations keeps the tables of preparations and uses sound, and leaves those of
-- executions and members alone.
use perovskite_fabrication_w.Prelude.{
  ℕ, ◌≡◌, refl, sym, ap, subst, ◌∙◌, String, Option, List, [], ◌∷◌, ◌++◌, false, ok, ◌>>=◌,
  >>=-eq-ok, ◌==◌, All,
}
use perovskite_fabrication_w.Recipe.Data.{SolutionRecipe}
use perovskite_fabrication_w.Snapshots.{validate_solution_snapshot}
use perovskite_fabrication_w.Batch.Data.{UserRole}
use perovskite_fabrication_w.Work.Data.{BatchRow, Tables}
use perovskite_fabrication_w.Work.Rows.Tables.{find_row-ident, find_row-All}
use perovskite_fabrication_w.Work.Rows.Links.{unowned, unowned-split, unowned-merge}
use perovskite_fabrication_w.Work.Rows.Sound.{
  IsTable, inserted-IsTable, split-IsTable, merged-IsTable, updated-IsTable, find_row-mem,
}
use perovskite_fabrication_w.Work.{or_snapshot_refused, is_draft, batch_for_actor, with_event}
use perovskite_fabrication_w.Work.Preparations.{
  uses_of, insert_preparation, uses_overlap, delete_preparation, split_solution_preparation,
  merge_solution_preparations,
}
use perovskite_fabrication_w.Work.Preparations.Recording.{
  PreparationUpdate, write_preparation, update_solution_preparation, new_preparation,
  create_solution_preparation,
}
use perovskite_fabrication_w.Work.Preparations.Regroup.{
  use_link, insert_preparation-eq-ok, new_row, split-SplitDone,
}
use perovskite_fabrication_w.Work.Preparations.Merged.{merge-MergeDone}
use perovskite_fabrication_w.Work.Preparations.Updated.{update-UpdateDone, write_preparation-ident}
use perovskite_fabrication_w.Work.Preparations.Recorded.{
  IsPreparation, split_row-IsPreparation, new_preparation-IsPreparation,
  write_preparation-IsPreparation,
}

module _ (hash : SolutionRecipe → String) where
  abbrev pub ArePreparations : Tables → Type 0
  ArePreparations t = IsTable (λ p. p.ident) (IsPreparation hash) use_link t.preparations t.uses

  -- The tables that an operation on preparations leaves alone.
  abbrev pub SameExecutions : Tables → Tables → Type 0
  SameExecutions t t' = (t'.executions ≡ t.executions) × (t'.members ≡ t.members)

  -- The uses are those that were there, up to the row that each belongs to.
  abbrev pub SameUses : Tables → Tables → Type 0
  SameUses t t' = unowned use_link t'.uses ≡ unowned use_link t.uses

  module _ (actor : ℕ) (actor_role : Option UserRole) (t t' : Tables) where
    -- What a creation that succeeds has accepted, and what it writes.
    pub create-written :
        (now new_id batch_id : ℕ) (given : SolutionRecipe) (notes : String)
        → create_solution_preparation hash now new_id actor actor_role t batch_id given notes
          ≡ ok t'
        → (planned : SolutionRecipe) × (or_snapshot_refused (validate_solution_snapshot given)
            ≡ ok planned)
          × (t'
              ≡ with_event actor "solution_preparation.create" new_id (record t {
                preparations =
                    t.preparations
                    ++ (new_preparation hash now new_id batch_id t planned notes ∷ []);
              }))
    unfolding create_solution_preparation
    create-written now new_id batch_id given notes h =
        let row =
          λ (planned : SolutionRecipe). new_preparation hash now new_id batch_id t planned notes in
        let finish =
          λ (grown : Tables). ok (with_event actor "solution_preparation.create" new_id grown) in
        let insert = λ (planned : SolutionRecipe) (locked : BatchRow).
          insert_preparation (row planned) t >>= finish in
        let lock = batch_for_actor t batch_id actor actor_role is_draft in
        let (planned, accepted, h1) =
          >>=-eq-ok (or_snapshot_refused (validate_solution_snapshot given))
            (λ planned. lock >>= insert planned) h in
        let (locked, lock_ok, h2) = >>=-eq-ok lock (insert planned) h1 in
        let (grown, inserted, last) = >>=-eq-ok (insert_preparation (row planned) t) finish h2 in
        let whole = insert_preparation-eq-ok (row planned) t grown inserted in
        let written : t' ≡ with_event actor "solution_preparation.create" new_id grown = cc in
        (
          planned,
          accepted,
          written ∙ ap (with_event actor "solution_preparation.create" new_id) whole,
        )

    pub create-kept :
        (now new_id batch_id : ℕ) (given : SolutionRecipe) (notes : String)
        → All (λ p. (p.ident == new_id) ≡ false) t.preparations
        → create_solution_preparation hash now new_id actor actor_role t batch_id given notes
          ≡ ok t'
        → ArePreparations t
        → ArePreparations t' × SameExecutions t t' × SameUses t t'
    unfolding new_preparation
    create-kept now new_id batch_id given notes fresh h sound =
        let (planned, accepted, written) = create-written now new_id batch_id given notes h in
        subst (λ after. ArePreparations after × SameExecutions t after × SameUses t after)
          (sym written)
          (
            inserted-IsTable (λ p. p.ident) (IsPreparation hash) use_link t.preparations t.uses
                (new_preparation hash now new_id batch_id t planned notes) fresh
                (new_preparation-IsPreparation hash now new_id batch_id t given planned notes
                  accepted)
                sound,
            (refl, refl),
            refl,
          )

    pub split-kept :
        (now new_id id : ℕ) (member_ids : List ℕ) (notes : String)
        → All (λ p. (p.ident == new_id) ≡ false) t.preparations
        → split_solution_preparation now new_id actor actor_role t id member_ids notes ≡ ok t'
        → ArePreparations t
        → ArePreparations t' × SameExecutions t t' × SameUses t t'
    split-kept now new_id id member_ids notes fresh h sound =
        let done = split-SplitDone now new_id actor actor_role t id member_ids notes t' h in
        let source_sound =
          find_row-All (λ p. p.ident) (IsPreparation hash) id t.preparations done.source
            sound.rows_sound done.source_found in
        subst (λ after. ArePreparations after × SameExecutions t after × SameUses t after)
          (sym done.written)
          (
            split-IsTable (λ p. p.ident) (IsPreparation hash) use_link t.preparations t.uses _ id
                (new_row now new_id actor actor_role t id member_ids notes done.source) fresh
                (split_row-IsPreparation hash now new_id _ notes done.source source_sound)
                done.chosen sound,
            (refl, refl),
            unowned-split use_link _ new_id t.uses,
          )

    pub merge-kept :
        (target_id source_id : ℕ)
        → merge_solution_preparations actor actor_role t target_id source_id ≡ ok t'
        → ArePreparations t
        → ArePreparations t' × SameExecutions t t' × SameUses t t'
    unfolding delete_preparation uses_overlap
    merge-kept target_id source_id h sound =
        let done = merge-MergeDone actor actor_role t target_id source_id t' h in
        let target_is =
          find_row-ident (λ p. p.ident) target_id t.preparations done.target done.target_found in
        let source_is =
          find_row-ident (λ p. p.ident) source_id t.preparations done.source done.source_found in
        let disjoint : uses_overlap (uses_of target_id t.uses) (uses_of source_id t.uses) ≡ false =
          subst (λ n. uses_overlap (uses_of target_id t.uses) (uses_of n t.uses) ≡ false) source_is
            (subst (λ n. uses_overlap (uses_of n t.uses) (uses_of done.source.ident t.uses) ≡ false)
              target_is done.checked.disjoint) in
        subst (λ after. ArePreparations after × SameExecutions t after × SameUses t after)
          (sym done.written)
          (
            merged-IsTable (λ p. p.ident) (IsPreparation hash) use_link t.preparations t.uses
                target_id source_id done.differ
                (find_row-mem (λ p. p.ident) (IsPreparation hash) use_link target_id t.preparations
                  done.target done.target_found)
                disjoint sound,
            (refl, refl),
            unowned-merge use_link target_id source_id t.uses done.differ,
          )

    pub update-kept :
        (now id : ℕ) (u : PreparationUpdate)
        → update_solution_preparation hash now actor actor_role t id u ≡ ok t'
        → ArePreparations t
        → ArePreparations t' × SameExecutions t t' × SameUses t t'
    unfolding write_preparation
    update-kept now id u h sound =
        let done = update-UpdateDone hash now actor actor_role t id u t' h in
        let existing_sound =
          find_row-All (λ p. p.ident) (IsPreparation hash) id t.preparations done.existing
            sound.rows_sound done.existing_found in
        subst (λ after. ArePreparations after × SameExecutions t after × SameUses t after)
          (sym done.written)
          (
            updated-IsTable (λ p. p.ident) (IsPreparation hash) use_link t.preparations t.uses id
                (write_preparation hash now actor u done.actual) done.existing
                (write_preparation-ident hash now actor u done.actual) done.existing_found
                (write_preparation-IsPreparation hash now actor u done.actual done.existing
                  done.accepted done.recorded existing_sound)
                sound,
            (refl, refl),
            refl,
          )
