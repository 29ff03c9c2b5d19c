-- ===== src/Work/Preparations/RoundTrip.antt =====
-- Merging back what was split off a preparation restores the tables.
use perovskite_fabrication_w.Prelude.{
  ℕ, ◌≡◌, refl, sym, ap, subst, ◌∙◌, String, Option, none, some, List, [], ◌∷◌, Bool, true, false,
  ok, ◌==◌, ==_iff, eq_refl, All, All-map, All-zip, count_zero, map,
}
use perovskite_fabrication_w.Batch.Data.{UserRole}
use perovskite_fabrication_w.Batch.Counts.{mem}
use perovskite_fabrication_w.Work.Data.{PreparationRow, UseRow, BatchRow, Tables}
use perovskite_fabrication_w.Work.Rows.{find_row, distinct}
use perovskite_fabrication_w.Work.Rows.Tables.{
  ==_refl, find_row-ident, find_row-All, find_row-append, find_row-inserted, delete-inserted,
  delete-none, alter-none,
}
use perovskite_fabrication_w.Work.Rows.Links.{merge_links, owned, merge-split, keys_unique}
use perovskite_fabrication_w.Work.Rows.Keys.{SplitFact, split-overlap}
use perovskite_fabrication_w.Work.Rows.Selected.{are_keys, selected_of}
use perovskite_fabrication_w.Work.{is_draft, batch_for_actor, with_event}
use perovskite_fabrication_w.Work.Preparations.{
  is_row, is_planned, split_solution_preparation, uses_overlap, preparation_references,
  delete_preparation, check_merge, merge_solution_preparations,
}
use perovskite_fabrication_w.Work.Preparations.Regroup.{
  use_link, new_row, split_tables, SplitDone, split-SplitDone,
}

some_injective {ℓ} : {A : Type ℓ} {a b : A} → some a ≡ some b → a ≡ b
some_injective h = cc

module _ (now new_id actor : ℕ) (actor_role : Option UserRole) (t : Tables) (id : ℕ)
    (member_ids : List ℕ) (notes : String) where
  abbrev chosen : UseRow → Bool
  chosen u = mem u.ident (distinct member_ids)

  -- Nothing in the tables knows the new key yet.
  pub record IsFresh : Type 0 where
    pub of_rows : All (λ p. (p.ident == new_id) ≡ false) t.preparations
    pub of_uses : All (λ u. (u.solution_preparation_id == new_id) ≡ false) t.uses
    pub of_deviations : preparation_references new_id t ≡ 0

  abbrev parted : PreparationRow → Tables
  parted = split_tables now new_id actor actor_role t id member_ids notes

  facts :
      (t' : Tables) (done : SplitDone now new_id actor actor_role t id member_ids notes t')
      → IsFresh
      → are_keys (map (λ u. u.ident) t.uses) ≡ true
      → All (SplitFact use_link chosen id new_id) t.uses
  facts t' done fresh keys =
      All-zip (λ u new of_id. record { fresh = new; from_old = of_id }) t.uses fresh.of_uses
        (selected_of (λ u. u.ident) (owned use_link id) t.uses (distinct member_ids) keys
          done.chosen)

  -- What the merge leaves of the tables after the split.
  deleted :
      (source : PreparationRow)
      → IsFresh
      → All (SplitFact use_link chosen id new_id) t.uses
      → delete_preparation new_id
          (record (parted source) { uses = merge_links use_link id new_id (parted source).uses })
        ≡ with_event actor "solution_preparation.split" new_id t
  unfolding delete_preparation preparation_references
  deleted source fresh each =
      let rows =
        delete-inserted (is_row new_id) t.preparations
          (new_row now new_id actor actor_role t id member_ids notes source) fresh.of_rows
          (==_refl new_id) in
      let back =
        merge-split use_link chosen id new_id t.uses fresh.of_uses
          (All-map (λ u f. f.from_old) t.uses each) in
      let gone = delete-none (owned use_link new_id) t.uses fresh.of_uses in
      let untouched =
        alter-none
          (λ d. elim d.targets.solution_preparation_id [ none ↦ false | some n ↦ n == new_id ])
          (λ d. record d { targets = record d.targets { solution_preparation_id = none } })
          t.deviations
          (count_zero
            (λ d. elim d.targets.solution_preparation_id [ none ↦ false | some n ↦ n == new_id ])
            t.deviations fresh.of_deviations) in
      rw (rows, back, gone, untouched) refl

  check_merge-parted :
      (source : PreparationRow)
      → (source.ident == id) ≡ true
      → (id == new_id) ≡ false
      → is_planned source ≡ true
      → IsFresh
      → All (SplitFact use_link chosen id new_id) t.uses
      → keys_unique use_link t.uses ≡ true
      → check_merge
          (parted source)
          source
          (new_row now new_id actor actor_role t id member_ids notes source)
        ≡ ok tt
  unfolding check_merge preparation_references uses_overlap
  check_merge-parted source own differ planned fresh each unique =
      let ident_is : source.ident ≡ id = (==_iff _ _).0 own in
      let disjoint = split-overlap use_link chosen id new_id t.uses differ each unique in
      rw
        (
          ident_is,
          ==_refl source.planned_version,
          eq_refl source.planned_hash,
          planned,
          fresh.of_deviations,
          disjoint,
        )
        refl

  merged :
      (source : PreparationRow) (locked : BatchRow)
      → find_row (λ p. p.ident) id t.preparations ≡ some source
      → batch_for_actor t source.fabrication_batch_id actor actor_role is_draft ≡ ok locked
      → is_planned source ≡ true
      → IsFresh
      → All (SplitFact use_link chosen id new_id) t.uses
      → keys_unique use_link t.uses ≡ true
      → merge_solution_preparations actor actor_role (parted source) id new_id
        ≡ ok (
            with_event actor "solution_preparation.merge" id
              (with_event actor "solution_preparation.split" new_id t))
  unfolding merge_solution_preparations batch_for_actor
  merged source locked source_found allowed planned fresh each unique =
      let row = new_row now new_id actor actor_role t id member_ids notes source in
      let ident_is = find_row-ident (λ p. p.ident) id t.preparations source source_found in
      let own : (source.ident == id) ≡ true = (==_iff _ _).1 ident_is in
      let differ : (id == new_id) ≡ false =
        subst (λ n. (n == new_id) ≡ false) ident_is
          (find_row-All (λ p. p.ident) (λ p. (p.ident == new_id) ≡ false) id t.preparations source
            fresh.of_rows source_found) in
      rw
        (
          differ,
          find_row-append (λ p. p.ident) id t.preparations (row ∷ []) source source_found,
          find_row-inserted (λ p. p.ident) t.preparations row fresh.of_rows,
          ==_refl source.fabrication_batch_id,
          allowed,
          check_merge-parted source own differ planned fresh each unique,
        )
        (ap (λ rest. ok (with_event actor "solution_preparation.merge" id rest))
          (deleted source fresh each))

  -- A split followed by the merge of the new preparation back into the old one changes nothing but the
  -- audit log: it succeeds and gives back all rows, when the preparation is still planned, the keys are
  -- those of the tables' primary keys and unique constraints, and the key of the new row is fresh.
  pub merge-split_solution_preparation :
      (source : PreparationRow) (t' : Tables)
      → find_row (λ p. p.ident) id t.preparations ≡ some source
      → is_planned source ≡ true
      → are_keys (map (λ u. u.ident) t.uses) ≡ true
      → keys_unique use_link t.uses ≡ true
      → IsFresh
      → split_solution_preparation now new_id actor actor_role t id member_ids notes ≡ ok t'
      → merge_solution_preparations actor actor_role t' id new_id
        ≡ ok (
            with_event actor "solution_preparation.merge" id
              (with_event actor "solution_preparation.split" new_id t))
  merge-split_solution_preparation source t' source_found planned keys unique fresh split =
      let done = split-SplitDone now new_id actor actor_role t id member_ids notes t' split in
      let same : done.source ≡ source = some_injective (sym done.source_found ∙ source_found) in
      subst
        (λ t'.
          merge_solution_preparations actor actor_role t' id new_id
          ≡ ok (
              with_event actor "solution_preparation.merge" id
                (with_event actor "solution_preparation.split" new_id t)))
        (sym done.written)
        (merged done.source done.locked done.source_found done.allowed
          (subst (λ p. is_planned p ≡ true) (sym same) planned) fresh (facts t' done fresh keys)
          unique)
