-- ===== src/Work/Preparations/Codes.antt =====
-- The codes of preparations: a creation numbers its row by the count of the rows of the batch, and the
-- column is unique.
use perovskite_fabrication_w.Prelude.{
  ℕ, suc, ◌≡◌, refl, sym, ap, subst, ◌∙◌, String, Option, some, List, [], ◌∷◌, Bool, true, false,
  not, ok, err, ◌==◌, ==_iff, str_eq, eq_iff, any, count, map, inl, inr, Bool-cases, and_split,
  arith, All,
}
use perovskite_fabrication_w.Recipe.Data.{SolutionRecipe}
use perovskite_fabrication_w.Snapshots.{validate_solution_snapshot}
use perovskite_fabrication_w.Batch.Data.{UserRole}
use perovskite_fabrication_w.Batch.Counts.{mem}
use perovskite_fabrication_w.Work.Data.{PreparationRow, BatchRow, Tables}
use perovskite_fabrication_w.Work.Rows.{find_row, delete}
use perovskite_fabrication_w.Work.Rows.Tables.{find_row-delete_other, delete-none}
use perovskite_fabrication_w.Work.Rows.Selected.{are_keys, absent-All}
use perovskite_fabrication_w.Work.{code_taken, is_draft, batch_for_actor}
use perovskite_fabrication_w.Work.Preparations.{
  is_row, insert_preparation, delete_preparation, merge_solution_preparations,
}
use perovskite_fabrication_w.Work.Preparations.Recording.{
  preparation_code_of, new_preparation, create_solution_preparation,
}
use perovskite_fabrication_w.Work.Preparations.Merged.{merge-MergeDone}

module _ {A : Type 0} (ident : A → ℕ) where
  any_found :
      (test : A → Bool) (key : ℕ) (rows : List A) (row : A)
      → test row ≡ true
      → find_row ident key rows ≡ some row
      → any test rows ≡ true
  any_found test key [] row met = λ found. absurd cc
  any_found test key (a ∷ rows) row met = elim (Bool-cases (ident a == key)) [
    | inl e ↦ rw e (λ found.
        let same : a ≡ row = cc in
        let here : test a ≡ true = subst (λ r. test r ≡ true) (sym same) met in rw here refl)
    | inr e ↦
        rw e (λ found. let later = any_found test key rows row met found in ground (arith, later))
  ]

  -- A delete by key takes one row.
  count-delete :
      (test : A → Bool) (key : ℕ) (rows : List A) (row : A)
      → are_keys (map ident rows) ≡ true
      → test row ≡ true
      → find_row ident key rows ≡ some row
      → suc (count test (delete (λ a. ident a == key) rows)) ≡ count test rows
  unfolding are_keys
  count-delete test key [] row keys met = λ found. absurd cc
  count-delete test key (a ∷ rows) row keys met =
      let (absent, rest) =
        and_split (not (mem (ident a) (map ident rows))) (are_keys (map ident rows)) keys in
      elim (Bool-cases (ident a == key)) [
        | inl e ↦ rw e (λ found.
            let same : a ≡ row = cc in
            let here : test a ≡ true = subst (λ r. test r ≡ true) (sym same) met in
            let at_key : ident a ≡ key = (==_iff _ _).0 e in
            let others : delete (λ b. ident b == key) rows ≡ rows =
              delete-none (λ b. ident b == key) rows
                (subst (λ k. All (λ b. (ident b == k) ≡ false) rows) at_key
                  (absent-All ident (ident a) rows (ground arith))) in
            rw (here, others) refl)
        | inr e ↦ rw e (λ found.
            let later = count-delete test key rows row rest met found in
            elim (Bool-cases (test a)) [ inl d ↦ rw d (ap suc later) | inr d ↦ rw d later ])
      ]

module _ (hash : SolutionRecipe → String) where
  -- A creation fails with the unique constraint when the row that holds the last number of the batch outlived
  -- the merge of another: the count has gone down by one, so the number is given again.
  pub create-merge_code_taken :
      (now new_id actor : ℕ) (actor_role : Option UserRole) (t t' : Tables)
      (target_id source_id last_id : ℕ) (source last : PreparationRow) (locked : BatchRow)
      (given planned : SolutionRecipe) (notes : String)
      → are_keys (map (λ p. p.ident) t.preparations) ≡ true
      → merge_solution_preparations actor actor_role t target_id source_id ≡ ok t'
      → find_row (λ p. p.ident) source_id t.preparations ≡ some source
      → find_row (λ p. p.ident) last_id t.preparations ≡ some last
      → is_row source_id last ≡ false
      → last.preparation_code
        ≡ preparation_code_of source.fabrication_batch_id
            (count (λ p. p.fabrication_batch_id == source.fabrication_batch_id) t.preparations)
      → validate_solution_snapshot given ≡ ok planned
      → batch_for_actor t source.fabrication_batch_id actor actor_role is_draft ≡ ok locked
      → create_solution_preparation hash now new_id actor actor_role t' source.fabrication_batch_id
          given notes
        ≡ err code_taken
  unfolding create_solution_preparation insert_preparation new_preparation delete_preparation
      batch_for_actor
  create-merge_code_taken now new_id actor actor_role t t' target_id source_id last_id source last
        locked given planned notes keys merge source_found last_found other code accepted allowed =
      let merged = merge-MergeDone actor actor_role t target_id source_id t' merge in
      let batch_id = source.fabrication_batch_id in
      let left = delete (is_row source_id) t.preparations in
      let of_batch = λ (p : PreparationRow). p.fabrication_batch_id == batch_id in
      let number : suc (count of_batch left) ≡ count of_batch t.preparations =
        count-delete (λ p. p.ident) of_batch source_id t.preparations source keys
          ((==_iff batch_id batch_id).1 refl) source_found in
      let still =
        find_row-delete_other (λ p. p.ident) (is_row source_id) last_id t.preparations last other
          last_found in
      let same_code : str_eq last.preparation_code
            (preparation_code_of batch_id (suc (count of_batch left)))
          ≡ true =
        (eq_iff _ _).1 (code ∙ ap (preparation_code_of batch_id) (sym number)) in
      let taken =
        any_found (λ p. p.ident)
          (λ p.
            str_eq p.preparation_code (preparation_code_of batch_id (suc (count of_batch left))))
          last_id left last same_code still in
      subst
        (λ after.
          create_solution_preparation hash now new_id actor actor_role after batch_id given notes
          ≡ err code_taken)
        (sym merged.written) (rw (accepted, allowed, taken) refl)
