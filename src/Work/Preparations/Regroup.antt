-- ===== src/Work/Preparations/Regroup.antt =====
-- Splitting a preparation and merging the part back gives the tables back.
use perovskite_fabrication_w.Prelude.{
  ℕ, suc, ◌≡◌, refl, sym, ap, ◌∙◌, String, Option, some, List, [], ◌∷◌, ◌++◌, true, not, Result, ok,
  ◌>>=◌, ◌>>◌, >>-eq-ok, >>=-eq-ok, raise_if, raise_if-not_iff, ◌==◌, str_eq, all, any, map, length,
}
use perovskite_fabrication_w.Recipe.Stack.{is_empty}
use perovskite_fabrication_w.Batch.Data.{UserRole}
use perovskite_fabrication_w.Batch.Counts.{mem}
use perovskite_fabrication_w.Work.Data.{PreparationRow, UseRow, BatchRow, Tables}
use perovskite_fabrication_w.Work.Rows.{find_row, distinct, greatest}
use perovskite_fabrication_w.Work.Rows.Tables.{found-eq-ok}
use perovskite_fabrication_w.Work.Rows.Links.{Link, split_links}
use perovskite_fabrication_w.Work.{
  WorkError, unknown_preparation, code_taken, nothing_selected, selected_elsewhere, nothing_left,
  is_draft, batch_for_actor, with_event,
}
use perovskite_fabrication_w.Work.Preparations.{
  uses_of, move_use, find_preparation, insert_preparation, check_split, split_row,
  split_solution_preparation,
}

-- The uses of preparations.
abbrev pub use_link : Link UseRow
use_link = record {
  ident = λ u. u.ident;
  owner = λ u. u.solution_preparation_id;
  key = λ u. (u.batch_condition_id, u.layer_ordinal);
  move = move_use;
  ident-move = λ n u. refl;
  owner-move = λ n u. refl;
  key-move = λ n u. refl;
  move-move = λ m n u. refl;
  move-owner = λ u. refl;
}

-- What a successful insert writes.
pub insert_preparation-eq-ok :
    (row : PreparationRow) (t grown : Tables)
    → insert_preparation row t ≡ ok grown
    → grown ≡ record t { preparations = t.preparations ++ (row ∷ []) }
unfolding insert_preparation
insert_preparation-eq-ok row t grown h =
    let whole = record t { preparations = t.preparations ++ (row ∷ []) } in
    let (free, last) =
      >>-eq-ok
        (raise_if (any (λ p. str_eq p.preparation_code row.preparation_code) t.preparations)
          code_taken)
        (ok whole) h in
    let same : whole ≡ grown = cc in sym same

pub check_split-chosen :
    (chosen available : List ℕ)
    → check_split chosen available ≡ ok tt
    → all (λ n. mem n available) chosen ≡ true
unfolding check_split
check_split-chosen chosen available h =
    let within = not (all (λ n. mem n available) chosen) in
    let (held, last) =
      >>-eq-ok (raise_if within selected_elsewhere)
        (raise_if (length chosen == length (distinct available)) nothing_left) h in
    (raise_if-not_iff (all (λ n. mem n available) chosen) selected_elsewhere).0 held

module _ (now new_id actor : ℕ) (actor_role : Option UserRole) (t : Tables) (id : ℕ)
    (member_ids : List ℕ) (notes : String) where
  abbrev selected : List ℕ
  selected = distinct member_ids

  abbrev pub new_row : PreparationRow → PreparationRow
  new_row source =
      split_row now new_id (suc (greatest (map (λ p. p.ident) t.preparations))) notes source

  -- The tables after a split.
  abbrev pub split_tables : PreparationRow → Tables
  split_tables source = with_event actor "solution_preparation.split" new_id (record t {
    preparations = t.preparations ++ (new_row source ∷ []);
    uses = split_links use_link (λ u. mem u.ident selected) new_id t.uses;
  })

  -- What a split that succeeds has found.
  pub record SplitDone (t' : Tables) : Type 0 where
    pub source : PreparationRow
    pub locked : BatchRow
    pub source_found : find_row (λ p. p.ident) id t.preparations ≡ some source
    pub allowed :
        batch_for_actor t source.fabrication_batch_id actor actor_role is_draft ≡ ok locked
    pub chosen : all (λ n. mem n (map (λ u. u.ident) (uses_of id t.uses))) selected ≡ true
    pub written : t' ≡ split_tables source

  abbrev grow : PreparationRow → Result WorkError Tables
  grow source = insert_preparation (new_row source) t >>= λ grown. ok (
      with_event actor "solution_preparation.split" new_id (record grown {
        uses = split_links use_link (λ u. mem u.ident selected) new_id grown.uses;
      }))

  abbrev available : List ℕ
  available = map (λ u. u.ident) (uses_of id t.uses)

  abbrev chosen_then_grow : PreparationRow → BatchRow → Result WorkError Tables
  chosen_then_grow source locked = check_split selected available >> grow source

  abbrev lock_then : PreparationRow → Result WorkError Tables
  lock_then source =
      batch_for_actor t source.fabrication_batch_id actor actor_role is_draft
      >>= chosen_then_grow source

  grow-eq-ok :
      (source : PreparationRow) (t' : Tables) → grow source ≡ ok t' → t' ≡ split_tables source
  grow-eq-ok source t' h =
      let (grown, inserted, last) =
        >>=-eq-ok (insert_preparation (new_row source) t)
          (λ grown. ok (
            with_event actor "solution_preparation.split" new_id (record grown {
              uses = split_links use_link (λ u. mem u.ident selected) new_id grown.uses;
            })))
          h in
      let same : grown ≡ record t { preparations = t.preparations ++ (new_row source ∷ []) } =
        insert_preparation-eq-ok (new_row source) t grown inserted in
      let written : t'
          ≡ with_event actor "solution_preparation.split" new_id (record grown {
            uses = split_links use_link (λ u. mem u.ident selected) new_id grown.uses;
          }) =
        cc in
      written
      ∙ ap
          (λ g.
            with_event actor "solution_preparation.split" new_id
              (record g { uses = split_links use_link (λ u. mem u.ident selected) new_id g.uses }))
          same

  pub split-SplitDone :
      (t' : Tables)
      → split_solution_preparation now new_id actor actor_role t id member_ids notes ≡ ok t'
      → SplitDone t'
  unfolding split_solution_preparation
  split-SplitDone t' h =
      let (some_chosen, h1) =
        >>-eq-ok (raise_if (is_empty selected) nothing_selected)
          (find_preparation t id >>= lock_then) h in
      let (source, source_ok, h2) = >>=-eq-ok (find_preparation t id) lock_then h1 in
      let (locked, lock_ok, h3) =
        >>=-eq-ok (batch_for_actor t source.fabrication_batch_id actor actor_role is_draft)
          (chosen_then_grow source) h2 in
      let (chosen_ok, h4) = >>-eq-ok (check_split selected available) (grow source) h3 in
      record {
        source = source;
        locked = locked;
        source_found = found-eq-ok unknown_preparation _ source source_ok;
        allowed = lock_ok;
        chosen = check_split-chosen selected available chosen_ok;
        written = grow-eq-ok source t' h4;
      }
