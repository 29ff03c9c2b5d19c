-- ===== src/Work/Executions/Regroup.antt =====
-- What a split of an execution that succeeds has checked, and what it writes.
use perovskite_fabrication_w.Prelude.{
  ℕ, suc, ◌≡◌, refl, sym, ap, ◌∙◌, String, Option, some, List, [], ◌∷◌, ◌++◌, Bool, true, not,
  Result, ok, ◌>>=◌, ◌>>◌, >>-eq-ok, >>=-eq-ok, raise_if, str_eq, all, any, keep, map,
}
use perovskite_fabrication_w.Recipe.Stack.{is_empty}
use perovskite_fabrication_w.Batch.Data.{UserRole}
use perovskite_fabrication_w.Batch.Counts.{mem}
use perovskite_fabrication_w.Work.Data.{ExecutionRow, MemberRow, BatchRow, Tables}
use perovskite_fabrication_w.Work.Rows.{find_row, distinct, greatest, alter}
use perovskite_fabrication_w.Work.Rows.Tables.{found-eq-ok}
use perovskite_fabrication_w.Work.Rows.Links.{Link, split_links}
use perovskite_fabrication_w.Work.{
  WorkError, unknown_execution, code_taken, nothing_selected, is_draft, batch_for_actor, with_event,
}
use perovskite_fabrication_w.Work.Preparations.{check_split}
use perovskite_fabrication_w.Work.Preparations.Regroup.{check_split-chosen}
use perovskite_fabrication_w.Work.Executions.{
  is_execution, members_of, move_member, find_execution, insert_execution, share, spans_conditions,
  split_execution_row, split_process_execution,
}

-- The members of executions.
abbrev pub member_link : Link MemberRow
member_link = record {
  ident = λ m. m.ident;
  owner = λ m. m.process_execution_id;
  key = λ m. (m.substrate_id, m.layer_ordinal);
  move = move_member;
  ident-move = λ n u. refl;
  owner-move = λ n u. refl;
  key-move = λ n u. refl;
  move-move = λ m n u. refl;
  move-owner = λ m. refl;
}

-- What a successful insert writes.
pub insert_execution-eq-ok :
    (row : ExecutionRow) (t grown : Tables)
    → insert_execution row t ≡ ok grown
    → grown ≡ record t { executions = t.executions ++ (row ∷ []) }
unfolding insert_execution
insert_execution-eq-ok row t grown h =
    let whole = record t { executions = t.executions ++ (row ∷ []) } in
    let (free, last) =
      >>-eq-ok
        (raise_if (any (λ p. str_eq p.execution_code row.execution_code) t.executions) code_taken)
        (ok whole) h in
    let same : whole ≡ grown = cc in sym same

module _ (now new_id actor : ℕ) (actor_role : Option UserRole) (t : Tables) (id : ℕ)
    (member_ids : List ℕ) (notes : String) where
  abbrev selected : List ℕ
  selected = distinct member_ids

  abbrev members_here : List MemberRow
  members_here = members_of id t.members

  -- Whether the rows that go, and those that stay, are of several conditions.
  abbrev goes : Bool
  goes = spans_conditions (keep (λ m. mem m.ident selected) members_here)

  abbrev pub stays : Bool
  stays = spans_conditions (keep (λ m. not (mem m.ident selected)) members_here)

  abbrev pub new_row : ExecutionRow → ExecutionRow
  new_row source =
      split_execution_row now new_id (suc (greatest (map (λ p. p.ident) t.executions))) notes goes
        source

  -- The tables after a split.
  abbrev pub split_tables : ExecutionRow → Tables
  split_tables source = with_event actor "process_execution.split" new_id (record t {
    executions = alter (is_execution id) (share now stays) (t.executions ++ (new_row source ∷ []));
    members = split_links member_link (λ m. mem m.ident selected) new_id t.members;
  })

  -- What a split that succeeds has found.
  pub record SplitDone (t' : Tables) : Type 0 where
    pub source : ExecutionRow
    pub locked : BatchRow
    pub source_found : find_row (λ p. p.ident) id t.executions ≡ some source
    pub allowed :
        batch_for_actor t source.fabrication_batch_id actor actor_role is_draft ≡ ok locked
    pub chosen : all (λ n. mem n (map (λ m. m.ident) (members_of id t.members))) selected ≡ true
    pub written : t' ≡ split_tables source

  abbrev grow : ExecutionRow → Result WorkError Tables
  grow source = insert_execution (new_row source) t >>= λ grown. ok (
      with_event actor "process_execution.split" new_id (record grown {
        executions = alter (is_execution id) (share now stays) grown.executions;
        members = split_links member_link (λ m. mem m.ident selected) new_id grown.members;
      }))

  abbrev available : List ℕ
  available = map (λ m. m.ident) (members_of id t.members)

  abbrev chosen_then_grow : ExecutionRow → BatchRow → Result WorkError Tables
  chosen_then_grow source locked = check_split selected available >> grow source

  abbrev lock_then : ExecutionRow → Result WorkError Tables
  lock_then source =
      batch_for_actor t source.fabrication_batch_id actor actor_role is_draft
      >>= chosen_then_grow source

  grow-eq-ok :
      (source : ExecutionRow) (t' : Tables) → grow source ≡ ok t' → t' ≡ split_tables source
  grow-eq-ok source t' h =
      let (grown, inserted, last) =
        >>=-eq-ok (insert_execution (new_row source) t)
          (λ grown. ok (
            with_event actor "process_execution.split" new_id (record grown {
              executions = alter (is_execution id) (share now stays) grown.executions;
              members = split_links member_link (λ m. mem m.ident selected) new_id grown.members;
            })))
          h in
      let same : grown ≡ record t { executions = t.executions ++ (new_row source ∷ []) } =
        insert_execution-eq-ok (new_row source) t grown inserted in
      let written : t'
          ≡ with_event actor "process_execution.split" new_id (record grown {
            executions = alter (is_execution id) (share now stays) grown.executions;
            members = split_links member_link (λ m. mem m.ident selected) new_id grown.members;
          }) =
        cc in
      written
      ∙ ap
          (λ g. with_event actor "process_execution.split" new_id (record g {
            executions = alter (is_execution id) (share now stays) g.executions;
            members = split_links member_link (λ m. mem m.ident selected) new_id g.members;
          }))
          same

  pub split-SplitDone :
      (t' : Tables)
      → split_process_execution now new_id actor actor_role t id member_ids notes ≡ ok t'
      → SplitDone t'
  unfolding split_process_execution spans_conditions
  split-SplitDone t' h =
      let (some_chosen, h1) =
        >>-eq-ok (raise_if (is_empty selected) nothing_selected) (find_execution t id >>= lock_then)
          h in
      let (source, source_ok, h2) = >>=-eq-ok (find_execution t id) lock_then h1 in
      let (locked, lock_ok, h3) =
        >>=-eq-ok (batch_for_actor t source.fabrication_batch_id actor actor_role is_draft)
          (chosen_then_grow source) h2 in
      let (chosen_ok, h4) = >>-eq-ok (check_split selected available) (grow source) h3 in
      record {
        source = source;
        locked = locked;
        source_found = found-eq-ok unknown_execution _ source source_ok;
        allowed = lock_ok;
        chosen = check_split-chosen selected available chosen_ok;
        written = grow-eq-ok source t' h4;
      }
