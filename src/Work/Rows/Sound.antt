-- ===== src/Work/Rows/Sound.antt =====
-- A table of rows with the links that belong to them: sound rows under distinct keys, and links under
-- distinct keys that belong to rows that are there, with unique keys for each owner. Each kind of write
-- that src/web/repository/batch.py makes keeps this.
use perovskite_fabrication_w.Prelude.{
  ℕ, ◌≡◌, refl, sym, ap, subst, ◌∙◌, List, [], ◌∷◌, ◌++◌, some, Bool, true, false, ◌||◌, ◌==◌,
  ==_iff, All, All-map, All-zip, All-append, keep, map, arith, inl, inr, Bool-cases, all,
}
use perovskite_fabrication_w.Batch.Counts.{mem}
use perovskite_fabrication_w.Work.Rows.{find_row, alter, delete}
use perovskite_fabrication_w.Work.Rows.Tables.{
  ==_refl, map-alter, All-alter, All-delete, delete-none,
}
use perovskite_fabrication_w.Work.Rows.Links.{
  Link, owned, split_links, merge_links, merge-leaves, keys_unique,
}
use perovskite_fabrication_w.Work.Rows.Keys.{
  SplitFact, overlap, split-keys_unique, merge-keys_unique,
}
use perovskite_fabrication_w.Work.Rows.Selected.{
  are_keys, selected_of, All-alter_found, All-absent, mem-inserted, are_keys-inserted,
  are_keys-delete,
}

or_true : (b : Bool) → (b || true) ≡ true
or_true b = ground arith

module _ {A : Type 0} {B : Type 0} (ident : A → ℕ) (P : A → Type 0) (link : Link B) where
  pub record IsTable (rows : List A) (links : List B) : Type 0 where
    pub rows_sound : All P rows
    pub row_keys : are_keys (map ident rows) ≡ true
    pub link_keys : are_keys (map (λ b. link.ident b) links) ≡ true
    pub links_unique : keys_unique link links ≡ true
    pub links_owned : All (λ b. mem (link.owner b) (map ident rows) ≡ true) links

  grown_owned :
      (rows : List A) (links : List B) (row : A)
      → All (λ b. mem (link.owner b) (map ident rows) ≡ true) links
      → All (λ b. mem (link.owner b) (map ident (rows ++ (row ∷ []))) ≡ true) links
  grown_owned rows links row owned_by =
      All-map (λ b here. mem-inserted ident (link.owner b) rows row ∙ rw here refl) links owned_by

  pub inserted-IsTable :
      (rows : List A) (links : List B) (row : A)
      → All (λ a. (ident a == ident row) ≡ false) rows
      → P row
      → IsTable rows links
      → IsTable (rows ++ (row ∷ [])) links
  inserted-IsTable rows links row fresh sound h = record {
    rows_sound = All-append P rows (row ∷ []) h.rows_sound (sound, tt);
    row_keys = are_keys-inserted ident rows row fresh h.row_keys;
    link_keys = h.link_keys;
    links_unique = h.links_unique;
    links_owned = grown_owned rows links row h.links_owned;
  }

  -- No link belongs to a key that no row has.
  pub unowned_links :
      (rows : List A) (links : List B) (new : ℕ)
      → All (λ a. (ident a == new) ≡ false) rows
      → IsTable rows links
      → All (λ b. owned link new b ≡ false) links
  unowned_links rows links new fresh h =
      let absent = All-absent ident new rows fresh in
      All-map
        (λ b here. elim (Bool-cases (owned link new b)) [
          | inl e ↦
              let same : link.owner b ≡ new = (==_iff _ _).0 e in
              let there : mem new (map ident rows) ≡ true =
                subst (λ k. mem k (map ident rows) ≡ true) same here in
              cc
          | inr e ↦ e
        ])
        links h.links_owned

  pub split_facts :
      (rows : List A) (links : List B) (selected : List ℕ) (old new : ℕ)
      → All (λ a. (ident a == new) ≡ false) rows
      → all (λ n. mem n (map (λ b. link.ident b) (keep (owned link old) links))) selected ≡ true
      → IsTable rows links
      → All (SplitFact link (λ b. mem (link.ident b) selected) old new) links
  split_facts rows links selected old new fresh chosen h =
      All-zip (λ b free of_old. record { fresh = free; from_old = of_old }) links
        (unowned_links rows links new fresh h)
        (selected_of (λ b. link.ident b) (owned link old) links selected h.link_keys chosen)

  pub split-IsTable :
      (rows : List A) (links : List B) (selected : List ℕ) (old : ℕ) (row : A)
      → All (λ a. (ident a == ident row) ≡ false) rows
      → P row
      → all (λ n. mem n (map (λ b. link.ident b) (keep (owned link old) links))) selected ≡ true
      → IsTable rows links
      → IsTable
          (rows ++ (row ∷ []))
          (split_links link (λ b. mem (link.ident b) selected) (ident row) links)
  split-IsTable rows links selected old row fresh sound chosen h =
      let grown = inserted-IsTable rows links row fresh sound h in
      let facts = split_facts rows links selected old (ident row) fresh chosen h in
      record {
        rows_sound = grown.rows_sound;
        row_keys = grown.row_keys;
        link_keys =
            ap are_keys (
              map-alter (λ b. link.ident b) _ (link.move (ident row)) links
                (link.ident-move (ident row)))
            ∙ h.link_keys;
        links_unique =
            split-keys_unique link (λ b. mem (link.ident b) selected) old (ident row) links facts
              h.links_unique;
        links_owned =
            All-alter _ _ (link.move (ident row)) links
              (λ b _ _.
                subst (λ k. mem k (map ident (rows ++ (row ∷ []))) ≡ true)
                  (sym (link.owner-move (ident row) b))
                  (mem-inserted ident (ident row) rows row
                    ∙ rw (==_refl (ident row)) (or_true (mem (ident row) (map ident rows)))))
              grown.links_owned;
      }

  mem-delete_other :
      (source : ℕ) (rows : List A) (n : ℕ)
      → (n == source) ≡ false
      → mem n (map ident rows) ≡ true
      → mem n (map ident (delete (λ a. ident a == source) rows)) ≡ true
  unfolding mem
  mem-delete_other source [] n other = λ m. m
  mem-delete_other source (a ∷ rows) n other =
      let rest = mem-delete_other source rows n other in
      elim (Bool-cases (ident a == source)) [
        | inl e ↦ let no : (ident a == n) ≡ false = ground arith in rw (e, no) rest
        | inr e ↦ rw e (λ m. ground (arith, rest))
      ]

  pub merged-IsTable :
      (rows : List A) (links : List B) (target source : ℕ)
      → (target == source) ≡ false
      → mem target (map ident rows) ≡ true
      → overlap link (keep (owned link target) links) (keep (owned link source) links) ≡ false
      → IsTable rows links
      → IsTable
          (delete (λ a. ident a == source) rows)
          (delete (owned link source) (merge_links link target source links))
  merged-IsTable rows links target source differ there disjoint h =
      let moved = merge_links link target source links in
      let left = merge-leaves link target source links differ in
      subst (IsTable (delete (λ a. ident a == source) rows))
        (sym (delete-none (owned link source) moved left))
        (record {
          rows_sound = All-delete P (λ a. ident a == source) rows h.rows_sound;
          row_keys = are_keys-delete ident (λ a. ident a == source) rows h.row_keys;
          link_keys =
              ap are_keys
                (map-alter (λ b. link.ident b) _ (link.move target) links (link.ident-move target))
              ∙ h.link_keys;
          links_unique = merge-keys_unique link target source links disjoint h.links_unique;
          links_owned =
              All-zip (λ b other here. mem-delete_other source rows (link.owner b) other here) moved
                left
                (All-alter _ _ (link.move target) links
                  (λ b _ _.
                    subst (λ k. mem k (map ident rows) ≡ true) (sym (link.owner-move target b))
                      there)
                  h.links_owned);
        })

  -- The rows are replaced by sound rows with the same keys.
  pub replaced-IsTable :
      (rows others : List A) (links : List B)
      → map ident others ≡ map ident rows
      → All P others
      → IsTable rows links
      → IsTable others links
  replaced-IsTable rows others links same sound h = record {
    rows_sound = sound;
    row_keys = ap are_keys same ∙ h.row_keys;
    link_keys = h.link_keys;
    links_unique = h.links_unique;
    links_owned = All-map (λ b here. ap (mem (link.owner b)) same ∙ here) links h.links_owned;
  }

  pub updated-IsTable :
      (rows : List A) (links : List B) (id : ℕ) (change : A → A) (row : A)
      → ((a : A) → ident (change a) ≡ ident a)
      → find_row ident id rows ≡ some row
      → P (change row)
      → IsTable rows links
      → IsTable (alter (λ a. ident a == id) change rows) links
  updated-IsTable rows links id change row kept row_found sound h =
      replaced-IsTable rows (alter (λ a. ident a == id) change rows) links
        (map-alter ident (λ a. ident a == id) change rows kept)
        (All-alter_found ident P change id rows row h.row_keys row_found sound h.rows_sound) h

  pub find_row-mem :
      (id : ℕ) (rows : List A) (row : A)
      → find_row ident id rows ≡ some row
      → mem id (map ident rows) ≡ true
  unfolding mem
  find_row-mem id [] row = λ found. absurd cc
  find_row-mem id (a ∷ rows) row = elim (Bool-cases (ident a == id)) [
    | inl e ↦ rw e (λ found. refl)
    | inr e ↦ rw e (find_row-mem id rows row)
  ]
