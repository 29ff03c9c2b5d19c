-- ===== src/Work/Rows/Tables.antt =====
-- How rows are found and counted after an insert, an update and a delete.
use perovskite_fabrication_w.Prelude.{
  ℕ, ◌≡◌, refl, sym, ap, subst, ◌∙◌, Option, none, some, List, [], ◌∷◌, ◌++◌, Bool, true, false,
  if◌then◌else◌, inl, inr, Bool-cases, ◌==◌, ==_iff, All, map, ok,
}
use perovskite_fabrication_w.Work.Rows.{find_row, alter, delete, found}

pub ==_refl : (n : ℕ) → (n == n) ≡ true
==_refl n = (==_iff n n).1 refl

-- A row that was found.
pub found-eq-ok {ℓ κ} :
    {E : Type ℓ} {A : Type κ} (error : E) (o : Option A) (row : A)
    → found error o ≡ ok row
    → o ≡ some row
found-eq-ok error none row h = absurd cc
found-eq-ok error (some a) row h = let same : a ≡ row = cc in ap some same

module _ {ℓ} {A : Type ℓ} (ident : A → ℕ) where
  pub find_row-ident :
      (key : ℕ) (rows : List A) (row : A) → find_row ident key rows ≡ some row → ident row ≡ key
  find_row-ident key [] row = λ h. absurd cc
  find_row-ident key (first ∷ rows) row = elim (Bool-cases (ident first == key)) [
    | inl e ↦ rw e (λ h. let same : first ≡ row = cc in ap ident (sym same) ∙ (==_iff _ _).0 e)
    | inr e ↦ rw e (find_row-ident key rows row)
  ]

  -- What holds of every row holds of the row that is found.
  pub find_row-All {κ} :
      (P : A → Type κ) (key : ℕ) (rows : List A) (row : A)
      → All P rows
      → find_row ident key rows ≡ some row
      → P row
  find_row-All P key [] row h = λ found. absurd cc
  find_row-All P key (first ∷ rows) row h = elim (Bool-cases (ident first == key)) [
    | inl e ↦ rw e (λ found. let same : first ≡ row = cc in subst P same h.0)
    | inr e ↦ rw e (find_row-All P key rows row h.1)
  ]

  pub find_row-append :
      (key : ℕ) (rows more : List A) (row : A)
      → find_row ident key rows ≡ some row
      → find_row ident key (rows ++ more) ≡ some row
  find_row-append key [] more row = λ h. absurd cc
  find_row-append key (first ∷ rows) more row = elim (Bool-cases (ident first == key)) [
    | inl e ↦ rw e (λ found. found)
    | inr e ↦ rw e (find_row-append key rows more row)
  ]

  -- A new row is found under its key.
  pub find_row-inserted :
      (rows : List A) (row : A)
      → All (λ r. (ident r == ident row) ≡ false) rows
      → find_row ident (ident row) (rows ++ (row ∷ [])) ≡ some row
  find_row-inserted [] row fresh = rw (==_refl (ident row)) refl
  find_row-inserted (first ∷ rows) row fresh = rw fresh.0 (find_row-inserted rows row fresh.1)

  -- An update that keeps the keys is seen in the row that is found.
  pub find_row-alter :
      (test : A → Bool) (change : A → A) (key : ℕ) (rows : List A) (row : A)
      → ((r : A) → ident (change r) ≡ ident r)
      → find_row ident key rows ≡ some row
      → find_row ident key (alter test change rows) ≡ some (if test row then change row else row)
  find_row-alter test change key [] row kept = λ found. absurd cc
  find_row-alter test change key (first ∷ rows) row kept = elim (Bool-cases (ident first == key)) [
    | inl e ↦ elim (Bool-cases (test first)) [
      | inl d ↦
          rw (d, kept first, e) (λ found. let same : first ≡ row = cc in rw (sym same, d) refl)
      | inr d ↦ rw (d, e) (λ found. let same : first ≡ row = cc in rw (sym same, d) refl)
    ]
    | inr e ↦ elim (Bool-cases (test first)) [
      | inl d ↦ rw (d, kept first, e) (find_row-alter test change key rows row kept)
      | inr d ↦ rw (d, e) (find_row-alter test change key rows row kept)
    ]
  ]

  pub find_row-map :
      (f : A → A) (key : ℕ) (rows : List A) (row : A)
      → ((r : A) → ident (f r) ≡ ident r)
      → find_row ident key rows ≡ some row
      → find_row ident key (map f rows) ≡ some (f row)
  find_row-map f key [] row kept = λ found. absurd cc
  find_row-map f key (first ∷ rows) row kept = elim (Bool-cases (ident first == key)) [
    | inl e ↦ rw (kept first, e) (λ found. let same : first ≡ row = cc in rw same refl)
    | inr e ↦ rw (kept first, e) (find_row-map f key rows row kept)
  ]

  -- A delete of other rows does not change what is found.
  pub find_row-delete_other :
      (test : A → Bool) (key : ℕ) (rows : List A) (row : A)
      → test row ≡ false
      → find_row ident key rows ≡ some row
      → find_row ident key (delete test rows) ≡ some row
  find_row-delete_other test key [] row other = λ found. absurd cc
  find_row-delete_other test key (first ∷ rows) row other = elim (Bool-cases (ident first == key)) [
    | inl e ↦
        rw e (λ found. let same : first ≡ row = cc in rw (same, other) (rw (sym same, e) refl))
    | inr e ↦ elim (Bool-cases (test first)) [
      | inl d ↦ rw (d, e) (find_row-delete_other test key rows row other)
      | inr d ↦ rw (d, e) (find_row-delete_other test key rows row other)
    ]
  ]

module _ {ℓ} {A : Type ℓ} where
  -- A delete that meets no row, and an update that meets none.
  pub delete-none :
      (test : A → Bool) (rows : List A) → All (λ r. test r ≡ false) rows → delete test rows ≡ rows
  delete-none test [] h = refl
  delete-none test (r ∷ rows) h = rw h.0 (ap (λ l. r ∷ l) (delete-none test rows h.1))

  pub alter-none :
      (test : A → Bool) (change : A → A) (rows : List A)
      → All (λ r. test r ≡ false) rows
      → alter test change rows ≡ rows
  alter-none test change [] h = refl
  alter-none test change (r ∷ rows) h = rw h.0 (ap (λ l. r ∷ l) (alter-none test change rows h.1))

  -- The row that an insert added goes again.
  pub delete-inserted :
      (test : A → Bool) (rows : List A) (row : A)
      → All (λ r. test r ≡ false) rows
      → test row ≡ true
      → delete test (rows ++ (row ∷ [])) ≡ rows
  delete-inserted test [] row h met = rw met refl
  delete-inserted test (r ∷ rows) row h met =
      rw h.0 (ap (λ l. r ∷ l) (delete-inserted test rows row h.1 met))

  pub All-alter {κ} :
      (P : A → Type κ) (test : A → Bool) (change : A → A) (rows : List A)
      → ((r : A) → P r → test r ≡ true → P (change r))
      → All P rows
      → All P (alter test change rows)
  All-alter P test change [] step h = tt
  All-alter P test change (r ∷ rows) step h = elim (Bool-cases (test r)) [
    | inl e ↦ rw e (step r h.0 e, All-alter P test change rows step h.1)
    | inr e ↦ rw e (h.0, All-alter P test change rows step h.1)
  ]

  pub All-delete {κ} :
      (P : A → Type κ) (test : A → Bool) (rows : List A) → All P rows → All P (delete test rows)
  All-delete P test [] h = tt
  All-delete P test (r ∷ rows) h = elim (Bool-cases (test r)) [
    | inl e ↦ rw e (All-delete P test rows h.1)
    | inr e ↦ rw e (h.0, All-delete P test rows h.1)
  ]

  -- What an update does not change of any row.
  pub map-alter {κ} :
      {B : Type κ} (f : A → B) (test : A → Bool) (change : A → A) (rows : List A)
      → ((r : A) → f (change r) ≡ f r)
      → map f (alter test change rows) ≡ map f rows
  map-alter f test change [] kept = refl
  map-alter f test change (r ∷ rows) kept = elim (Bool-cases (test r)) [
    | inl e ↦ rw (e, kept r, map-alter f test change rows kept) refl
    | inr e ↦ rw (e, map-alter f test change rows kept) refl
  ]
