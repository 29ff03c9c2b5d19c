-- ===== src/Work/Rows.antt =====
-- Tables of rows: what the statements of src/web/repository/batch.py select, update and delete.
pub mod Tables
pub mod Links
pub mod Pairs
pub mod Keys
pub mod Selected
pub mod Sound
use perovskite_fabrication_w.Prelude.{
  ℕ, suc, ◌+◌, String, Option, none, some, List, [], ◌∷◌, Bool, not, Result, ok, err, if◌then◌else◌,
  ltb, ◌==◌, keep, length,
}
use Prim.Native.String.{◌++◌ as text_append}
use perovskite_fabrication_w.Prelude.Text.{decimal}
use perovskite_fabrication_w.Batch.Counts.{mem}

module _ {ℓ} {A : Type ℓ} where
  -- The row with a primary key.
  abbrev pub find_row : (A → ℕ) → ℕ → List A → Option A
  find_row ident key [] = none
  find_row ident key (row ∷ rows) =
      let rest = find_row ident key rows in if ident row == key then some row else rest

  -- UPDATE … WHERE
  abbrev pub alter : (A → Bool) → (A → A) → List A → List A
  alter test change [] = []
  alter test change (row ∷ rows) = (if test row then change row else row) ∷ alter test change rows

  -- DELETE … WHERE
  abbrev pub delete : (A → Bool) → List A → List A
  delete test rows = keep (λ row. not (test row)) rows

  -- `if row is None: raise`
  abbrev pub found {κ} : {E : Type κ} → E → Option A → Result E A
  found error none = err error
  found error (some row) = ok row

-- The members of a set of numbers, each once.
unfoldable pub distinct : List ℕ → List ℕ
unfolding mem
distinct [] = []
distinct (n ∷ ns) = let rest = distinct ns in if mem n rest then rest else n ∷ rest

-- `coalesce(max(id), 0)`
abbrev pub greatest : List ℕ → ℕ
greatest [] = 0
greatest (n ∷ ns) = let rest = greatest ns in if ltb rest n then n else rest

-- `f"{n:02d}"`
unfoldable pub two_digits : ℕ → String
unfolding decimal
two_digits n = if ltb n 10 then text_append "0" (decimal n) else decimal n
