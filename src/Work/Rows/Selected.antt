-- ===== src/Work/Rows/Selected.antt =====
-- The ids that a split selects name rows of the source only.
use perovskite_fabrication_w.Prelude.{
  ℕ, ◌≡◌, refl, sym, subst, some, ◌++◌, List, [], ◌∷◌, Bool, true, false, not, ◌&&◌, ◌||◌, inl, inr,
  Bool-cases, ◌==◌, ==_iff, All, All-map, All-zip, all, keep, map, arith, and_split,
}
use perovskite_fabrication_w.Batch.Counts.{mem}
use perovskite_fabrication_w.Work.Rows.{find_row, alter, delete}
use perovskite_fabrication_w.Work.Rows.Tables.{==_refl, alter-none}

-- No number occurs twice: the keys of a table.
unfoldable pub are_keys : List ℕ → Bool
unfolding mem
are_keys [] = true
are_keys (n ∷ ns) = not (mem n ns) && are_keys ns

-- A test that all items pass is passed by a member.
pub all-mem : (p : ℕ → Bool) (ns : List ℕ) (n : ℕ) → all p ns ≡ true → mem n ns ≡ true → p n ≡ true
unfolding mem
all-mem p [] n h = λ m. cc
all-mem p (x ∷ ns) n h =
    let (here, later) = and_split (p x) (all p ns) h in
    elim (Bool-cases (x == n)) [
      | inl e ↦ λ m. subst (λ k. p k ≡ true) ((==_iff x n).0 e) here
      | inr e ↦ rw e (all-mem p ns n later)
    ]

module _ {ℓ} {A : Type ℓ} (ident : A → ℕ) where
  mem-keep :
      (p : A → Bool) (rows : List A) (n : ℕ)
      → mem n (map ident (keep p rows)) ≡ true
      → mem n (map ident rows) ≡ true
  unfolding mem
  mem-keep p [] n = λ m. m
  mem-keep p (a ∷ rows) n = elim (Bool-cases (p a)) [
    | inl e ↦ rw e (λ m. let rest = mem-keep p rows n in ground (arith, rest))
    | inr e ↦ rw e (λ m. let rest = mem-keep p rows n m in ground (arith, rest))
  ]

  mem-own : (rows : List A) → All (λ a. mem (ident a) (map ident rows) ≡ true) rows
  unfolding mem
  mem-own [] = tt
  mem-own (a ∷ rows) =
      (rw (==_refl (ident a)) refl, All-map (λ b m. ground arith) rows (mem-own rows))

  abbrev Tells : (A → Bool) → List A → List A → Type 0
  Tells p kept rows = All (λ a. mem (ident a) (map ident kept) ≡ true → p a ≡ true) rows

  -- With distinct keys, a row whose key is among those of the rows with a property has the property.
  pub keyed :
      (p : A → Bool) (rows : List A)
      → are_keys (map ident rows) ≡ true
      → All (λ a. mem (ident a) (map ident (keep p rows)) ≡ true → p a ≡ true) rows
  unfolding mem are_keys
  keyed p [] h = tt
  keyed p (a ∷ rows) h =
      let (absent, rest) =
        and_split (not (mem (ident a) (map ident rows))) (are_keys (map ident rows)) h in
      elim (Bool-cases (p a)) [
        | inl e ↦
            let kept : keep p (a ∷ rows) ≡ a ∷ keep p rows = rw e refl in
            subst (λ l. Tells p l (a ∷ rows)) (sym kept)
              (
                λ _. e,
                All-zip
                    (λ b own later m. elim (Bool-cases (ident a == ident b)) [
                      | inl same ↦
                          let equal : ident b ≡ ident a = sym ((==_iff _ _).0 same) in
                          let here : mem (ident a) (map ident rows) ≡ true =
                            subst (λ k. mem k (map ident rows) ≡ true) equal own in
                          absurd (ground arith)
                      | inr other ↦ later (ground arith)
                    ])
                    rows (mem-own rows) (keyed p rows rest),
              )
        | inr e ↦
            let kept : keep p (a ∷ rows) ≡ keep p rows = rw e refl in
            subst (λ l. Tells p l (a ∷ rows)) (sym kept)
              (
                λ m. let here = mem-keep p rows (ident a) m in absurd (ground arith),
                keyed p rows rest,
              )
      ]

  -- The rows that a split selects are rows of the source.
  pub selected_of :
      (p : A → Bool) (rows : List A) (selected : List ℕ)
      → are_keys (map ident rows) ≡ true
      → all (λ n. mem n (map ident (keep p rows))) selected ≡ true
      → All (λ a. mem (ident a) selected ≡ true → p a ≡ true) rows
  selected_of p rows selected keys within =
      All-map
        (λ a of_p chosen.
          of_p (all-mem (λ n. mem n (map ident (keep p rows))) selected (ident a) within chosen))
        rows (keyed p rows keys)

  pub absent-All :
      (n : ℕ) (rows : List A)
      → mem n (map ident rows) ≡ false
      → All (λ b. (ident b == n) ≡ false) rows
  unfolding mem
  absent-All n [] h = tt
  absent-All n (b ∷ rows) h = (ground arith, absent-All n rows (ground arith))

  -- An update of the row with a key is an update of the row that is found.
  pub All-alter_found {κ} :
      (P : A → Type κ) (change : A → A) (key : ℕ) (rows : List A) (row : A)
      → are_keys (map ident rows) ≡ true
      → find_row ident key rows ≡ some row
      → P (change row)
      → All P rows
      → All P (alter (λ a. ident a == key) change rows)
  unfolding mem are_keys
  All-alter_found P change key [] row keys = λ found _ h. h
  All-alter_found P change key (a ∷ rows) row keys =
      let (absent, rest) =
        and_split (not (mem (ident a) (map ident rows))) (are_keys (map ident rows)) keys in
      elim (Bool-cases (ident a == key)) [
        | inl e ↦ rw e (λ found new h.
            let same : a ≡ row = cc in
            let at_key : ident a ≡ key = (==_iff _ _).0 e in
            let others : alter (λ a. ident a == key) change rows ≡ rows =
              alter-none (λ a. ident a == key) change rows
                (subst (λ k. All (λ b. (ident b == k) ≡ false) rows) at_key
                  (absent-All (ident a) rows (ground arith))) in
            (subst (λ r. P (change r)) (sym same) new, subst (All P) (sym others) h.1))
        | inr e ↦
            rw e (λ found new h. (h.0, All-alter_found P change key rows row rest found new h.1))
      ]

  pub All-absent :
      (n : ℕ) (rows : List A)
      → All (λ b. (ident b == n) ≡ false) rows
      → mem n (map ident rows) ≡ false
  unfolding mem
  All-absent n [] h = refl
  All-absent n (b ∷ rows) h = rw (h.0, All-absent n rows h.1) refl

  pub mem-inserted :
      (n : ℕ) (rows : List A) (row : A)
      → mem n (map ident (rows ++ (row ∷ []))) ≡ (mem n (map ident rows) || ident row == n)
  unfolding mem
  mem-inserted n [] row = ground arith
  mem-inserted n (a ∷ rows) row = let rest = mem-inserted n rows row in ground (arith, rest)

  pub are_keys-inserted :
      (rows : List A) (row : A)
      → All (λ b. (ident b == ident row) ≡ false) rows
      → are_keys (map ident rows) ≡ true
      → are_keys (map ident (rows ++ (row ∷ []))) ≡ true
  unfolding mem are_keys
  are_keys-inserted [] row fresh keys = refl
  are_keys-inserted (a ∷ rows) row fresh keys =
      let (absent, rest) =
        and_split (not (mem (ident a) (map ident rows))) (are_keys (map ident rows)) keys in
      rw (mem-inserted (ident a) rows row, are_keys-inserted rows row fresh.1 rest)
        (let other = fresh.0 in ground arith)

  pub are_keys-delete :
      (test : A → Bool) (rows : List A)
      → are_keys (map ident rows) ≡ true
      → are_keys (map ident (delete test rows)) ≡ true
  unfolding mem are_keys
  are_keys-delete test [] keys = refl
  are_keys-delete test (a ∷ rows) keys =
      let (absent, rest) =
        and_split (not (mem (ident a) (map ident rows))) (are_keys (map ident rows)) keys in
      let later = are_keys-delete test rows rest in
      let subset = mem-keep (λ row. not (test row)) rows (ident a) in
      elim (Bool-cases (test a)) [
        | inl e ↦ rw e later
        | inr e ↦ rw (e, later) (ground (arith, subset))
      ]
