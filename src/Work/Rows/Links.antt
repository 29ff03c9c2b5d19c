-- ===== src/Work/Rows/Links.antt =====
-- Rows that belong to another row and can be moved to a third: the uses of preparations and the members of
-- executions. A split moves the selected rows to a new owner; a merge moves all rows of an owner.
use perovskite_fabrication_w.Prelude.{
  ℕ, ◌≡◌, refl, sym, ap, ◌∙◌, List, [], ◌∷◌, Bool, true, false, not, ◌&&◌, inl, inr, Bool-cases,
  ◌==◌, ==_iff, All, any, map,
}
use perovskite_fabrication_w.Work.Rows.{alter, delete}
use perovskite_fabrication_w.Work.Rows.Tables.{==_refl, delete-none, map-alter}

-- A table of links: each row has a primary key, an owner, and a key that is unique within its owner.
pub record Link {ℓ} (A : Type ℓ) : Type ℓ where
  pub ident : A → ℕ
  pub owner : A → ℕ
  pub key : A → ℕ × ℕ
  pub move : ℕ → A → A
  pub ident-move : (n : ℕ) (a : A) → ident (move n a) ≡ ident a
  pub owner-move : (n : ℕ) (a : A) → owner (move n a) ≡ n
  pub key-move : (n : ℕ) (a : A) → key (move n a) ≡ key a
  pub move-move : (m n : ℕ) (a : A) → move m (move n a) ≡ move m a
  pub move-owner : (a : A) → move (owner a) a ≡ a

module _ {ℓ} {A : Type ℓ} (link : Link A) where
  abbrev pub owned : ℕ → A → Bool
  owned n a = link.owner a == n

  abbrev pub split_links : (A → Bool) → ℕ → List A → List A
  split_links selected new rows = alter selected (link.move new) rows

  abbrev pub merge_links : ℕ → ℕ → List A → List A
  merge_links target source rows = alter (owned source) (link.move target) rows

  -- Merging what a split moved to a fresh owner gives the rows back.
  pub merge-split :
      (selected : A → Bool) (old new : ℕ) (rows : List A)
      → All (λ a. owned new a ≡ false) rows
      → All (λ a. selected a ≡ true → owned old a ≡ true) rows
      → merge_links old new (split_links selected new rows) ≡ rows
  merge-split selected old new [] fresh from_old = refl
  merge-split selected old new (a ∷ rows) fresh from_old =
      let rest = merge-split selected old new rows fresh.1 from_old.1 in
      elim (Bool-cases (selected a)) [
        | inl e ↦
            let at_old : link.owner a ≡ old = (==_iff _ _).0 (from_old.0 e) in
            let back : link.move old (link.move new a) ≡ a =
              link.move-move old new a ∙ ap (λ n. link.move n a) (sym at_old) ∙ link.move-owner a in
            rw (e, link.owner-move new a, ==_refl new, back, rest) refl
        | inr e ↦ rw (e, fresh.0, rest) refl
      ]

  -- After a merge nothing belongs to the source.
  pub merge-leaves :
      (target source : ℕ) (rows : List A)
      → (target == source) ≡ false
      → All (λ a. owned source a ≡ false) (merge_links target source rows)
  merge-leaves target source [] differ = tt
  merge-leaves target source (a ∷ rows) differ =
      let rest = merge-leaves target source rows differ in
      elim (Bool-cases (owned source a)) [
        | inl e ↦ rw (e, link.owner-move target a) (differ, rest)
        | inr e ↦ rw e (e, rest)
      ]

  -- A split and a merge change nothing of a row but its owner.
  abbrev pub unowned : List A → List A
  unowned rows = map (link.move 0) rows

  pub unowned-split :
      (selected : A → Bool) (new : ℕ) (rows : List A)
      → unowned (split_links selected new rows) ≡ unowned rows
  unowned-split selected new rows =
      map-alter (link.move 0) selected (link.move new) rows (link.move-move 0 new)

  pub unowned-merge :
      (target source : ℕ) (rows : List A)
      → (target == source) ≡ false
      → unowned (delete (owned source) (merge_links target source rows)) ≡ unowned rows
  unowned-merge target source rows differ =
      ap unowned (
        delete-none (owned source) (merge_links target source rows)
          (merge-leaves target source rows differ))
      ∙ map-alter (link.move 0) (owned source) (link.move target) rows (link.move-move 0 target)

  -- The keys of the rows of one owner are unique.
  abbrev pub same_key : A → A → Bool
  same_key a b = (link.key a).0 == (link.key b).0 && (link.key a).1 == (link.key b).1

  abbrev pub clash : A → A → Bool
  clash a b = link.owner a == link.owner b && same_key a b

  unfoldable pub keys_unique : List A → Bool
  keys_unique [] = true
  keys_unique (a ∷ rows) = not (any (clash a) rows) && keys_unique rows
