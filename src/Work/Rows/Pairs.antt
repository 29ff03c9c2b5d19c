-- ===== src/Work/Rows/Pairs.antt =====
-- Relations of the items of a list at two places.
use perovskite_fabrication_w.Prelude.{
  ◌≡◌, refl, List, [], ◌∷◌, Bool, true, false, if◌then◌else◌, inl, inr, Bool-cases, All, All-map,
  All-zip, any, or_split,
}
use perovskite_fabrication_w.Work.Rows.{alter}

module _ {ℓ κ} {A : Type ℓ} where
  -- A relation of each item to those after it.
  abbrev pub Pairwise : (A → A → Type κ) → List A → Type (ℓ ⊔ κ)
  Pairwise R [] = Unit
  Pairwise R (a ∷ rows) = All (R a) rows × Pairwise R rows

module _ {ℓ} {A : Type ℓ} where
  -- A fact of each row turns one relation of the pairs into another.
  pub Pairwise-map {κ μ ν} :
      {P : A → Type κ} {Q : A → A → Type μ} (R : A → A → Type ν)
      (f : (a b : A) → P a → P b → Q a b → R a b) (rows : List A)
      → All P rows
      → Pairwise Q rows
      → Pairwise R rows
  Pairwise-map R f [] p h = tt
  Pairwise-map R f (a ∷ rows) p h =
      (All-zip (λ b p_b q. f a b p.0 p_b q) rows p.1 h.0, Pairwise-map R f rows p.1 h.1)

  pub Pairwise-both {κ μ ν} :
      {Q : A → A → Type κ} {R : A → A → Type μ} {S : A → A → Type ν}
      (f : (a b : A) → Q a b → R a b → S a b) (rows : List A)
      → Pairwise Q rows
      → Pairwise R rows
      → Pairwise S rows
  Pairwise-both f [] q r = tt
  Pairwise-both f (a ∷ rows) q r = (All-zip (f a) rows q.0 r.0, Pairwise-both f rows q.1 r.1)

  abbrev pub changed : (A → Bool) → (A → A) → A → A
  changed test change a = if test a then change a else a

  pub All-changed {κ} :
      (P : A → Type κ) (test : A → Bool) (change : A → A) (rows : List A)
      → All (λ a. P (changed test change a)) rows
      → All P (alter test change rows)
  All-changed P test change [] h = tt
  All-changed P test change (a ∷ rows) h = (h.0, All-changed P test change rows h.1)

  pub Pairwise-changed {κ} :
      (R : A → A → Type κ) (test : A → Bool) (change : A → A) (rows : List A)
      → Pairwise (λ a b. R (changed test change a) (changed test change b)) rows
      → Pairwise R (alter test change rows)
  Pairwise-changed R test change [] h = tt
  Pairwise-changed R test change (a ∷ rows) h = (
    All-changed (R (changed test change a)) test change rows h.0,
    Pairwise-changed R test change rows h.1,
  )

module _ {ℓ} {A : Type ℓ} where
  pub any_none : (p : A → Bool) (rows : List A) → any p rows ≡ false → All (λ a. p a ≡ false) rows
  any_none p [] h = tt
  any_none p (a ∷ rows) h =
      let (here, later) = or_split (p a) (any p rows) h in (here, any_none p rows later)

  pub none_any : (p : A → Bool) (rows : List A) → All (λ a. p a ≡ false) rows → any p rows ≡ false
  none_any p [] h = refl
  none_any p (a ∷ rows) h = rw (h.0, none_any p rows h.1) refl

  -- A relation that holds of each pair of places in both orders, and of each item with itself, holds of
  -- all pairs.
  pub square {κ} :
      (R : A → A → Type κ) (rows : List A)
      → All (λ a. R a a) rows
      → Pairwise R rows
      → Pairwise (λ a b. R b a) rows
      → All (λ a. All (R a) rows) rows
  square R [] self forth back = tt
  square R (a ∷ rows) self forth back =
      let rest = square R rows self.1 forth.1 back.1 in
      ((self.0, forth.0), All-zip (λ b left right. (left, right)) rows back.0 rest)

  pub unsquare {κ} :
      (R : A → A → Type κ) (rows : List A)
      → All (λ a. All (R a) rows) rows
      → Pairwise (λ a b. R a b × R b a) rows
  unsquare R [] h = tt
  unsquare R (a ∷ rows) h =
      let back = All-map (λ b k. k.0) rows h.1 in
      let inner = All-map (λ b k. k.1) rows h.1 in
      (All-zip (λ b left right. (left, right)) rows h.0.1 back, unsquare R rows inner)

  pub All-every {κ} : {P : A → Type κ} (f : (a : A) → P a) (rows : List A) → All P rows
  All-every f [] = tt
  All-every f (a ∷ rows) = (f a, All-every f rows)

  pub All-implied {κ} :
      (P : A → Type κ) (b : Bool) (rows : List A)
      → (b ≡ true → All P rows)
      → All (λ a. b ≡ true → P a) rows
  All-implied P b rows h = elim (Bool-cases b) [
    | inl e ↦ All-map (λ a p _. p) rows (h e)
    | inr e ↦ All-every (λ a met. cc) rows
  ]
