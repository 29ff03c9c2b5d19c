-- ===== src/Work/Rows/Keys.antt =====
-- The keys of the rows of one owner stay unique when rows are split off and merged back.
use perovskite_fabrication_w.Prelude.{
  ℕ, ◌≡◌, refl, ◌∙◌, List, [], ◌∷◌, Bool, true, false, ◌&&◌, inl, inr, Bool-cases, ◌==◌, All,
  All-map, All-keep_iff, any, keep, arith,
}
use perovskite_fabrication_w.Work.Rows.Tables.{==_refl}
use perovskite_fabrication_w.Work.Rows.Links.{
  Link, owned, split_links, merge_links, same_key, clash, keys_unique,
}
use perovskite_fabrication_w.Work.Rows.Pairs.{
  Pairwise, Pairwise-map, Pairwise-both, changed, All-changed, Pairwise-changed, any_none, none_any,
  square, unsquare, All-implied,
}

module _ {ℓ} {A : Type ℓ} (link : Link A) where
  abbrev Apart : A → A → Type 0
  Apart a b = clash link a b ≡ false

  keys_unique-Pairwise : (rows : List A) → keys_unique link rows ≡ true → Pairwise Apart rows
  unfolding keys_unique
  keys_unique-Pairwise [] h = tt
  keys_unique-Pairwise (a ∷ rows) h =
      (any_none (clash link a) rows (ground arith), keys_unique-Pairwise rows (ground arith))

  Pairwise-keys_unique : (rows : List A) → Pairwise Apart rows → keys_unique link rows ≡ true
  unfolding keys_unique
  Pairwise-keys_unique [] h = refl
  Pairwise-keys_unique (a ∷ rows) h =
      rw (none_any (clash link a) rows h.0, Pairwise-keys_unique rows h.1) refl

  clash-move_left :
      (n : ℕ) (a b : A) → clash link (link.move n a) b ≡ ((n == link.owner b) && same_key link a b)
  clash-move_left n a b = rw (link.owner-move n a, link.key-move n a) refl

  clash-move_right :
      (n : ℕ) (a b : A) → clash link a (link.move n b) ≡ ((link.owner a == n) && same_key link a b)
  clash-move_right n a b = rw (link.owner-move n b, link.key-move n b) refl

  -- The selected rows are all of one owner, and no row belongs to the new owner.
  pub record SplitFact (selected : A → Bool) (old new : ℕ) (a : A) : Type 0 where
    pub fresh : owned link new a ≡ false
    pub from_old : selected a ≡ true → owned link old a ≡ true

  split-Apart :
      (selected : A → Bool) (old new : ℕ) (a b : A)
      → SplitFact selected old new a
      → SplitFact selected old new b
      → Apart a b
      → Apart (changed selected (link.move new) a) (changed selected (link.move new) b)
  split-Apart selected old new a b fact_a fact_b apart = elim (Bool-cases (selected a)) [
    | inl e ↦ elim (Bool-cases (selected b)) [
      | inl d ↦
          let same_a = fact_a.from_old e in
          let same_b = fact_b.from_old d in
          let unlike : same_key link a b ≡ false = ground arith in
          rw
            (
              e,
              d,
              clash-move_left new a (link.move new b),
              link.owner-move new b,
              link.key-move new b,
              ==_refl new,
            )
            unlike
      | inr d ↦ let other = fact_b.fresh in rw (e, d, clash-move_left new a b) (ground arith)
    ]
    | inr e ↦ elim (Bool-cases (selected b)) [
      | inl d ↦ let other = fact_a.fresh in rw (e, d, clash-move_right new a b) (ground arith)
      | inr d ↦ rw (e, d) apart
    ]
  ]

  pub split-keys_unique :
      (selected : A → Bool) (old new : ℕ) (rows : List A)
      → All (SplitFact selected old new) rows
      → keys_unique link rows ≡ true
      → keys_unique link (split_links link selected new rows) ≡ true
  split-keys_unique selected old new rows facts unique =
      Pairwise-keys_unique (split_links link selected new rows) (
        Pairwise-changed Apart selected (link.move new) rows (
          Pairwise-map _ (split-Apart selected old new) rows facts
            (keys_unique-Pairwise rows unique)))

  clash-sym : (a b : A) → clash link a b ≡ clash link b a
  clash-sym a b = ground arith

  -- A row that stays with the old owner and one that goes to the new owner.
  abbrev Parted : ℕ → ℕ → A → A → Type 0
  Parted old new a b = owned link old a ≡ true → owned link new b ≡ true → same_key link a b ≡ false

  Parted-changed :
      (selected : A → Bool) (old new : ℕ) (a b : A)
      → (old == new) ≡ false
      → SplitFact selected old new a
      → SplitFact selected old new b
      → Apart a b
      → Parted old new (changed selected (link.move new) a) (changed selected (link.move new) b)
  Parted-changed selected old new a b differ fact_a fact_b apart = elim (Bool-cases (selected a)) [
    | inl e ↦ rw (e, link.owner-move new a) (λ same _. absurd (ground arith))
    | inr e ↦ elim (Bool-cases (selected b)) [
      | inl d ↦
          let at_old = fact_b.from_old d in rw (e, d, link.key-move new b) (λ own _. ground arith)
      | inr d ↦ let other = fact_b.fresh in rw (e, d) (λ _ own. cc)
    ]
  ]

  abbrev pub overlap : List A → List A → Bool
  overlap targets sources = any (λ a. any (same_key link a) sources) targets

  Parted-overlap :
      (old new : ℕ) (rows : List A)
      → All (λ a. All (Parted old new a) rows) rows
      → overlap (keep (owned link old) rows) (keep (owned link new) rows) ≡ false
  Parted-overlap old new rows parted = none_any _ (keep (owned link old) rows) (
      (All-keep_iff _ (owned link old) rows).1 (
        All-map
          (λ a h own.
            none_any _ (keep (owned link new) rows)
              ((All-keep_iff _ (owned link new) rows).1 (All-map (λ b k. k own) rows h)))
          rows parted))

  -- After a split the rows of the two owners have no key in common.
  pub split-overlap :
      (selected : A → Bool) (old new : ℕ) (rows : List A)
      → (old == new) ≡ false
      → All (SplitFact selected old new) rows
      → keys_unique link rows ≡ true
      → (let rows' = split_links link selected new rows in
          overlap (keep (owned link old) rows') (keep (owned link new) rows'))
        ≡ false
  split-overlap selected old new rows differ facts unique =
      let rows' = split_links link selected new rows in
      let f = changed selected (link.move new) in
      let pairs = keys_unique-Pairwise rows unique in
      Parted-overlap old new rows' (
        square (Parted old new) rows'
          (All-changed _ selected (link.move new) rows
            (All-map (λ a _. λ own_old own_new. ground arith) rows facts))
          (Pairwise-changed (Parted old new) selected (link.move new) rows
            (Pairwise-map _ (λ a b. Parted-changed selected old new a b differ) rows facts pairs))
          (Pairwise-changed (λ a b. Parted old new b a) selected (link.move new) rows
            (Pairwise-map _
              (λ a b p q apart.
                Parted-changed selected old new b a differ q p (clash-sym b a ∙ apart))
              rows facts pairs)))

  overlap-Parted :
      (old new : ℕ) (rows : List A)
      → overlap (keep (owned link old) rows) (keep (owned link new) rows) ≡ false
      → All (λ a. All (Parted old new a) rows) rows
  overlap-Parted old new rows h =
      All-map
        (λ a k. All-implied _ (owned link old a) rows (λ own.
          (All-keep_iff _ (owned link new) rows).0
            (any_none _ (keep (owned link new) rows) (k own))))
        rows ((All-keep_iff _ (owned link old) rows).0 (any_none _ (keep (owned link old) rows) h))

  merge-Apart :
      (target source : ℕ) (a b : A)
      → Apart a b
      → Parted target source a b
      → Parted target source b a
      → Apart
          (changed (owned link source) (link.move target) a)
          (changed (owned link source) (link.move target) b)
  merge-Apart target source a b apart forth back = elim (Bool-cases (owned link source a)) [
    | inl e ↦ elim (Bool-cases (owned link source b)) [
      | inl d ↦
          let unlike : same_key link a b ≡ false = ground arith in
          rw
            (
              e,
              d,
              clash-move_left target a (link.move target b),
              link.owner-move target b,
              link.key-move target b,
              ==_refl target,
            )
            unlike
      | inr d ↦
          rw (e, d, clash-move_left target a b)
            (elim (Bool-cases (owned link target b)) [
              | inl own ↦ let unlike = back own e in ground arith
              | inr other ↦ ground arith
            ])
    ]
    | inr e ↦ elim (Bool-cases (owned link source b)) [
      | inl d ↦
          rw (e, d, clash-move_right target a b)
            (elim (Bool-cases (owned link target a)) [
              | inl own ↦ let unlike = forth own d in ground arith
              | inr other ↦ ground arith
            ])
      | inr d ↦ rw (e, d) apart
    ]
  ]

  -- A merge of owners without a common key keeps the keys unique.
  pub merge-keys_unique :
      (target source : ℕ) (rows : List A)
      → overlap (keep (owned link target) rows) (keep (owned link source) rows) ≡ false
      → keys_unique link rows ≡ true
      → keys_unique link (merge_links link target source rows) ≡ true
  merge-keys_unique target source rows disjoint unique =
      let parted =
        unsquare (Parted target source) rows (overlap-Parted target source rows disjoint) in
      let pairs = keys_unique-Pairwise rows unique in
      Pairwise-keys_unique (merge_links link target source rows) (
        Pairwise-changed Apart (owned link source) (link.move target) rows (
          Pairwise-both (λ a b apart both. merge-Apart target source a b apart both.0 both.1) rows
            pairs parted))
