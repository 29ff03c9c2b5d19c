-- ===== src/Prelude/Sort.antt =====
-- `sorted(xs)` on numbers, and the test `xs == sorted(xs)`.
use perovskite_fabrication_w.Prelude.Tests.{leb, ◌==◌, if◌then◌else◌, Bool-cases}
use perovskite_fabrication_w.Prelude.Lists.{All, All-map, All-middle, count}
use Prim.Native.Nat.{ℕ, ◌≤◌, ◌<◌}
use mathlib.Core.Path.{◌≡◌, refl, ap, sym, ◌∙◌, subst}
use mathlib.Core.Logic.{inl, inr, ◌↔◌}
use mathlib.Core.Bool.{Bool, true, false, ◌&&◌}
use mathlib.Core.List.{List, [], ◌∷◌, ◌++◌, map}
use native.Mathlib.Omega.{arith}

pub insert : ℕ → List ℕ → List ℕ
insert x [] = x ∷ []
insert x (y ∷ ys) = let rest = insert x ys in if leb x y then x ∷ y ∷ ys else y ∷ rest

unfoldable pub sorted : List ℕ → List ℕ
unfolding insert
sorted [] = []
sorted (x ∷ xs) = insert x (sorted xs)

abbrev pub list_eq : List ℕ → List ℕ → Bool
list_eq [] [] = true
list_eq (x ∷ xs) (y ∷ ys) = x == y && list_eq xs ys
list_eq _ _ = false

pub list_eq_iff : (xs ys : List ℕ) → (list_eq xs ys ≡ true) ↔ (xs ≡ ys)
list_eq_iff [] [] = (λ _. refl, λ _. refl)
list_eq_iff [] (y ∷ ys) = (λ h. cc, λ h. cc)
list_eq_iff (x ∷ xs) [] = (λ h. cc, λ h. cc)
list_eq_iff (x ∷ xs) (y ∷ ys) =
    (λ h. ground (arith, list_eq_iff xs ys), λ h. ground (arith, list_eq_iff xs ys))

-- Each item is at most every later one.
abbrev pub IsSorted : List ℕ → Type 0
IsSorted [] = Unit
IsSorted (x ∷ xs) = All (λ y. x ≤ y) xs × IsSorted xs

All-insert : (P : ℕ → Type 0) (x : ℕ) (ys : List ℕ) → P x → All P ys → All P (insert x ys)
unfolding insert
All-insert P x [] px h = (px, tt)
All-insert P x (y ∷ ys) px h = elim (Bool-cases (leb x y)) [
  | inl e ↦ rw e (px, h)
  | inr e ↦ rw e (h.0, All-insert P x ys px h.1)
]

insert-IsSorted : (x : ℕ) (ys : List ℕ) → IsSorted ys → IsSorted (insert x ys)
unfolding insert
insert-IsSorted x [] h = (tt, tt)
insert-IsSorted x (y ∷ ys) h = elim (Bool-cases (leb x y)) [
  | inl e ↦
      let le : x ≤ y = ground arith in rw e ((le, All-map (λ z (q : y ≤ z). omega arith) ys h.0), h)
  | inr e ↦
      let le : y ≤ x = ground arith in
      rw e (All-insert (λ z. y ≤ z) x ys le h.0, insert-IsSorted x ys h.1)
]

pub sorted-IsSorted : (xs : List ℕ) → IsSorted (sorted xs)
unfolding sorted
sorted-IsSorted [] = tt
sorted-IsSorted (x ∷ xs) = insert-IsSorted x (sorted xs) (sorted-IsSorted xs)

insert_least : (x : ℕ) (ys : List ℕ) → All (λ y. x ≤ y) ys → insert x ys ≡ x ∷ ys
unfolding insert
insert_least x [] h = refl
insert_least x (y ∷ ys) h = ground arith

pub sorted_fixed : (xs : List ℕ) → IsSorted xs → sorted xs ≡ xs
unfolding sorted
sorted_fixed [] h = refl
sorted_fixed (x ∷ xs) h = ap (insert x) (sorted_fixed xs h.1) ∙ insert_least x xs h.0

-- `xs == sorted(xs)` holds exactly of the lists in ascending order.
pub list_eq-sorted_iff : (xs : List ℕ) → (list_eq xs (sorted xs) ≡ true) ↔ IsSorted xs
list_eq-sorted_iff xs = (
  λ h. subst IsSorted (sym ((list_eq_iff xs (sorted xs)).0 h)) (sorted-IsSorted xs),
  λ h. (list_eq_iff xs (sorted xs)).1 (sym (sorted_fixed xs h)),
)

module _ {ℓ} {A : Type ℓ} (f : A → ℕ) where
  -- The items are in ascending order of `f`.
  abbrev pub IsSortedBy : List A → Type ℓ
  IsSortedBy [] = Unit
  IsSortedBy (x ∷ xs) = All (λ y. f x ≤ f y) xs × IsSortedBy xs

  All-map_iff : (P : ℕ → Type 0) (xs : List A) → All P (map f xs) ↔ All (λ x. P (f x)) xs
  All-map_iff P [] = (λ h. tt, λ h. tt)
  All-map_iff P (x ∷ xs) =
      let (to, from) = All-map_iff P xs in (λ h. (h.0, to h.1), λ h. (h.0, from h.1))

  pub IsSorted-map_iff : (xs : List A) → IsSorted (map f xs) ↔ IsSortedBy xs
  IsSorted-map_iff [] = (λ h. tt, λ h. tt)
  IsSorted-map_iff (x ∷ xs) =
      let (to, from) = IsSorted-map_iff xs in
      let (each, back) = All-map_iff (λ y. f x ≤ y) xs in
      (λ h. (each h.0, to h.1), λ h. (back h.0, from h.1))

module _ {ℓ} {A : Type ℓ} (f : A → ℕ) (k : ℕ) where
  -- A list in ascending order of `f`, with one item at `k`, cut at that item.
  pub record IsCutAt (xs : List A) : Type ℓ where
    pub below : List A
    pub item : A
    pub above : List A
    pub split : xs ≡ below ++ (item ∷ above)
    pub at : f item ≡ k
    pub lower : All (λ x. f x < k) below
    pub upper : All (λ x. k < f x) above

  below_of_ne : {j : ℕ} (i n : ℕ) → j ≡ n → i ≤ j → (i == n) ≡ false → i < n
  below_of_ne i n at le ne = ground arith

  above_of_none :
      (x : A) (xs : List A)
      → f x ≡ k
      → All (λ y. f x ≤ f y) xs
      → count (λ y. f y == k) xs ≡ 0
      → All (λ y. k < f y) xs
  above_of_none x [] e h c = tt
  above_of_none x (y ∷ ys) e h c = (ground arith, above_of_none x ys e h.1 (ground arith))

  pub IsSortedBy-IsCutAt :
      (xs : List A) → IsSortedBy f xs → count (λ x. f x == k) xs ≡ 1 → IsCutAt xs
  IsSortedBy-IsCutAt [] h c = absurd (omega arith)
  IsSortedBy-IsCutAt (x ∷ xs) h c = elim (Bool-cases (f x == k)) [
    | inl e ↦
        let here : f x ≡ k = ground arith in
        record {
          below = [];
          item = x;
          above = xs;
          split = refl;
          at = here;
          lower = tt;
          upper = above_of_none x xs here h.0 (ground arith);
        }
    | inr e ↦
        let later : IsCutAt xs = IsSortedBy-IsCutAt xs h.1 (ground arith) in
        let bound : f x ≤ f later.item =
          All-middle (λ y. f x ≤ f y) later.below later.item later.above
            (subst (All (λ y. f x ≤ f y)) later.split h.0) in
        record {
          below = x ∷ later.below;
          item = later.item;
          above = later.above;
          split = ap (λ l. x ∷ l) later.split;
          at = later.at;
          lower = (below_of_ne (f x) k (later.at) bound e, later.lower);
          upper = later.upper;
        }
  ]
