-- ===== src/Prelude/Lists.antt =====
-- Lists over the native numbers and Boolean tests, under the library's names where it has them.
use Prim.Native.Nat.{ℕ, suc, ◌+◌, ◌≤◌}
use mathlib.Core.Path.{◌≡◌, refl, ap}
use mathlib.Core.Logic.{inl, inr, ◌↔◌}
use mathlib.Core.Bool.{Bool, true, false, ◌&&◌, ◌||◌}
use mathlib.Core.List.{List, [], ◌∷◌, ◌++◌, map}
use native.Mathlib.Omega.{arith}
use package.perovskite_fabrication_w.Prelude.Tests.{if◌then◌else◌, Bool-cases}

module _ {ℓ} {A : Type ℓ} where
  abbrev pub length : List A → ℕ
  length [] = 0
  length (x ∷ xs) = suc (length xs)

  abbrev pub any : (A → Bool) → List A → Bool
  any p [] = false
  any p (x ∷ xs) = p x || any p xs

  abbrev pub all : (A → Bool) → List A → Bool
  all p [] = true
  all p (x ∷ xs) = p x && all p xs

  -- `[x for x in xs if p(x)]`
  abbrev pub keep : (A → Bool) → List A → List A
  keep p [] = []
  keep p (x ∷ xs) = let rest = keep p xs in if p x then x ∷ rest else rest

  -- `sum(1 for x in xs if p(x))`
  abbrev pub count : (A → Bool) → List A → ℕ
  count p [] = 0
  count p (x ∷ xs) = let rest = count p xs in if p x then suc rest else rest

  abbrev pub All {κ} : (A → Type κ) → List A → Type κ
  All P [] = Unit
  All P (x ∷ xs) = P x × All P xs

  pub length-append : (xs ys : List A) → length (xs ++ ys) ≡ length xs + length ys
  length-append [] ys = omega arith
  length-append (x ∷ xs) ys = omega (arith, length-append xs ys)

  pub length-keep : (p : A → Bool) (xs : List A) → length (keep p xs) ≡ count p xs
  length-keep p [] = refl
  length-keep p (x ∷ xs) = ground (arith, length-keep p xs)

  pub count-append : (p : A → Bool) (xs ys : List A) → count p (xs ++ ys) ≡ count p xs + count p ys
  count-append p [] ys = omega arith
  count-append p (x ∷ xs) ys = ground (arith, count-append p xs ys)

  pub All-append {κ} :
      (Q : A → Type κ) (front back : List A) → All Q front → All Q back → All Q (front ++ back)
  All-append Q [] back f b = b
  All-append Q (x ∷ front) back f b = let rest = All-append Q front back f.1 b in (f.0, rest)

  pub All-map {κ μ} :
      {P : A → Type κ} {Q : A → Type μ} (f : (x : A) → P x → Q x) (xs : List A)
      → All P xs
      → All Q xs
  All-map f [] h = tt
  All-map f (x ∷ xs) h = (f x h.0, All-map f xs h.1)

  pub all_sound : (p : A → Bool) (xs : List A) → all p xs ≡ true → All (λ x. p x ≡ true) xs
  all_sound p [] h = tt
  all_sound p (x ∷ xs) h = (ground arith, all_sound p xs (ground arith))

  pub all_complete : (p : A → Bool) (xs : List A) → All (λ x. p x ≡ true) xs → all p xs ≡ true
  all_complete p [] h = refl
  all_complete p (x ∷ xs) h = ground (arith, all_complete p xs h.1)

module _ {ℓ} {A : Type ℓ} where
  -- `enumerate(xs, start=n)`
  abbrev pub enumerate : ℕ → List A → List (ℕ × A)
  enumerate n [] = []
  enumerate n (x ∷ xs) = (n, x) ∷ enumerate (suc n) xs

  pub length-map {κ} : {B : Type κ} (f : A → B) (xs : List A) → length (map f xs) ≡ length xs
  length-map f [] = refl
  length-map f (x ∷ xs) = ap suc (length-map f xs)

module _ {ℓ} {A : Type ℓ} where
  pub any_iff_count : (p : A → Bool) (xs : List A) → (any p xs ≡ true) ↔ (1 ≤ count p xs)
  any_iff_count p [] = (λ h. cc, λ h. absurd (omega arith))
  any_iff_count p (x ∷ xs) =
      (λ h. ground (arith, any_iff_count p xs), λ h. ground (arith, any_iff_count p xs))

  pub count_zero : (p : A → Bool) (xs : List A) → count p xs ≡ 0 → All (λ x. p x ≡ false) xs
  count_zero p [] h = tt
  count_zero p (x ∷ xs) h = (ground arith, count_zero p xs (ground arith))

  pub count_none : (p : A → Bool) (xs : List A) → All (λ x. p x ≡ false) xs → count p xs ≡ 0
  count_none p [] h = refl
  count_none p (x ∷ xs) h = ground (arith, h.0, count_none p xs h.1)

  pub count_mono :
      (p q : A → Bool) (xs : List A)
      → All (λ x. p x ≡ true → q x ≡ true) xs
      → count p xs ≤ count q xs
  count_mono p q [] h = omega arith
  count_mono p q (x ∷ xs) h = ground (arith, h.0, count_mono p q xs h.1)

  pub count_ext : (p q : A → Bool) (xs : List A) → All (λ x. p x ≡ q x) xs → count p xs ≡ count q xs
  count_ext p q [] h = refl
  count_ext p q (x ∷ xs) h = ground (arith, count_ext p q xs h.1)

module _ {ℓ κ} {A : Type ℓ} (P : A → Type κ) where
  -- The item between two parts of a list.
  pub All-middle : (xs : List A) (y : A) (zs : List A) → All P (xs ++ (y ∷ zs)) → P y
  All-middle [] y zs h = h.0
  All-middle (x ∷ xs) y zs h = All-middle xs y zs h.1

  pub All-after : (xs : List A) (y : A) (zs : List A) → All P (xs ++ (y ∷ zs)) → All P zs
  All-after [] y zs h = h.1
  All-after (x ∷ xs) y zs h = All-after xs y zs h.1

  pub All-keep_iff :
      (p : A → Bool) (xs : List A) → All P (keep p xs) ↔ All (λ x. p x ≡ true → P x) xs
  All-keep_iff p [] = (λ h. tt, λ h. tt)
  All-keep_iff p (x ∷ xs) = elim (Bool-cases (p x)) [
    | inl e ↦
        let (to, from) = All-keep_iff p xs in
        rw e (λ h. (λ _. h.0, to h.1), λ h. (h.0 refl, from h.1))
    | inr e ↦ let (to, from) = All-keep_iff p xs in rw e (λ h. (λ f. cc, to h), λ h. from h.1)
  ]

module _ {ℓ κ} {A : Type ℓ} {P : A → Type κ} where
  pub All-zip {μ ν} :
      {Q : A → Type μ} {R : A → Type ν} (f : (x : A) → P x → Q x → R x) (xs : List A)
      → All P xs
      → All Q xs
      → All R xs
  All-zip f [] h k = tt
  All-zip f (x ∷ xs) h k = (f x h.0 k.0, All-zip f xs h.1 k.1)

module _ {ℓ κ μ} {A : Type ℓ} {B : Type κ} (R : A → B → Type μ) where
  All-swap_nil : (xs : List A) → All (λ x. All (R x) []) xs
  All-swap_nil [] = tt
  All-swap_nil (x ∷ xs) = (tt, All-swap_nil xs)

  All-swap_cons :
      (y : B) (ys : List B) (xs : List A)
      → All (λ x. R x y) xs
      → All (λ x. All (R x) ys) xs
      → All (λ x. All (R x) (y ∷ ys)) xs
  All-swap_cons y ys [] h k = tt
  All-swap_cons y ys (x ∷ xs) h k = ((h.0, k.0), All-swap_cons y ys xs h.1 k.1)

  pub All-swap :
      (xs : List A) (ys : List B) → All (λ y. All (λ x. R x y) xs) ys → All (λ x. All (R x) ys) xs
  All-swap xs [] h = All-swap_nil xs
  All-swap xs (y ∷ ys) h = All-swap_cons y ys xs h.0 (All-swap xs ys h.1)
