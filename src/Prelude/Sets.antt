-- ===== src/Prelude/Sets.antt =====
-- Python's `set` of texts as a list of its members, and the comparison of one with a list.
use perovskite_fabrication_w.Prelude.Tests.{if◌then◌else◌, Bool-cases, ◌==◌, ==_iff, and_split}
use perovskite_fabrication_w.Prelude.Lists.{length, all}
use Prim.Native.Nat.{suc, ◌≤◌}
use Prim.Native.String.{String}
use text.Mathlib.Text.{◌==◌ as str_eq}
use text.Mathlib.TextEquality.{eq_iff}
use native.Mathlib.Bridge.{from_ℕ, from_le⁻¹}
use native.Mathlib.Omega.{arith}
use mathlib.Core.Path.{◌≡◌, refl, sym, ap, ◌∙◌}
use mathlib.Core.Logic.{◌↔◌, inl, inr}
use mathlib.Core.Logic.Or
use mathlib.Core.Bool.{Bool, true, false, ◌&&◌, ◌||◌, not}
use mathlib.Core.List
use mathlib.Core.List.{
  List, [], ◌∷◌, Mem, Nodup, Perm, Subset, mem-cons, not-mem-nil, Nodup-cons, Nodup-nil, Mem-prop,
}
use mathlib.Core.List.Perm
use mathlib.Core.List.Nodup
use mathlib.Core.List.Subperm

-- `key in xs`
unfoldable pub contains : List String → String → Bool
contains [] key = false
contains (x ∷ xs) key = str_eq x key || contains xs key

-- `set(xs)`
unfoldable pub to_set : List String → List String
unfolding contains
to_set [] = []
to_set (x ∷ xs) = let rest = to_set xs in if contains rest x then rest else x ∷ rest

-- `set(xs) == set(ys)`
unfoldable pub same_set : List String → List String → Bool
unfolding contains
same_set xs ys = all (contains ys) xs && all (contains xs) ys

-- `len(xs) == len(expected) and set(xs) == expected`, for a set `expected`
unfoldable pub lists_each_once : List String → List String → Bool
unfolding same_set
lists_each_once xs expected = length xs == length expected && same_set xs expected

pub contains_iff : (xs : List String) (key : String) → (contains xs key ≡ true) ↔ Mem key xs
unfolding contains
contains_iff [] key = (λ h. cc, λ h. absurd (not-mem-nil h))
contains_iff (x ∷ xs) key = elim (Bool-cases (str_eq x key)) [
  | inl e ↦ rw e (λ _. mem-cons.1 (Or.inl (sym ((eq_iff x key).0 e))), λ _. refl)
  | inr e ↦ rw e (
    λ h. mem-cons.1 (Or.inr ((contains_iff xs key).0 h)),
    λ m.
        Or.elim (hlevel) (mem-cons.0 m) (λ eq. cc ((eq_iff x key).1 (sym eq)))
          (contains_iff xs key).1,
  )
]

to_set-Nodup : (xs : List String) → Nodup (to_set xs)
unfolding to_set
to_set-Nodup [] = Nodup-nil
to_set-Nodup (x ∷ xs) = elim (Bool-cases (contains (to_set xs) x)) [
  | inl e ↦ rw e (to_set-Nodup xs)
  | inr e ↦ rw e (Nodup-cons.1 ((λ m. cc ((contains_iff (to_set xs) x).1 m)), to_set-Nodup xs))
]

from_ℕ-length : (xs : List String) → from_ℕ (List.length xs) ≡ length xs
from_ℕ-length [] = refl
from_ℕ-length (x ∷ xs) = ap suc (from_ℕ-length xs)

all-Subset : (xs ys : List String) → all (contains ys) xs ≡ true → Subset xs ys
all-Subset [] ys h a m = absurd (not-mem-nil m)
all-Subset (x ∷ xs) ys h a m =
    let (here, later) = and_split (contains ys x) (all (contains ys) xs) h in
    Or.elim Mem-prop (mem-cons.0 m) (λ e. rw e ((contains_iff ys x).0 here))
      (all-Subset xs ys later a)

Subset-all : (xs ys : List String) → Subset xs ys → all (contains ys) xs ≡ true
Subset-all [] ys h = refl
Subset-all (x ∷ xs) ys h =
    rw ((contains_iff ys x).1 (h x (mem-cons.1 (Or.inl refl))))
      (Subset-all xs ys (λ a m. h a (mem-cons.1 (Or.inr m))))

-- A set with as many members as the list, all of them in the list, is a reordering of the list.
perm_of_subset :
    (xs set : List String) → Nodup set → Subset set xs → length xs ≤ length set → Perm xs set
perm_of_subset xs set distinct sub le = Perm.symm (
    Subperm.perm_of_length_le (Nodup.subperm distinct sub)
      (from_le⁻¹ (List.length xs) (List.length set) (rw (from_ℕ-length xs, from_ℕ-length set) le)))

-- The test passes exactly when the list holds each member of the set once and nothing else.
pub lists_each_once_iff :
    (xs names : List String) → (lists_each_once xs (to_set names) ≡ true) ↔ Perm xs (to_set names)
unfolding lists_each_once
lists_each_once_iff xs names =
    let set = to_set names in
    (
      λ h.
          let (sizes, same) = and_split (length xs == length set) (same_set xs set) h in
          let (_, back) = and_split (all (contains set) xs) (all (contains xs) set) same in
          perm_of_subset xs set (to_set-Nodup names) (all-Subset set xs back)
            (omega (arith, (==_iff _ _).0 sizes)),
      λ p.
          let sizes : length xs ≡ length set =
            sym (from_ℕ-length xs) ∙ ap from_ℕ (Perm.length-eq p) ∙ from_ℕ-length set in
          rw (
            (==_iff _ _).1 sizes,
            Subset-all xs set (Perm.subset p),
            Subset-all set xs (Perm.subset (Perm.symm p)),
          ),
    )

-- No text occurs twice.
unfoldable pub no_repeats : List String → Bool
unfolding contains
no_repeats [] = true
no_repeats (x ∷ xs) = not (contains xs x) && no_repeats xs

pub to_set-no_repeats : (xs : List String) → no_repeats xs ≡ true → to_set xs ≡ xs
unfolding to_set no_repeats
to_set-no_repeats [] h = refl
to_set-no_repeats (x ∷ xs) h =
    let (fresh, rest) = and_split (not (contains xs x)) (no_repeats xs) h in
    let absent : contains xs x ≡ false = ground arith in rw (to_set-no_repeats xs rest, absent)
