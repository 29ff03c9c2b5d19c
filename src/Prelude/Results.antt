-- ===== src/Prelude/Results.antt =====
-- Code that may raise: a value or the exception that left the function.
use mathlib.Core.Path.{◌≡◌, refl}
use mathlib.Core.Bool.{Bool, true, false, not}
use mathlib.Core.Logic.{◌↔◌}
use mathlib.Core.List.{List, [], ◌∷◌}
use package.perovskite_fabrication_w.Prelude.Lists.{All, enumerate}
use Prim.Native.Nat.{ℕ, suc}

pub data Result {ℓ κ} (E : Type ℓ) (A : Type κ) : Type (ℓ ⊔ κ) where
  ok : A → Result E A
  err : E → Result E A

-- A function that returns nothing, or raises.
abbrev pub Check {ℓ} : Type ℓ → Type ℓ
Check E = Result E (Unit {0})

infixl 5 ◌>>=◌ ◌>>◌
abbrev pub ◌>>=◌ {ℓ κ μ} :
    {E : Type ℓ} {A : Type κ} {B : Type μ} → Result E A → (A → Result E B) → Result E B
ok a >>= f = f a
err e >>= f = err e

abbrev pub ◌>>◌ {ℓ κ} : {E : Type ℓ} {B : Type κ} → Result E (Unit {0}) → Result E B → Result E B
ok a >> k = k
err e >> k = err e

module _ {ℓ} {E : Type ℓ} where
  -- `if b: raise e`
  abbrev pub raise_if : Bool → E → Result E (Unit {0})
  raise_if true e = err e
  raise_if false e = ok tt

  -- `for x in xs: f(x)`
  abbrev pub for_each {κ} : {A : Type κ} → List A → (A → Result E (Unit {0})) → Result E (Unit {0})
  for_each [] f = ok tt
  for_each (x ∷ xs) f = f x >> for_each xs f

  -- Inversions of success.
  pub >>-eq-ok {κ} :
      {B : Type κ} (m : Result E (Unit {0})) (k : Result E B) {b : B}
      → (m >> k) ≡ ok b
      → (m ≡ ok tt) × (k ≡ ok b)
  >>-eq-ok (ok tt) k h = (refl, h)
  >>-eq-ok (err e) k h = cc

  pub >>=-eq-ok {κ μ} :
      {A : Type κ} {B : Type μ} (first : Result E A) (next : A → Result E B) {last : B}
      → (first >>= next) ≡ ok last
      → (between : A) × (first ≡ ok between) × (next between ≡ ok last)
  >>=-eq-ok (ok between) next passed = (between, refl, passed)
  >>=-eq-ok (err reason) next passed = absurd cc

  pub raise_if-eq-ok : (b : Bool) (e : E) → raise_if b e ≡ ok tt → b ≡ false
  raise_if-eq-ok true e h = cc
  raise_if-eq-ok false e h = refl

  -- A chain of two checks passes exactly when both do.
  pub >>-ok_iff : (m k : Check E) → ((m >> k) ≡ ok tt) ↔ ((m ≡ ok tt) × (k ≡ ok tt))
  >>-ok_iff (ok tt) k = (λ h. (refl, h), λ h. h.1)
  >>-ok_iff (err e) k = (λ h. cc, λ h. cc)

  pub raise_if_iff : (b : Bool) (e : E) → (raise_if b e ≡ ok tt) ↔ (b ≡ false)
  raise_if_iff true e = (λ h. cc, λ h. cc)
  raise_if_iff false e = (λ h. refl, λ h. refl)

  pub raise_if-not_iff : (b : Bool) (e : E) → (raise_if (not b) e ≡ ok tt) ↔ (b ≡ true)
  raise_if-not_iff true e = (λ h. refl, λ h. refl)
  raise_if-not_iff false e = (λ h. cc, λ h. cc)

  pub for_each-eq-ok {κ} :
      {A : Type κ} (xs : List A) (f : A → Result E (Unit {0}))
      → for_each xs f ≡ ok tt
      → All (λ x. f x ≡ ok tt) xs
  for_each-eq-ok [] f h = tt
  for_each-eq-ok (x ∷ xs) f h =
      let (now, later) = >>-eq-ok (f x) (for_each xs f) h in (now, for_each-eq-ok xs f later)

  pub for_each_ok {κ} :
      {A : Type κ} (xs : List A) (f : A → Result E (Unit {0}))
      → All (λ x. f x ≡ ok tt) xs
      → for_each xs f ≡ ok tt
  for_each_ok [] f h = refl
  for_each_ok (x ∷ xs) f h = rw h.0 (for_each_ok xs f h.1)

module _ {ℓ} {E : Type ℓ} {A : Type 0} (test : A → Bool) (error : ℕ → E) where
  -- A loop with `enumerate` that raises on a test passes exactly when no item meets the test.
  pub enumerate_check :
      (index : ℕ) (xs : List A)
      → for_each (enumerate index xs) (λ e. raise_if (test e.1) (error e.0)) ≡ ok tt
      → All (λ x. test x ≡ false) xs
  enumerate_check index [] h = tt
  enumerate_check index (x ∷ xs) h =
      let (now, later) =
        (>>-ok_iff (raise_if (test x) (error index))
            (for_each (enumerate (suc index) xs) (λ e. raise_if (test e.1) (error e.0)))).0
          h in
      ((raise_if_iff (test x) (error index)).0 now, enumerate_check (suc index) xs later)

  pub enumerate_check_ok :
      (index : ℕ) (xs : List A)
      → All (λ x. test x ≡ false) xs
      → for_each (enumerate index xs) (λ e. raise_if (test e.1) (error e.0)) ≡ ok tt
  enumerate_check_ok index [] h = refl
  enumerate_check_ok index (x ∷ xs) h = rw h.0 (enumerate_check_ok (suc index) xs h.1)
