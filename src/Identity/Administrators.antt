-- ===== src/Identity/Administrators.antt =====
-- No sequence of account operations leaves the installation without an active administrator.
use perovskite_fabrication_w.Prelude.{
  ℕ, ◌≤◌, ◌≡◌, refl, sym, subst, some, List, [], ◌∷◌, Bool, true, false, not, ◌&&◌, ◌||◌, ok, ◌>>=◌,
  ◌>>◌, >>-eq-ok, >>=-eq-ok, raise_if, raise_if-eq-ok, ◌==◌, ==_iff, count, count_ext, map, inl,
  inr, Bool-cases, All, All-map, and_split, arith,
}
use perovskite_fabrication_w.Prelude.Text.{decimal}
use perovskite_fabrication_w.Batch.Data.{UserRole}
use perovskite_fabrication_w.Batch.Counts.{mem}
use perovskite_fabrication_w.Work.Rows.{find_row, alter}
use perovskite_fabrication_w.Work.Rows.Tables.{found-eq-ok}
use perovskite_fabrication_w.Work.Rows.Selected.{are_keys, absent-All}
use perovskite_fabrication_w.Identity.Data.{
  UserRow, Accounts, own_access, last_administrator, unknown_user,
}
use perovskite_fabrication_w.Identity.{
  is_user, administers, is_administrator, find_user, check_administrators, set_access,
  sessions_after, with_account_event, update_user,
}

module _ {A : Type 0} (ident : A → ℕ) where
  -- What holds of the row that is found holds of each row with its key.
  All-found {κ} :
      (P : A → Type κ) (key : ℕ) (rows : List A) (row : A)
      → are_keys (map ident rows) ≡ true
      → find_row ident key rows ≡ some row
      → P row
      → All (λ a. (ident a == key) ≡ true → P a) rows
  unfolding are_keys
  All-found P key [] row keys = λ found h. tt
  All-found P key (a ∷ rows) row keys =
      let (absent, rest) =
        and_split (not (mem (ident a) (map ident rows))) (are_keys (map ident rows)) keys in
      elim (Bool-cases (ident a == key)) [
        | inl e ↦ rw e (λ found h.
            let same : a ≡ row = cc in
            let at_key : ident a ≡ key = (==_iff _ _).0 e in
            let others = absent-All ident (ident a) rows (ground arith) in
            (
              λ _. subst P (sym same) h,
              All-map
                  (λ b other own.
                    let clash : (ident b == key) ≡ false =
                      subst (λ k. (ident b == k) ≡ false) at_key other in
                    cc)
                  rows others,
            ))
        | inr e ↦ rw e (λ found h. (λ own. cc, All-found P key rows row rest found h))
      ]

module _ {A : Type 0} (test : A → Bool) where
  -- An update that does not change the test of any row changes no count.
  pub count-alter :
      (which : A → Bool) (change : A → A) (rows : List A)
      → ((a : A) → test (change a) ≡ test a)
      → count test (alter which change rows) ≡ count test rows
  count-alter which change [] same = refl
  count-alter which change (a ∷ rows) same =
      let rest = count-alter which change rows same in
      elim (Bool-cases (which a)) [ inl e ↦ rw (e, same a, rest) refl | inr e ↦ rw (e, rest) refl ]

  -- An update of some rows leaves those that it does not meet.
  count-alter_others :
      (which : A → Bool) (change : A → A) (rows : List A)
      → count (λ a. test a && not (which a)) rows ≤ count test (alter which change rows)
  count-alter_others which change [] = omega arith
  count-alter_others which change (a ∷ rows) =
      let rest = count-alter_others which change rows in
      elim (Bool-cases (which a)) [
        | inl e ↦ rw e (ground (arith, rest))
        | inr e ↦ rw e (ground (arith, rest))
      ]

  -- An update that meets a row and makes it pass the test leaves a row that passes.
  count-alter_made :
      (ident : A → ℕ) (key : ℕ) (change : A → A) (rows : List A) (row : A)
      → ((a : A) → test (change a) ≡ true)
      → find_row ident key rows ≡ some row
      → 1 ≤ count test (alter (λ a. ident a == key) change rows)
  count-alter_made ident key change [] row made = λ found. absurd cc
  count-alter_made ident key change (a ∷ rows) row made = elim (Bool-cases (ident a == key)) [
    | inl e ↦ rw (e, made a) (λ found. omega arith)
    | inr e ↦ rw e (λ found.
        let rest = count-alter_made ident key change rows row made found in ground (arith, rest))
  ]

not_met : (a b : Bool) → (b ≡ true → a ≡ false) → a ≡ (a && not b)
not_met true true tells = let met = tells refl in cc
not_met true false tells = refl
not_met false b tells = refl

-- The number of active administrators.
abbrev pub administrators : Accounts → ℕ
administrators t = count administers t.users

module _ (now actor : ℕ) (t t' : Accounts) (id : ℕ) (role : UserRole) (is_active : Bool) where
  abbrev keeps : Bool
  keeps = is_administrator role && is_active

  abbrev updated : Accounts
  updated = with_account_event (some actor) "user.update" (decimal id) (record t {
    users = alter (is_user id) (set_access now role is_active) t.users;
    sessions = sessions_after id is_active t.sessions;
  })

  pub record UserUpdated : Type 0 where
    pub user : UserRow
    pub own : (id == actor && (not (is_administrator role) || not is_active)) ≡ false
    pub guarded : check_administrators id actor keeps t ≡ ok tt
    pub user_found : find_row (λ u. u.ident) id t.users ≡ some user
    pub written : t' ≡ updated

  pub update-UserUpdated : update_user now actor t id role is_active ≡ ok t' → UserUpdated
  unfolding update_user
  update-UserUpdated h =
      let step3 = λ (u : UserRow). ok updated in
      let step2 = check_administrators id actor keeps t >> (find_user t id >>= step3) in
      let withdraws = id == actor && (not (is_administrator role) || not is_active) in
      let (one, h1) = >>-eq-ok (raise_if withdraws own_access) step2 h in
      let (two, h2) =
        >>-eq-ok (check_administrators id actor keeps t) (find_user t id >>= step3) h1 in
      let (user, three, last) = >>=-eq-ok (find_user t id) step3 h2 in
      let same : updated ≡ t' = cc in
      record {
        user = user;
        own = raise_if-eq-ok withdraws own_access one;
        guarded = two;
        user_found = found-eq-ok unknown_user _ user three;
        written = sym same;
      }

  abbrev others : ℕ
  others = count (λ v. administers v && not (is_user id v)) t.users

  -- The guard finds another active administrator, or the user is none.
  guard_passed :
      (u : UserRow)
      → find_row (λ u. u.ident) id t.users ≡ some u
      → (id == actor) ≡ false
      → keeps ≡ false
      → check_administrators id actor keeps t ≡ ok tt
      → (administers u && others == 0) ≡ false
  unfolding check_administrators
  guard_passed u user_found other drops =
      rw (other, drops, user_found) (raise_if-eq-ok _ last_administrator)

  others_left :
      (u : UserRow)
      → are_keys (map (λ v. v.ident) t.users) ≡ true
      → find_row (λ v. v.ident) id t.users ≡ some u
      → (administers u && others == 0) ≡ false
      → 1 ≤ count administers t.users
      → 1 ≤ others
  others_left u keys user_found passed some_one = elim (Bool-cases (administers u)) [
    | inl e ↦ ground (arith, e, passed)
    | inr e ↦
        let none_of =
          All-found (λ v. v.ident) (λ v. administers v ≡ false) id t.users u keys user_found e in
        let same : count administers t.users ≡ others =
          count_ext administers (λ v. administers v && not (is_user id v)) t.users
            (All-map (λ v tells. not_met (administers v) (is_user id v) tells) t.users none_of) in
        omega (arith, same)
  ]

  pub update_user-administrators :
      are_keys (map (λ v. v.ident) t.users) ≡ true
      → 1 ≤ count administers t.users
      → update_user now actor t id role is_active ≡ ok t'
      → 1 ≤ count administers t'.users
  update_user-administrators keys some_one h =
      let done = update-UserUpdated h in
      let left : 1
          ≤ count administers (alter (is_user id) (set_access now role is_active) t.users) =
        elim (Bool-cases keeps) [
          | inl e ↦
              count-alter_made administers (λ v. v.ident) id (set_access now role is_active) t.users
                done.user (λ v. e) done.user_found
          | inr e ↦
              let other : (id == actor) ≡ false = let own = done.own in ground arith in
              let passed = guard_passed done.user done.user_found other e done.guarded in
              let still = others_left done.user keys done.user_found passed some_one in
              let bound =
                count-alter_others administers (is_user id) (set_access now role is_active)
                  t.users in
              omega (arith, still, bound)
        ] in
      subst (λ after. 1 ≤ count administers after.users) (sym done.written) left
