-- ===== src/Identity/Throttle/Left.antt =====
-- What each operation on accounts leaves of the attempts that a user has before the locks end.
use perovskite_fabrication_w.Prelude.{
  ℕ, suc, ◌+◌, ◌≤◌, ◌<◌, ◌≡◌, refl, sym, ap, subst, ◌∙◌, Option, none, some, ◌∷◌, [], ◌++◌, Bool,
  true, false, ◌&&◌, ok, ◌>>◌, >>-eq-ok, >>=-eq-ok, raise_if, if◌then◌else◌, leb, ◌==◌, str_eq, any,
  inl, inr, Bool-cases, Option-cases, String, arith, not, ◌-◌, ==_iff,
}
use perovskite_fabrication_w.Prelude.Text.{decimal, take}
use perovskite_fabrication_w.Batch.Data.{UserRole}
use perovskite_fabrication_w.Work.Rows.{find_row, alter, delete}
use perovskite_fabrication_w.Work.Rows.Tables.{find_row-ident, find_row-alter, find_row-append}
use perovskite_fabrication_w.Identity.Data.{
  UserRow, Accounts, limit_not_positive, username_taken, credentials_changed, token_taken,
}
use perovskite_fabrication_w.Identity.{
  NewUser, Reservation, is_user, may_attempt, charge, charge_user, charge_found, find_user,
  set_access, set_password, belongs_to, with_account_event, new_user, normalize_display_name,
  create_user, reserve_login_attempt, reset_password,
}
use perovskite_fabrication_w.Identity.Sessions.{NewSession, new_session, has_token, create_session}

module _ (id limit horizon : ℕ) where
  abbrev pub user_at : Accounts → Option UserRow
  user_at t = find_row (λ u. u.ident) id t.users

  -- A row with a number of attempts left before the locks end.
  pub data HasLeft (u : UserRow) (left : ℕ) : Type 0 where
    unlocked :
        u.locked_until ≡ none
        → u.failed_login_count < limit
        → u.failed_login_count + left ≡ limit
        → HasLeft u left
    locked : (until : ℕ) → u.locked_until ≡ some until → horizon ≤ until → left ≡ 0 → HasLeft u left

  -- The row after a step, which took one of the attempts left, or gave all back.
  pub record After (left : ℕ) (t : Accounts) (taken cleared : Bool) : Type 0 where
    pub user : UserRow
    pub still : ℕ
    pub seen : user_at t ≡ some user
    pub has_left : HasLeft user still
    pub balance : (if taken then 1 else 0) + still ≤ left + (if cleared then limit else 0)

  pub unmoved :
      (u : UserRow) (left : ℕ) (t : Accounts) (cleared : Bool)
      → user_at t ≡ some u
      → HasLeft u left
      → After left t false cleared
  unmoved u left t cleared seen h = record {
    user = u;
    still = left;
    seen = seen;
    has_left = h;
    balance = omega arith;
  }

  module _ (t : Accounts) (u : UserRow) (seen : user_at t ≡ some u) (k : ℕ)
      (change : UserRow → UserRow) (kept : (r : UserRow) → (change r).ident ≡ r.ident) where
    altered :
        find_row (λ r. r.ident) id (alter (is_user k) change t.users)
        ≡ some (if id == k then change u else u)
    altered =
        let own : u.ident ≡ id = find_row-ident (λ r. r.ident) id t.users u seen in
        subst
          (λ n.
            find_row (λ r. r.ident) id (alter (is_user k) change t.users)
            ≡ some (if n == k then change u else u))
          own (find_row-alter (λ r. r.ident) (is_user k) change id t.users u kept seen)

    altered_own :
        (id == k) ≡ true
        → find_row (λ r. r.ident) id (alter (is_user k) change t.users) ≡ some (change u)
    altered_own e = altered ∙ ap (λ b. some (if b then change u else u)) e

    altered_other :
        (id == k) ≡ false → find_row (λ r. r.ident) id (alter (is_user k) change t.users) ≡ some u
    altered_other e = altered ∙ ap (λ b. some (if b then change u else u)) e

  -- An update that sets the counter to zero and removes the lock, of this account or another.
  pub cleared-After :
      (t t' : Accounts) (u : UserRow) (left k : ℕ) (change : UserRow → UserRow)
      → ((r : UserRow) → (change r).ident ≡ r.ident)
      → (change u).failed_login_count ≡ 0
      → (change u).locked_until ≡ none
      → alter (is_user k) change t.users ≡ t'.users
      → 0 < limit
      → user_at t ≡ some u
      → HasLeft u left
      → After left t' false (id == k)
  cleared-After t t' u left k change kept no_failures no_lock written positive seen h =
      let move =
        λ (s : UserRow)
            (found : find_row (λ r. r.ident) id (alter (is_user k) change t.users) ≡ some s).
          subst (λ users. find_row (λ r. r.ident) id users ≡ some s) written found in
      elim (Bool-cases (id == k)) [
        | inl e ↦ rw e (record {
          user = change u;
          still = limit;
          seen = move (change u) (altered_own t u seen k change kept e);
          has_left = unlocked no_lock (omega (arith, no_failures)) (omega (arith, no_failures));
          balance = omega arith;
        })
        | inr e ↦ rw e (unmoved u left t' false (move u (altered_other t u seen k change kept e)) h)
      ]

  -- An attempt that is reserved on this account.
  charge-HasLeft :
      (u : UserRow) (left attempted_at lockout_until : ℕ)
      → attempted_at < horizon
      → horizon ≤ lockout_until
      → HasLeft u left
      → may_attempt attempted_at u ≡ true
      → (still : ℕ) × HasLeft (charge attempted_at limit lockout_until u) still × (1 + still ≤ left)
  charge-HasLeft u left attempted_at lockout_until early far (locked until lock reach none_left)
        may =
      let before : leb until attempted_at ≡ false = ground arith in
      let refused : may_attempt attempted_at u ≡ false = rw (lock, before) (ground arith) in cc
  charge-HasLeft u left attempted_at lockout_until early far (unlocked open_ under sum) may =
      let charged = charge attempted_at limit lockout_until u in
      let failures : charged.failed_login_count ≡ suc u.failed_login_count = rw open_ refl in
      elim (Bool-cases (leb limit (suc u.failed_login_count))) [
        | inl reached ↦
            let lock : charged.locked_until ≡ some lockout_until = rw open_ (rw reached refl) in
            (0, locked lockout_until lock far refl, ground arith)
        | inr short ↦
            let lock : charged.locked_until ≡ none = rw open_ (rw short refl) in
            let room : suc u.failed_login_count < limit = ground arith in
            (
              limit - suc u.failed_login_count,
              unlocked lock (omega (arith, failures, room)) (omega (arith, failures, room)),
              omega (arith, room),
            )
      ]

  charged-After :
      (k attempted_at lockout_until : ℕ) (t : Accounts) (u v : UserRow) (left : ℕ)
      → attempted_at < horizon
      → horizon ≤ lockout_until
      → user_at t ≡ some u
      → find_row (λ r. r.ident) k t.users ≡ some v
      → HasLeft u left
      → (let r = charge_user k attempted_at limit lockout_until t v in
          After left r.accounts (id == k && r.reserved) false)
  unfolding charge_user
  charged-After k attempted_at lockout_until t u v left early far seen found h =
      let change = charge attempted_at limit lockout_until in
      elim (Bool-cases (may_attempt attempted_at v)) [
        | inr refused ↦
            let nothing : (id == k && false) ≡ false = ground arith in
            rw (refused, nothing) (unmoved u left t false seen h)
        | inl allowed ↦ elim (Bool-cases (id == k)) [
          | inr other ↦
              rw (allowed, other)
                (record {
                  user = u;
                  still = left;
                  seen = altered_other t u seen k change (λ r. refl) other;
                  has_left = h;
                  balance = omega arith;
                })
          | inl own ↦
              let same_key : id ≡ k = (==_iff id k).0 own in
              let found_here : user_at t ≡ some v =
                subst (λ n. find_row (λ r. r.ident) n t.users ≡ some v) (sym same_key) found in
              let same : v ≡ u = cc in
              let (still, has, fewer) =
                charge-HasLeft u left attempted_at lockout_until early far h
                  (subst (λ w. may_attempt attempted_at w ≡ true) same allowed) in
              rw (allowed, own)
                (record {
                  user = change u;
                  still = still;
                  seen = altered_own t u seen k change (λ r. refl) own;
                  has_left = has;
                  balance = omega (arith, fewer);
                })
        ]
      ]

  pub reserve-After :
      (k attempted_at lockout_until : ℕ) (t : Accounts) (r : Reservation) (u : UserRow) (left : ℕ)
      → attempted_at < horizon
      → horizon ≤ lockout_until
      → reserve_login_attempt k attempted_at limit lockout_until t ≡ ok r
      → user_at t ≡ some u
      → HasLeft u left
      → After left r.accounts (id == k && r.reserved) false
  unfolding reserve_login_attempt
  reserve-After k attempted_at lockout_until t r u left early far h seen has =
      let search_row = find_row (λ v. v.ident) k t.users in
      let result = charge_found k attempted_at limit lockout_until t in
      let (positive, last) =
        >>-eq-ok (raise_if (limit == 0) limit_not_positive) (ok (result search_row)) h in
      let same : result search_row ≡ r = cc in
      subst (λ q. After left q.accounts (id == k && q.reserved) false) same
        (elim (Option-cases search_row) [
          | inl e ↦
              let nothing : (id == k && false) ≡ false = ground arith in
              rw (e, nothing) (unmoved u left t false seen has)
          | inr (v, e) ↦
              rw e (charged-After k attempted_at lockout_until t u v left early far seen e has)
        ])

  -- The users after the operations that add or keep rows.
  pub create_user-seen :
      (now new_id : ℕ) (actor : Option ℕ) (t t' : Accounts) (given : NewUser) (u : UserRow)
      → create_user now new_id actor t given ≡ ok t'
      → user_at t ≡ some u
      → user_at t' ≡ some u
  unfolding create_user
  create_user-seen now new_id actor t t' given u h seen =
      let whole = λ (name : String).
        with_account_event actor "user.create" (decimal new_id)
          (record t { users = t.users ++ (new_user now new_id given name ∷ []) }) in
      let taken = any (λ v. str_eq v.username given.username) t.users in
      let (name, normal, h1) =
        >>=-eq-ok (normalize_display_name given.display_name)
          (λ (name : String). raise_if taken username_taken >> ok (whole name)) h in
      let (free, last) = >>-eq-ok (raise_if taken username_taken) (ok (whole name)) h1 in
      let same : whole name ≡ t' = cc in
      subst (λ after. user_at after ≡ some u) same
        (find_row-append (λ v. v.ident) id t.users (new_user now new_id given name ∷ []) u seen)

  pub create_session-users :
      (now : ℕ) (t t' : Accounts) (given : NewSession)
      → create_session now t given ≡ ok t'
      → t.users ≡ t'.users
  unfolding create_session
  create_session-users now t t' given h =
      let whole =
        with_account_event (some given.user_id) "session.login" (take 12 given.token_hash)
          (record t { sessions = t.sessions ++ (new_session now given ∷ []) }) in
      let stale = λ (u : UserRow). not (u.password_changed_at == given.password_changed_at) in
      let unique = raise_if (any (has_token given.token_hash) t.sessions) token_taken in
      let (u, one, h1) =
        >>=-eq-ok (find_user t given.user_id)
          (λ (u : UserRow). raise_if (stale u) credentials_changed >> (unique >> ok whole)) h in
      let (two, h2) = >>-eq-ok (raise_if (stale u) credentials_changed) (unique >> ok whole) h1 in
      let (three, last) = >>-eq-ok unique (ok whole) h2 in
      let same : whole ≡ t' = cc in ap (λ (after : Accounts). after.users) same

  pub reset_password-users :
      (now actor : ℕ) (t t' : Accounts) (k : ℕ) (password_hash : String)
      → reset_password now actor t k password_hash ≡ ok t'
      → alter (is_user k) (set_password now password_hash) t.users ≡ t'.users
  unfolding reset_password
  reset_password-users now actor t t' k password_hash h =
      let whole = with_account_event (some actor) "user.reset_password" (decimal k) (record t {
        users = alter (is_user k) (set_password now password_hash) t.users;
        sessions = delete (belongs_to k) t.sessions;
      }) in
      let (u, one, last) = >>=-eq-ok (find_user t k) (λ (u : UserRow). ok whole) h in
      let same : whole ≡ t' = cc in ap (λ (after : Accounts). after.users) same

  -- A change of access keeps the counter and the lock.
  pub accessed-After :
      (t t' : Accounts) (u : UserRow) (left k now : ℕ) (role : UserRole) (is_active : Bool)
      → alter (is_user k) (set_access now role is_active) t.users ≡ t'.users
      → user_at t ≡ some u
      → HasLeft u left
      → After left t' false false
  accessed-After t t' u left k now role is_active written seen h =
      let change = set_access now role is_active in
      let move =
        λ (s : UserRow)
            (found : find_row (λ r. r.ident) id (alter (is_user k) change t.users) ≡ some s).
          subst (λ users. find_row (λ r. r.ident) id users ≡ some s) written found in
      elim (Bool-cases (id == k)) [
        | inl e ↦
            unmoved (change u) left t' false
              (move (change u) (altered_own t u seen k change (λ r. refl) e)) (kept_left u left h)
        | inr e ↦ unmoved u left t' false (move u (altered_other t u seen k change (λ r. refl) e)) h
      ]
    where
      kept_left :
          (u : UserRow) (left : ℕ) → HasLeft u left → HasLeft (set_access now role is_active u) left
      kept_left u left (unlocked a b c) = unlocked a b c
      kept_left u left (locked until a b c) = locked until a b c
