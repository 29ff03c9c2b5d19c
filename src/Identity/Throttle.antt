-- ===== src/Identity/Throttle.antt =====
-- The throttling of sign-ins: how many attempts are reserved before a lock ends.
pub mod Left
use perovskite_fabrication_w.Prelude.{
  ℕ, suc, ◌+◌, ◌*◌, ◌≤◌, ◌<◌, ◌≡◌, refl, sym, ap, subst, ◌∙◌, Option, none, some, ◌∷◌, [], ◌++◌,
  Bool, true, false, ◌&&◌, ok, ◌>>◌, >>-eq-ok, >>=-eq-ok, raise_if, if◌then◌else◌, leb, ◌==◌,
  str_eq, any, inl, inr, Bool-cases, Option-cases, String, arith, not, ◌-◌, ==_iff,
}
use perovskite_fabrication_w.Prelude.Text.{decimal, take}
use perovskite_fabrication_w.Batch.Data.{UserRole}
use perovskite_fabrication_w.Work.Rows.{find_row, alter, delete}
use perovskite_fabrication_w.Work.Rows.Tables.{
  find_row-ident, find_row-alter, find_row-append, ==_refl,
}
use perovskite_fabrication_w.Identity.Data.{
  UserRow, Accounts, limit_not_positive, username_taken, credentials_changed, token_taken,
}
use perovskite_fabrication_w.Identity.{
  NewUser, Reservation, is_user, may_attempt, charge, charge_user, charge_found, clear_failures,
  find_user, set_access, set_password, belongs_to, with_account_event, new_user,
  normalize_display_name, create_user, reserve_login_attempt, record_successful_login,
  reset_password,
}
use perovskite_fabrication_w.Identity.Sessions.{
  NewSession, new_session, has_token, create_session, touch_session, delete_session,
  delete_expired_sessions,
}
use perovskite_fabrication_w.Identity.Administrators.{update-UserUpdated}
use perovskite_fabrication_w.Identity.Runs.{
  AccountStep, create, reserve, succeed, sign_in, touch, sign_out, expire, change_access,
  change_password, AccountRun, done, next,
}
use perovskite_fabrication_w.Identity.Throttle.Left.{
  user_at, HasLeft, unlocked, After, unmoved, cleared-After, reserve-After, create_user-seen,
  create_session-users, reset_password-users, accessed-After,
}

-- Whether a step reserves an attempt on the account of the user.
abbrev pub reserves : (id : ℕ) (t t' : Accounts) → AccountStep t t' → Bool
reserves id _ _ (create _ _ _ _ _ _ _ _) = false
reserves id _ _ (reserve k _ _ _ _ r _) = id == k && r.reserved
reserves id _ _ (succeed _ _ _) = false
reserves id _ _ (sign_in _ _ _ _ _) = false
reserves id _ _ (touch _ _ _) = false
reserves id _ _ (sign_out _ _ _) = false
reserves id _ _ (expire _ _) = false
reserves id _ _ (change_access _ _ _ _ _ _ _ _) = false
reserves id _ _ (change_password _ _ _ _ _ _ _) = false

-- Whether a step is a successful sign-in or a password reset of the user.
abbrev pub clears : (id : ℕ) (t t' : Accounts) → AccountStep t t' → Bool
clears id _ _ (create _ _ _ _ _ _ _ _) = false
clears id _ _ (reserve _ _ _ _ _ _ _) = false
clears id _ _ (succeed _ k _) = id == k
clears id _ _ (sign_in _ _ _ _ _) = false
clears id _ _ (touch _ _ _) = false
clears id _ _ (sign_out _ _ _) = false
clears id _ _ (expire _ _) = false
clears id _ _ (change_access _ _ _ _ _ _ _ _) = false
clears id _ _ (change_password _ _ _ _ k _ _) = id == k

-- An attempt has the limit of the configuration, and is made before a time that its lock reaches.
abbrev pub IsWithin : (limit horizon : ℕ) (t t' : Accounts) → AccountStep t t' → Type 0
IsWithin limit horizon _ _ (create _ _ _ _ _ _ _ _) = Unit
IsWithin limit horizon _ _ (reserve _ attempted_at failure_limit lockout_until _ _ _) =
    (failure_limit ≡ limit) × (attempted_at < horizon) × (horizon ≤ lockout_until)
IsWithin limit horizon _ _ (succeed _ _ _) = Unit
IsWithin limit horizon _ _ (sign_in _ _ _ _ _) = Unit
IsWithin limit horizon _ _ (touch _ _ _) = Unit
IsWithin limit horizon _ _ (sign_out _ _ _) = Unit
IsWithin limit horizon _ _ (expire _ _) = Unit
IsWithin limit horizon _ _ (change_access _ _ _ _ _ _ _ _) = Unit
IsWithin limit horizon _ _ (change_password _ _ _ _ _ _ _) = Unit

abbrev pub AllWithin : (limit horizon : ℕ) (t t' : Accounts) → AccountRun t t' → Type 0
AllWithin limit horizon _ _ (done _) = Unit
AllWithin limit horizon _ _ (next t between last step rest) =
    IsWithin limit horizon t between step × AllWithin limit horizon between last rest

-- The number of attempts that a run reserves on the account.
abbrev pub reserved_attempts : (id : ℕ) (t t' : Accounts) → AccountRun t t' → ℕ
reserved_attempts id _ _ (done _) = 0
reserved_attempts id _ _ (next t between last step rest) =
    (if reserves id t between step then 1 else 0) + reserved_attempts id between last rest

-- The number of successful sign-ins and password resets of the account in a run.
abbrev pub clearings : (id : ℕ) (t t' : Accounts) → AccountRun t t' → ℕ
clearings id _ _ (done _) = 0
clearings id _ _ (next t between last step rest) =
    (if clears id t between step then 1 else 0) + clearings id between last rest

module _ (id limit horizon : ℕ) where
  step-After :
      (t t' : Accounts) (step : AccountStep t t') (u : UserRow) (left : ℕ)
      → 0 < limit
      → IsWithin limit horizon t t' step
      → user_at id limit horizon t ≡ some u
      → HasLeft id limit horizon u left
      → After id limit horizon left t' (reserves id t t' step) (clears id t t' step)
  unfolding record_successful_login touch_session delete_session delete_expired_sessions
  step-After _ _ (create now new_id actor t t' given fresh h) u left positive within seen has =
      unmoved id limit horizon u left t' false
        (create_user-seen id limit horizon now new_id actor t t' given u h seen) has
  step-After _ _ (reserve k attempted_at failure_limit lockout_until t r h) u left positive within
        seen has =
      reserve-After id limit horizon k attempted_at lockout_until t r u left within.1 within.2
        (subst (λ n. reserve_login_attempt k attempted_at n lockout_until t ≡ ok r) within.0 h) seen
        has
  step-After _ _ (succeed now k t) u left positive within seen has =
      cleared-After id limit horizon t (record_successful_login now k t) u left k
        (clear_failures now) (λ r. refl) refl refl refl positive seen has
  step-After _ _ (sign_in now t t' given h) u left positive within seen has =
      unmoved id limit horizon u left t' false
        (subst (λ users. find_row (λ r. r.ident) id users ≡ some u)
          (create_session-users id limit horizon now t t' given h) seen)
        has
  step-After _ _ (touch at token t) u left positive within seen has =
      unmoved id limit horizon u left (touch_session at token t) false seen has
  step-After _ _ (sign_out actor token t) u left positive within seen has =
      unmoved id limit horizon u left (delete_session actor token t) false seen has
  step-After _ _ (expire now t) u left positive within seen has =
      unmoved id limit horizon u left (delete_expired_sessions now t).0 false seen has
  step-After _ _ (change_access now actor t t' k role is_active h) u left positive within seen has =
      let written = (update-UserUpdated now actor t t' k role is_active h).written in
      accessed-After id limit horizon t t' u left k now role is_active
        (sym (ap (λ (after : Accounts). after.users) written)) seen has
  step-After _ _ (change_password now actor t t' k password_hash h) u left positive within seen
        has =
      cleared-After id limit horizon t t' u left k (set_password now password_hash) (λ r. refl) refl
        refl (reset_password-users id limit horizon now actor t t' k password_hash h) positive seen
        has

  -- Each attempt takes one of those left; a clearing gives back a limit of them at most.
  run_bound :
      (t t' : Accounts) (run : AccountRun t t') (u : UserRow) (left : ℕ)
      → 0 < limit
      → AllWithin limit horizon t t' run
      → user_at id limit horizon t ≡ some u
      → HasLeft id limit horizon u left
      → reserved_attempts id t t' run ≤ left + clearings id t t' run * limit
  run_bound _ _ (done t) u left positive within seen has = omega arith
  run_bound _ _ (next t between last step rest) u left positive within seen has =
      let a = step-After t between step u left positive within.0 seen has in
      let more = run_bound between last rest a.user a.still positive within.1 a.seen a.has_left in
      let paid = a.balance in
      elim (Bool-cases (clears id t between step)) [ inl e ↦ ground arith | inr e ↦ ground arith ]

  -- In any sequence of operations on accounts and sessions that succeed, in which all attempts have the same
  -- limit and are made before a time that every lock set by them reaches, an account that starts unlocked
  -- with fewer failures than the limit gets no more reserved attempts than those left, and as many as the
  -- limit for each successful sign-in and each password reset of it on the way.
  pub reserved_attempts_bound :
      (t t' : Accounts) (run : AccountRun t t') (u : UserRow)
      → AllWithin limit horizon t t' run
      → user_at id limit horizon t ≡ some u
      → u.locked_until ≡ none
      → u.failed_login_count < limit
      → u.failed_login_count + reserved_attempts id t t' run ≤ limit + clearings id t t' run * limit
  reserved_attempts_bound t t' run u within seen open_ under =
      let bound =
        run_bound t t' run u (limit - u.failed_login_count) (omega (arith, under)) within seen
          (unlocked open_ under (omega (arith, under))) in
      omega (arith, bound, under)
