-- ===== src/Tests/Logins.antt =====
-- Two users: what the operations on accounts do.
use perovskite_fabrication_w.Work.Rows.Selected.{are_keys}
use perovskite_fabrication_w.Prelude.{
  ℕ, ◌+◌, ◌*◌, ◌≤◌, ◌≡◌, refl, String, none, some, [], ◌∷◌, true, false, err, count, All, arith,
}
use perovskite_fabrication_w.Batch.Data.{student, administrator}
use perovskite_fabrication_w.Identity.Data.{UserRow, Accounts, credentials_changed}
use perovskite_fabrication_w.Identity.Sessions.{NewSession, create_session}
use perovskite_fabrication_w.Identity.{
  Reservation, charge_user, clear_failures, reserve_login_attempt, record_successful_login,
  administers, belongs_to, update_user, reset_password,
}
use perovskite_fabrication_w.Identity.Throttle.{
  clearings, reserved_attempts, reserved_attempts_bound,
}
use perovskite_fabrication_w.Prelude.Text.{decimal}
use perovskite_fabrication_w.Identity.Runs.{
  AccountRun, done, next, change_access, reserve, succeed, AccountRun-administrators,
}
use perovskite_fabrication_w.Identity.Credentials.{reset_password-create_session}

abbrev user : ℕ → String → UserRow
user id name = record {
  ident = id;
  username = name;
  display_name = name;
  password_hash = "old";
  role = administrator;
  is_active = true;
  failed_login_count = 1;
  locked_until = none;
  last_login_at = none;
  password_changed_at = 3;
  updated_at = 3;
}

abbrev two_users : Accounts
two_users = record { users = user 1 "ada" ∷ user 2 "bob" ∷ []; sessions = []; audit = [] }

-- An attempt that locks the account, a sign-in that was verified before, and another attempt.
abbrev locking : Reservation
locking = charge_user 1 5 2 100 two_users (user 1 "ada")

abbrev cleared : Accounts
cleared = record_successful_login 6 1 locking.accounts

abbrev again : Reservation
again = charge_user 1 7 2 100 cleared (clear_failures 6 (user 1 "ada"))

tries : AccountRun two_users again.accounts
unfolding reserve_login_attempt charge_user record_successful_login decimal
tries = next two_users locking.accounts again.accounts (reserve 1 5 2 100 two_users locking refl) (
    next locking.accounts cleared again.accounts (succeed 6 1 locking.accounts) (
      next cleared again.accounts again.accounts (reserve 1 7 2 100 cleared again refl)
        (done again.accounts)))

reserved_attempts_bound_example :
    1 + reserved_attempts 1 two_users again.accounts tries
    ≤ 2 + clearings 1 two_users again.accounts tries * 2
unfolding tries
reserved_attempts_bound_example =
    reserved_attempts_bound 1 2 50 two_users again.accounts tries (user 1 "ada")
      ((refl, omega arith, omega arith), (tt, ((refl, omega arith, omega arith), tt))) refl refl
      (omega arith)

-- The first user makes the second a student.
abbrev one_left : Accounts
one_left = record {
  users = user 1 "ada" ∷ record (user 2 "bob") { role = student; updated_at = 8 } ∷ [];
  sessions = [];
  audit = record { actor = some 1; action = "user.update"; entity_id = "2" } ∷ [];
}

demote : AccountRun two_users one_left
unfolding update_user
demote =
    next two_users one_left one_left (change_access 8 1 two_users one_left 2 student true refl)
      (done one_left)

AccountRun-administrators_example : 1 ≤ count administers one_left.users
unfolding are_keys
AccountRun-administrators_example =
    AccountRun-administrators two_users one_left refl (omega arith) demote

abbrev after_reset : Accounts
after_reset = record {
  users =
      user 1 "ada"
      ∷ record (user 2 "bob") {
        password_hash = "new";
        failed_login_count = 0;
        password_changed_at = 8;
        updated_at = 8;
      }
      ∷ [];
  sessions = [];
  audit = record { actor = some 1; action = "user.reset_password"; entity_id = "2" } ∷ [];
}

abbrev stale_sign_in : NewSession
stale_sign_in = record {
  token_hash = "t";
  csrf_token_hash = "c";
  user_id = 2;
  expires_at = 90;
  user_agent = none;
  password_changed_at = 3;
}

reset_password-create_session_example :
    All (λ s. belongs_to 2 s ≡ false) after_reset.sessions
    × (create_session 9 after_reset stale_sign_in ≡ err credentials_changed)
unfolding reset_password
reset_password-create_session_example =
    reset_password-create_session 8 1 9 2 two_users after_reset "new" stale_sign_in refl refl refl
