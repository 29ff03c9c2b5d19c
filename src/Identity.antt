-- ===== src/Identity.antt =====
-- Accounts, login throttling and sessions (src/web/repository/identity.py) on the tables of users and
-- sessions. Times are numbers; an operation that raises writes nothing. A user is found by the primary
-- key, so a statement `WHERE id = …` meets at most one row.
pub mod Data
pub mod Sessions
pub mod Administrators
pub mod Throttle
pub mod Runs
pub mod Credentials
use perovskite_fabrication_w.Prelude.{
  ℕ, suc, String, Option, none, some, List, [], ◌∷◌, ◌++◌, Bool, true, false, not, ◌&&◌, ◌||◌,
  Result, ok, err, Check, ◌>>=◌, ◌>>◌, raise_if, if◌then◌else◌, ltb, leb, ◌==◌, str_eq, any, count,
  keep,
}
use perovskite_fabrication_w.Prelude.Text.{strip, take, decimal, text_length}
use perovskite_fabrication_w.Batch.Data.{UserRole, administrator, role_rank}
use perovskite_fabrication_w.Work.Rows.{find_row, found, alter, delete}
use perovskite_fabrication_w.Identity.Data.{
  UserRow, SessionRow, Accounts, IdentityError, name_blank, name_too_long, username_taken,
  limit_not_positive, unknown_user, own_access, last_administrator,
}

abbrev pub is_user : ℕ → UserRow → Bool
is_user id u = u.ident == id

abbrev pub find_user : Accounts → ℕ → Result IdentityError UserRow
find_user t id = found unknown_user (find_row (λ u. u.ident) id t.users)

abbrev pub is_administrator : UserRole → Bool
is_administrator r = role_rank r == 3

-- An active administrator.
abbrev pub administers : UserRow → Bool
administers u = is_administrator u.role && u.is_active

abbrev pub with_account_event : Option ℕ → String → String → Accounts → Accounts
with_account_event actor action entity_id t = record t {
  audit = t.audit ++ (record { actor = actor; action = action; entity_id = entity_id } ∷ []);
}

abbrev pub display_name_max_length : ℕ
display_name_max_length = 120

-- `_normalize_display_name`
unfoldable pub normalize_display_name : String → Result IdentityError String
unfolding text_length
normalize_display_name display_name = do
  let normalized = strip display_name
  raise_if (str_eq normalized "") name_blank
  raise_if (ltb display_name_max_length (text_length normalized)) name_too_long
  ok normalized

-- The arguments of a creation.
pub record NewUser : Type 0 where
  pub username : String
  pub display_name : String
  pub password_hash : String
  pub role : UserRole

abbrev pub new_user : ℕ → ℕ → NewUser → String → UserRow
new_user now new_id given display_name = record {
  ident = new_id;
  username = given.username;
  display_name = display_name;
  password_hash = given.password_hash;
  role = given.role;
  is_active = true;
  failed_login_count = 0;
  locked_until = none;
  last_login_at = none;
  password_changed_at = now;
  updated_at = now;
}

-- The column of the names is unique.
unfoldable pub create_user : ℕ → ℕ → Option ℕ → Accounts → NewUser → Result IdentityError Accounts
unfolding normalize_display_name decimal
create_user now new_id actor t given = do
  display_name ← normalize_display_name given.display_name
  raise_if (any (λ u. str_eq u.username given.username) t.users) username_taken
  ok (
      with_account_event actor "user.create" (decimal new_id)
        (record t { users = t.users ++ (new_user now new_id given display_name ∷ []) }))

-- `locked_until is not None and locked_until <= attempted_at`
abbrev pub lock_expired : ℕ → UserRow → Bool
lock_expired attempted_at u = elim u.locked_until [
  | none ↦ false
  | some until ↦ leb until attempted_at
]

-- The WHERE clause of the reservation.
abbrev pub may_attempt : ℕ → UserRow → Bool
may_attempt attempted_at u =
    u.is_active && (elim u.locked_until [ none ↦ true | some until ↦ leb until attempted_at ])

abbrev pub next_failures : ℕ → UserRow → ℕ
next_failures attempted_at u = suc (if lock_expired attempted_at u then 0 else u.failed_login_count)

-- The values of the reservation.
abbrev pub charge : ℕ → ℕ → ℕ → UserRow → UserRow
charge attempted_at failure_limit lockout_until u = record u {
  failed_login_count = next_failures attempted_at u;
  locked_until =
      if leb failure_limit (next_failures attempted_at u) then some lockout_until else none;
  updated_at = attempted_at;
}

abbrev pub attempt_action : ℕ → ℕ → String
attempt_action failure_limit failures =
    if leb failure_limit failures then "session.lockout" else "session.login_failed"

-- What a reservation returns, with the tables after it.
pub record Reservation : Type 0 where
  pub reserved : Bool
  pub accounts : Accounts

abbrev pub refuse_attempt : Accounts → Reservation
refuse_attempt t = record { reserved = false; accounts = t }

unfoldable pub charge_user : ℕ → ℕ → ℕ → ℕ → Accounts → UserRow → Reservation
unfolding decimal
charge_user id attempted_at failure_limit lockout_until t u =
    if may_attempt attempted_at u
    then record {
      reserved = true;
      accounts =
          with_account_event (some id) (attempt_action failure_limit (next_failures attempted_at u))
            (decimal id)
            (record t {
              users = alter (is_user id) (charge attempted_at failure_limit lockout_until) t.users;
            });
    }
    else refuse_attempt t

abbrev pub charge_found : ℕ → ℕ → ℕ → ℕ → Accounts → Option UserRow → Reservation
charge_found id attempted_at failure_limit lockout_until t none = refuse_attempt t
charge_found id attempted_at failure_limit lockout_until t (some u) =
    charge_user id attempted_at failure_limit lockout_until t u

-- A limit below zero raises as zero does.
unfoldable pub reserve_login_attempt : ℕ → ℕ → ℕ → ℕ → Accounts → Result IdentityError Reservation
unfolding charge_user
reserve_login_attempt id attempted_at failure_limit lockout_until t = do
  raise_if (failure_limit == 0) limit_not_positive
  ok (
      charge_found id attempted_at failure_limit lockout_until t
        (find_row (λ u. u.ident) id t.users))

abbrev pub clear_failures : ℕ → UserRow → UserRow
clear_failures now u = record u {
  failed_login_count = 0;
  locked_until = none;
  last_login_at = some now;
  updated_at = now;
}

unfoldable pub record_successful_login : ℕ → ℕ → Accounts → Accounts
record_successful_login now id t = record t {
  users = alter (is_user id) (clear_failures now) t.users;
}

abbrev pub belongs_to : ℕ → SessionRow → Bool
belongs_to id s = s.user_id == id

-- The guard against an installation without an administrator.
unfoldable pub check_administrators : ℕ → ℕ → Bool → Accounts → Check IdentityError
check_administrators id actor keeps t =
    if not (id == actor) && not keeps
    then (elim (find_row (λ u. u.ident) id t.users) [
      | none ↦ ok tt
      | some u ↦
          raise_if (administers u && count (λ v. administers v && not (is_user id v)) t.users == 0)
            last_administrator
    ])
    else ok tt

abbrev pub set_access : ℕ → UserRole → Bool → UserRow → UserRow
set_access now role is_active u = record u { role = role; is_active = is_active; updated_at = now }

abbrev pub sessions_after : ℕ → Bool → List SessionRow → List SessionRow
sessions_after id is_active sessions =
    if is_active then sessions else delete (belongs_to id) sessions

unfoldable pub update_user : ℕ → ℕ → Accounts → ℕ → UserRole → Bool → Result IdentityError Accounts
unfolding check_administrators decimal
update_user now actor t id role is_active = do
  raise_if (id == actor && (not (is_administrator role) || not is_active)) own_access
  check_administrators id actor (is_administrator role && is_active) t
  user ← find_user t id
  ok (
      with_account_event (some actor) "user.update" (decimal id) (record t {
        users = alter (is_user id) (set_access now role is_active) t.users;
        sessions = sessions_after id is_active t.sessions;
      }))

abbrev pub set_password : ℕ → String → UserRow → UserRow
set_password now password_hash u = record u {
  password_hash = password_hash;
  failed_login_count = 0;
  locked_until = none;
  password_changed_at = now;
  updated_at = now;
}

unfoldable pub reset_password : ℕ → ℕ → Accounts → ℕ → String → Result IdentityError Accounts
unfolding decimal
reset_password now actor t id password_hash = do
  user ← find_user t id
  ok (
      with_account_event (some actor) "user.reset_password" (decimal id) (record t {
        users = alter (is_user id) (set_password now password_hash) t.users;
        sessions = delete (belongs_to id) t.sessions;
      }))
