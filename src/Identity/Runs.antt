-- ===== src/Identity/Runs.antt =====
-- Sequences of account operations keep an active administrator.
use perovskite_fabrication_w.Prelude.{
  ℕ, ◌≤◌, ◌≡◌, refl, sym, ap, subst, ◌∙◌, String, Option, some, List, [], ◌∷◌, ◌++◌, Bool, true,
  false, not, ok, ◌>>◌, >>-eq-ok, >>=-eq-ok, raise_if, ◌==◌, str_eq, any, count, count-append, map,
  inl, inr, Bool-cases, Option-cases, All, arith,
}
use perovskite_fabrication_w.Prelude.Text.{decimal, take}
use perovskite_fabrication_w.Batch.Data.{UserRole}
use perovskite_fabrication_w.Work.Rows.{find_row, alter, delete}
use perovskite_fabrication_w.Work.Rows.Tables.{map-alter}
use perovskite_fabrication_w.Work.Rows.Selected.{are_keys, are_keys-inserted}
use perovskite_fabrication_w.Identity.Data.{
  UserRow, Accounts, limit_not_positive, username_taken, credentials_changed, token_taken,
}
use perovskite_fabrication_w.Identity.Sessions.{
  NewSession, new_session, create_session, has_token, touch_session, delete_session,
  delete_expired_sessions,
}
use perovskite_fabrication_w.Identity.{
  NewUser, Reservation, is_user, administers, find_user, charge_found, charge, set_access,
  set_password, clear_failures, with_account_event, create_user, new_user, normalize_display_name,
  reserve_login_attempt, record_successful_login, update_user, reset_password, charge_user,
  may_attempt, belongs_to,
}
use perovskite_fabrication_w.Identity.Administrators.{
  count-alter, update-UserUpdated, update_user-administrators,
}

-- One operation that succeeds. The primary key of a new user is one that no user has.
pub data AccountStep : Accounts → Accounts → Type 0 where
  create :
      (now new_id : ℕ) (actor : Option ℕ) (t t' : Accounts) (given : NewUser)
      → All (λ u. (u.ident == new_id) ≡ false) t.users
      → create_user now new_id actor t given ≡ ok t'
      → AccountStep t t'
  reserve :
      (id attempted_at failure_limit lockout_until : ℕ) (t : Accounts) (r : Reservation)
      → reserve_login_attempt id attempted_at failure_limit lockout_until t ≡ ok r
      → AccountStep t r.accounts
  succeed : (now id : ℕ) (t : Accounts) → AccountStep t (record_successful_login now id t)
  sign_in :
      (now : ℕ) (t t' : Accounts) (given : NewSession)
      → create_session now t given ≡ ok t'
      → AccountStep t t'
  touch : (at : ℕ) (token : String) (t : Accounts) → AccountStep t (touch_session at token t)
  sign_out :
      (actor : Option ℕ) (token : String) (t : Accounts)
      → AccountStep t (delete_session actor token t)
  expire : (now : ℕ) (t : Accounts) → AccountStep t (delete_expired_sessions now t).0
  change_access :
      (now actor : ℕ) (t t' : Accounts) (id : ℕ) (role : UserRole) (is_active : Bool)
      → update_user now actor t id role is_active ≡ ok t'
      → AccountStep t t'
  change_password :
      (now actor : ℕ) (t t' : Accounts) (id : ℕ) (password_hash : String)
      → reset_password now actor t id password_hash ≡ ok t'
      → AccountStep t t'

pub data AccountRun : Accounts → Accounts → Type 0 where
  done : (t : Accounts) → AccountRun t t
  next : (t t' last : Accounts) → AccountStep t t' → AccountRun t' last → AccountRun t last

-- The keys of the users are distinct, and one of them is an active administrator.
pub record IsGoverned (users : List UserRow) : Type 0 where
  pub keys : are_keys (map (λ u. u.ident) users) ≡ true
  pub governed : 1 ≤ count administers users

-- An update that changes neither keys nor access.
harmless :
    (which : UserRow → Bool) (change : UserRow → UserRow) (users : List UserRow)
    → ((u : UserRow) → (change u).ident ≡ u.ident)
    → ((u : UserRow) → administers (change u) ≡ administers u)
    → IsGoverned users
    → IsGoverned (alter which change users)
harmless which change users same_key same_access h =
    let counted = count-alter administers which change users same_access in
    record {
      keys = ap are_keys (map-alter (λ u. u.ident) which change users same_key) ∙ h.keys;
      governed = let some_one = h.governed in omega (arith, counted, some_one);
    }

created :
    (now new_id : ℕ) (actor : Option ℕ) (t t' : Accounts) (given : NewUser)
    → All (λ u. (u.ident == new_id) ≡ false) t.users
    → create_user now new_id actor t given ≡ ok t'
    → IsGoverned t.users
    → IsGoverned t'.users
unfolding create_user
created now new_id actor t t' given fresh h sound =
    let whole = λ (name : String).
      with_account_event actor "user.create" (decimal new_id)
        (record t { users = t.users ++ (new_user now new_id given name ∷ []) }) in
    let taken = any (λ u. str_eq u.username given.username) t.users in
    let (name, normal, h1) =
      >>=-eq-ok (normalize_display_name given.display_name)
        (λ (name : String). raise_if taken username_taken >> ok (whole name)) h in
    let (free, last) = >>-eq-ok (raise_if taken username_taken) (ok (whole name)) h1 in
    let same : whole name ≡ t' = cc in
    let row = new_user now new_id given name in
    let split = count-append administers t.users (row ∷ []) in
    subst (λ after. IsGoverned after.users) same
      (record {
        keys = are_keys-inserted (λ u. u.ident) t.users row fresh sound.keys;
        governed = let some_one = sound.governed in omega (arith, split, some_one);
      })

charged :
    (id attempted_at failure_limit lockout_until : ℕ) (t : Accounts) (u : UserRow)
    → IsGoverned t.users
    → IsGoverned (charge_user id attempted_at failure_limit lockout_until t u).accounts.users
unfolding charge_user
charged id attempted_at failure_limit lockout_until t u sound =
    elim (Bool-cases (may_attempt attempted_at u)) [
      | inl e ↦ rw e (
          harmless (is_user id) (charge attempted_at failure_limit lockout_until) t.users
            (λ v. refl) (λ v. refl) sound)
      | inr e ↦ rw e sound
    ]

reserved :
    (id attempted_at failure_limit lockout_until : ℕ) (t : Accounts) (r : Reservation)
    → reserve_login_attempt id attempted_at failure_limit lockout_until t ≡ ok r
    → IsGoverned t.users
    → IsGoverned r.accounts.users
unfolding reserve_login_attempt
reserved id attempted_at failure_limit lockout_until t r h sound =
    let search = find_row (λ u. u.ident) id t.users in
    let result = charge_found id attempted_at failure_limit lockout_until t in
    let (positive, last) =
      >>-eq-ok (raise_if (failure_limit == 0) limit_not_positive) (ok (result search)) h in
    let same : result search ≡ r = cc in
    subst (λ after. IsGoverned after.accounts.users) same
      (elim (Option-cases search) [
        | inl e ↦ subst (λ o. IsGoverned (result o).accounts.users) (sym e) sound
        | inr (u, e) ↦
            subst (λ o. IsGoverned (result o).accounts.users) (sym e)
              (charged id attempted_at failure_limit lockout_until t u sound)
      ])

signed_in :
    (now : ℕ) (t t' : Accounts) (given : NewSession)
    → create_session now t given ≡ ok t'
    → IsGoverned t.users
    → IsGoverned t'.users
unfolding create_session
signed_in now t t' given h sound =
    let whole =
      with_account_event (some given.user_id) "session.login" (take 12 given.token_hash)
        (record t { sessions = t.sessions ++ (new_session now given ∷ []) }) in
    let stale = λ (u : UserRow). not (u.password_changed_at == given.password_changed_at) in
    let unique = raise_if (any (has_token given.token_hash) t.sessions) token_taken in
    let (u, one, h1) =
      >>=-eq-ok (find_user t given.user_id)
        (λ (u : UserRow). raise_if (stale u) credentials_changed >> (unique >> ok whole)) h in
    let (two, h2) = >>-eq-ok (raise_if (stale u) credentials_changed) (unique >> ok whole) h1 in
    let (three, last) = >>-eq-ok unique (ok whole) h2 in
    let same : whole ≡ t' = cc in subst (λ after. IsGoverned after.users) same sound

changed_password :
    (now actor : ℕ) (t t' : Accounts) (id : ℕ) (password_hash : String)
    → reset_password now actor t id password_hash ≡ ok t'
    → IsGoverned t.users
    → IsGoverned t'.users
unfolding reset_password
changed_password now actor t t' id password_hash h sound =
    let whole = with_account_event (some actor) "user.reset_password" (decimal id) (record t {
      users = alter (is_user id) (set_password now password_hash) t.users;
      sessions = delete (belongs_to id) t.sessions;
    }) in
    let (u, one, last) = >>=-eq-ok (find_user t id) (λ (u : UserRow). ok whole) h in
    let same : whole ≡ t' = cc in
    subst (λ after. IsGoverned after.users) same
      (harmless (is_user id) (set_password now password_hash) t.users (λ v. refl) (λ v. refl) sound)

AccountStep-IsGoverned :
    (t t' : Accounts) → AccountStep t t' → IsGoverned t.users → IsGoverned t'.users
unfolding record_successful_login touch_session delete_session delete_expired_sessions
AccountStep-IsGoverned _ _ (create now new_id actor t t' given fresh h) sound =
    created now new_id actor t t' given fresh h sound
AccountStep-IsGoverned _ _ (reserve id attempted_at failure_limit lockout_until t r h) sound =
    reserved id attempted_at failure_limit lockout_until t r h sound
AccountStep-IsGoverned _ _ (succeed now id t) sound =
    harmless (is_user id) (clear_failures now) t.users (λ u. refl) (λ u. refl) sound
AccountStep-IsGoverned _ _ (sign_in now t t' given h) sound = signed_in now t t' given h sound
AccountStep-IsGoverned _ _ (touch at token t) sound = sound
AccountStep-IsGoverned _ _ (sign_out actor token t) sound = sound
AccountStep-IsGoverned _ _ (expire now t) sound = sound
AccountStep-IsGoverned _ _ (change_access now actor t t' id role is_active h) sound =
    let written = (update-UserUpdated now actor t t' id role is_active h).written in
    record {
      keys =
          subst (λ after. are_keys (map (λ u. u.ident) after.users) ≡ true) (sym written)
            (ap are_keys (
                map-alter (λ u. u.ident) (is_user id) (set_access now role is_active) t.users
                  (λ u. refl))
              ∙ sound.keys);
      governed =
          update_user-administrators now actor t t' id role is_active sound.keys sound.governed h;
    }
AccountStep-IsGoverned _ _ (change_password now actor t t' id password_hash h) sound =
    changed_password now actor t t' id password_hash h sound

-- An installation with distinct user keys and an active administrator still has one after any sequence of
-- operations on accounts and sessions that succeed: two administrators cannot demote each other, nor can
-- one withdraw his own access.
pub AccountRun-administrators :
    (t t' : Accounts)
    → are_keys (map (λ u. u.ident) t.users) ≡ true
    → 1 ≤ count administers t.users
    → AccountRun t t'
    → 1 ≤ count administers t'.users
AccountRun-administrators _ _ keys some_one (done t) = some_one
AccountRun-administrators _ _ keys some_one (next t between t' step rest) =
    let after =
      AccountStep-IsGoverned t between step (record { keys = keys; governed = some_one }) in
    AccountRun-administrators between t' after.keys after.governed rest
