-- ===== src/Identity/Credentials.antt =====
-- A password reset ends the sessions of the user and every sign-in that verified the old password.
use perovskite_fabrication_w.Prelude.{
  ℕ, ◌≡◌, refl, sym, ap, subst, ◌∙◌, String, some, List, [], ◌∷◌, Bool, true, false, ok, err,
  >>=-eq-ok, if◌then◌else◌, ◌==◌, inl, inr, Bool-cases, All,
}
use perovskite_fabrication_w.Prelude.Text.{decimal}
use perovskite_fabrication_w.Work.Rows.{find_row, alter, delete}
use perovskite_fabrication_w.Work.Rows.Tables.{==_refl, found-eq-ok, find_row-ident, find_row-alter}
use perovskite_fabrication_w.Identity.Data.{UserRow, Accounts, unknown_user, credentials_changed}
use perovskite_fabrication_w.Identity.Sessions.{NewSession, create_session}
use perovskite_fabrication_w.Identity.{
  is_user, find_user, set_password, belongs_to, with_account_event, reset_password,
}

deleted_none :
    {A : Type 0} (test : A → Bool) (rows : List A) → All (λ a. test a ≡ false) (delete test rows)
deleted_none test [] = tt
deleted_none test (a ∷ rows) = elim (Bool-cases (test a)) [
  | inl e ↦ rw e (deleted_none test rows)
  | inr e ↦ rw e (e, deleted_none test rows)
]

-- After a reset of the password of a user no session of that user is left, and a sign-in that had verified
-- the password before the reset, with another time of the password change, creates none.
pub reset_password-create_session :
    (now actor later id : ℕ) (t t' : Accounts) (password_hash : String) (given : NewSession)
    → reset_password now actor t id password_hash ≡ ok t'
    → given.user_id ≡ id
    → (now == given.password_changed_at) ≡ false
    → All (λ s. belongs_to id s ≡ false) t'.sessions
      × (create_session later t' given ≡ err credentials_changed)
unfolding reset_password create_session
reset_password-create_session now actor later id t t' password_hash given h of_user stale =
    let whole = with_account_event (some actor) "user.reset_password" (decimal id) (record t {
      users = alter (is_user id) (set_password now password_hash) t.users;
      sessions = delete (belongs_to id) t.sessions;
    }) in
    let (u, one, last) = >>=-eq-ok (find_user t id) (λ (u : UserRow). ok whole) h in
    let same : whole ≡ t' = cc in
    let user_found = found-eq-ok unknown_user (find_row (λ v. v.ident) id t.users) u one in
    let own : is_user id u ≡ true =
      rw (find_row-ident (λ v. v.ident) id t.users u user_found) (==_refl id) in
    let seen =
      find_row-alter (λ v. v.ident) (is_user id) (set_password now password_hash) id t.users u
        (λ v. refl) user_found in
    let chosen : (if is_user id u then set_password now password_hash u else u)
        ≡ set_password now password_hash u =
      rw own refl in
    let reset : find_row (λ v. v.ident) given.user_id whole.users
        ≡ some (set_password now password_hash u) =
      subst (λ n. find_row (λ v. v.ident) n whole.users ≡ some (set_password now password_hash u))
        (sym of_user) (seen ∙ ap some chosen) in
    subst
      (λ after.
        All (λ s. belongs_to id s ≡ false) after.sessions
        × (create_session later after given ≡ err credentials_changed))
      same (deleted_none (belongs_to id) t.sessions, rw (reset, stale) refl)
