-- ===== src/Identity/Sessions.antt =====
-- The sessions of src/web/repository/identity.py.
use perovskite_fabrication_w.Prelude.{
  ℕ, String, Option, none, some, [], ◌∷◌, ◌++◌, Bool, not, Result, ok, ◌>>=◌, ◌>>◌, raise_if, leb,
  ◌==◌, str_eq, count, any,
}
use perovskite_fabrication_w.Prelude.Text.{take}
use perovskite_fabrication_w.Work.Rows.{alter, delete}
use perovskite_fabrication_w.Identity.Data.{
  SessionRow, Accounts, IdentityError, credentials_changed, token_taken,
}
use perovskite_fabrication_w.Identity.{find_user, with_account_event}

-- The arguments of a session.
pub record NewSession : Type 0 where
  pub token_hash : String
  pub csrf_token_hash : String
  pub user_id : ℕ
  pub expires_at : ℕ
  pub user_agent : Option String
  pub password_changed_at : ℕ

abbrev pub agent_text : Option String → String
agent_text none = ""
agent_text (some text) = take 512 text

abbrev pub new_session : ℕ → NewSession → SessionRow
new_session now given = record {
  token_hash = given.token_hash;
  csrf_token_hash = given.csrf_token_hash;
  user_id = given.user_id;
  created_at = now;
  last_seen_at = now;
  expires_at = given.expires_at;
  user_agent = agent_text given.user_agent;
}

abbrev pub has_token : String → SessionRow → Bool
has_token token s = str_eq s.token_hash token

-- The hash of the token is the primary key.
unfoldable pub create_session : ℕ → Accounts → NewSession → Result IdentityError Accounts
create_session now t given = do
  user ← find_user t given.user_id
  raise_if (not (user.password_changed_at == given.password_changed_at)) credentials_changed
  raise_if (any (has_token given.token_hash) t.sessions) token_taken
  ok (
      with_account_event (some given.user_id) "session.login" (take 12 given.token_hash)
        (record t { sessions = t.sessions ++ (new_session now given ∷ []) }))

unfoldable pub touch_session : ℕ → String → Accounts → Accounts
touch_session at token t = record t {
  sessions = alter (has_token token) (λ s. record s { last_seen_at = at }) t.sessions;
}

unfoldable pub delete_session : Option ℕ → String → Accounts → Accounts
delete_session actor token t =
    with_account_event actor "session.logout" (take 12 token)
      (record t { sessions = delete (has_token token) t.sessions })

-- The tables, and how many sessions went.
unfoldable pub delete_expired_sessions : ℕ → Accounts → Accounts × ℕ
delete_expired_sessions now t = (
  record t { sessions = delete (λ s. leb s.expires_at now) t.sessions },
  count (λ s. leb s.expires_at now) t.sessions,
)
