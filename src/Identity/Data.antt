-- ===== src/Identity/Data.antt =====
-- The rows of the accounts (the tables of src/web/database.py) and what src/web/repository/identity.py raises.
use perovskite_fabrication_w.Prelude.{ℕ, String, Option, List, Bool}
use perovskite_fabrication_w.Batch.Data.{UserRole}

-- users
pub record UserRow : Type 0 where
  pub ident : ℕ
  pub username : String
  pub display_name : String
  pub password_hash : String
  pub role : UserRole
  pub is_active : Bool
  pub failed_login_count : ℕ
  pub locked_until : Option ℕ
  pub last_login_at : Option ℕ
  pub password_changed_at : ℕ
  pub updated_at : ℕ

-- sessions, without the address of the client
pub record SessionRow : Type 0 where
  pub token_hash : String
  pub csrf_token_hash : String
  pub user_id : ℕ
  pub created_at : ℕ
  pub last_seen_at : ℕ
  pub expires_at : ℕ
  pub user_agent : String

-- An audit event, without its details.
pub record AccountEvent : Type 0 where
  pub actor : Option ℕ
  pub action : String
  pub entity_id : String

pub record Accounts : Type 0 where
  pub users : List UserRow
  pub sessions : List SessionRow
  pub audit : List AccountEvent

pub data IdentityError : Type 0 where
  name_blank name_too_long username_taken limit_not_positive unknown_user : IdentityError
  credentials_changed token_taken own_access last_administrator : IdentityError
