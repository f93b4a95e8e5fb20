-- ===== src/Data/Accounts.antt =====
-- Entities of src/modules/users and src/modules/api-keys.
use api_wa_automation.Base.{ℕ, Bool, Option, ◌==◌}
use api_wa_automation.Base.Text.{Text}
use api_wa_automation.Data.Tenancy.{Key}

-- `password` is the bcrypt hash.
pub record User : Type 0 where
  pub id : Key
  pub name : Text
  pub email : Text
  pub password : Text
  pub is_active : Bool

pub record ApiKey : Type 0 where
  pub id : Key
  pub workspace_id : Key
  pub name : Text
  pub key_hash : Text
  pub key_prefix : Text
  pub is_active : Bool
  pub last_used_at : Option ℕ
  pub expires_at : Option ℕ

abbrev pub same_user : User → User → Bool
same_user a b = a.id == b.id

abbrev pub same_api_key : ApiKey → ApiKey → Bool
same_api_key a b = a.id == b.id

-- An entry of the cache: a value under the key of a user, until a time.
pub record CacheEntry : Type 0 where
  pub key : Key
  pub value : Text
  pub until : ℕ
