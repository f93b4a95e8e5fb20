-- ===== src/ApiKeys.antt =====
-- src/modules/api-keys/api-keys.service.ts: the keys by which programs call for a workspace. Only the
-- hash of a key is stored.
pub mod Validity
pub mod Controller
use api_wa_automation.Base.{
  ℕ, zero, suc, Bool, true, false, not, ◌&&◌, Option, none, some, List, [], ◌∷◌, ◌++◌, ◌==◌, ltb,
  if◌then◌else◌,
}
use api_wa_automation.Base.Text.{Text, codes, text_eq}
use api_wa_automation.Orm.{Orm}
use api_wa_automation.Orm.Laws.{by}
use api_wa_automation.Encryption.{Crypto, sha256}
use api_wa_automation.Data.Tenancy.{Key}
use api_wa_automation.Data.Accounts.{ApiKey}
use api_wa_automation.World.{World, Action, pure, gets, modify, or_throw, not_found, ◌>>=◌, ◌>>◌}
use api_wa_automation.Workspaces.{managers, assert_member, assert_role}

pub record CreateApiKeyDto : Type 0 where
  pub name : Text
  pub expires_at : Option ℕ

-- `slice(0, n)`
abbrev pub take : ℕ → Text → Text
take zero s = []
take (suc n) [] = []
take (suc n) (c ∷ s) = c ∷ take n s

abbrev pub is_api_key_of : Key → Key → ApiKey → Bool
is_api_key_of id workspace_id k = k.id == id && k.workspace_id == workspace_id

-- `where: { keyHash: hash }`
abbrev pub has_hash : Text → ApiKey → Bool
has_hash hash k = text_eq k.key_hash hash

-- `key.expiresAt && key.expiresAt.getTime() < now`
abbrev pub is_expired : ℕ → Option ℕ → Bool
is_expired now none = false
is_expired now (some expires_at) = ltb expires_at now

-- The key itself, from the random digits `token`.
abbrev pub raw_key : Text → Text
raw_key token = codes "wa_" ++ token

module _ ⦃orm : Orm⦄ ⦃c : Crypto⦄ where
  unfoldable pub save_api_key : ApiKey → Action ApiKey
  save_api_key k = do
    modify (λ w. record w { api_keys = orm.save (by ApiKey.id) k w.api_keys })
    pure k

  -- Returns the row and the key.
  unfoldable pub create : Text → Key → Key → CreateApiKeyDto → Action (ApiKey × Text)
  create token workspace_id user_id dto = do
    assert_role workspace_id user_id managers
    id ← gets (λ w. orm.new_key ApiKey.id w.api_keys)
    saved ← save_api_key (record {
      id = id;
      workspace_id = workspace_id;
      name = dto.name;
      key_hash = sha256 (raw_key token);
      key_prefix = take 10 (raw_key token);
      is_active = true;
      last_used_at = none;
      expires_at = dto.expires_at;
    })
    pure (saved, raw_key token)

  unfoldable pub find_all : Key → Key → Action (List ApiKey)
  find_all workspace_id user_id = do
    assert_member workspace_id user_id
    gets (λ w. orm.find (λ k. k.workspace_id == workspace_id) w.api_keys)

  unfoldable pub remove : Key → Key → Key → Action (Unit {0})
  remove id workspace_id user_id = do
    assert_role workspace_id user_id managers
    k ←
        or_throw (not_found "API key not found")
          (← gets (λ w. orm.find_one (is_api_key_of id workspace_id) w.api_keys))
    modify (λ w. record w { api_keys = orm.remove (by ApiKey.id) k w.api_keys })

  -- What `validate` makes of the row that it finds: the workspace, or `null`.
  abbrev pub accept : ℕ → Option ApiKey → Action (Option Key)
  accept now none = pure none
  accept now (some k) =
      if k.is_active && not (is_expired now k.expires_at)
      then save_api_key (record k { last_used_at = some now }) >> pure (some k.workspace_id)
      else pure none

  unfoldable pub validate : ℕ → Text → Action (Option Key)
  validate now raw = do
    found ← gets (λ w. orm.find_one (has_hash (sha256 raw)) w.api_keys)
    accept now found
