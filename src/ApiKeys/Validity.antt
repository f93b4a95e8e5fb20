-- ===== src/ApiKeys/Validity.antt =====
-- Which keys `validate` of api-keys.service.ts accepts.
use api_wa_automation.Base.{
  ℕ, true, false, ◌≡◌, ap, ◌∙◌, inl, inr, none, some, List, Has, Option-cases, arith,
}
use api_wa_automation.Base.Text.{Text, text_eq_refl, text_eq-eq}
use api_wa_automation.Orm.{Orm}
use api_wa_automation.Orm.Laws.{by}
use api_wa_automation.Encryption.{Crypto, sha256}
use api_wa_automation.Data.Tenancy.{Key, WorkspaceMember}
use api_wa_automation.Data.Accounts.{ApiKey}
use api_wa_automation.World.{World, ok}
use api_wa_automation.Workspaces.{managers, assert_role}
use api_wa_automation.ApiKeys.{
  CreateApiKeyDto, raw_key, has_hash, is_expired, save_api_key, create, validate, take,
}

module _ ⦃orm : Orm⦄ ⦃c : Crypto⦄ where
  -- A row saved among rows that lack its hash is the one found by it.
  api_key-saved :
      (k : ApiKey) (t : List ApiKey)
      → ((y : ApiKey) → Has y t → has_hash k.key_hash y ≡ false)
      → orm.find_one (has_hash k.key_hash) (orm.save (by ApiKey.id) k t) ≡ some k
  api_key-saved k t fresh =
      elim (Option-cases (orm.find_one (has_hash k.key_hash) (orm.save (by ApiKey.id) k t))) [
        | inl e ↦
            let lost =
              orm.find_one_absent (has_hash k.key_hash) (orm.save (by ApiKey.id) k t) e k
                (orm.save_self (by ApiKey.id) k t) in
            let own = text_eq_refl k.key_hash in absurd (cc)
        | inr (y, e) ↦
            let test = orm.find_one_test (has_hash k.key_hash) (orm.save (by ApiKey.id) k t) y e in
            elim (orm.save_has (by ApiKey.id) k t y
              (orm.find_one_has (has_hash k.key_hash) (orm.save (by ApiKey.id) k t) y e)) [
                | inl same ↦ e ∙ ap some same
                | inr (old, _) ↦ let no = fresh y old in absurd (cc)
              ]
      ]

  -- A new key is accepted for its workspace until it expires, if no stored key has its hash.
  pub create-validate :
      (now : ℕ) (token : Text) (workspace_id user_id : Key) (dto : CreateApiKeyDto)
      (m : WorkspaceMember) (w : World)
      → assert_role workspace_id user_id managers w ≡ (ok m, w)
      → ((y : ApiKey) → Has y w.api_keys → has_hash (sha256 (raw_key token)) y ≡ false)
      → is_expired now dto.expires_at ≡ false
      → let (r, w') = create token workspace_id user_id dto w in
        (k : ApiKey) × (raw : Text) × (r ≡ ok (k, raw))
        × ((validate now raw w').0 ≡ ok (some workspace_id))
  unfolding create validate save_api_key
  create-validate now token workspace_id user_id dto m w allowed fresh live =
      let k : ApiKey = record {
        id = orm.new_key ApiKey.id w.api_keys;
        workspace_id = workspace_id;
        name = dto.name;
        key_hash = sha256 (raw_key token);
        key_prefix = take 10 (raw_key token);
        is_active = true;
        last_used_at = none;
        expires_at = dto.expires_at;
      } in
      (k, raw_key token, ground arith, ground (arith, api_key-saved k w.api_keys fresh))

  -- A key is accepted only for the workspace of a stored row that has the key's hash, is active and
  -- has not expired.
  pub validate_sound :
      (now : ℕ) (raw : Text) (workspace_id : Key) (w : World)
      → (validate now raw w).0 ≡ ok (some workspace_id)
      → (k : ApiKey) × Has k w.api_keys
        × (k.key_hash ≡ sha256 raw)
        × (k.workspace_id ≡ workspace_id)
        × (k.is_active ≡ true)
        × (is_expired now k.expires_at ≡ false)
  unfolding validate save_api_key
  validate_sound now raw workspace_id w h =
      elim (Option-cases (orm.find_one (has_hash (sha256 raw)) w.api_keys)) [
        | inl e ↦ absurd (ground arith)
        | inr (k, e) ↦ (
          k,
          orm.find_one_has (has_hash (sha256 raw)) w.api_keys k e,
          text_eq-eq k.key_hash (sha256 raw)
              (orm.find_one_test (has_hash (sha256 raw)) w.api_keys k e),
          ground arith,
          ground arith,
          ground arith,
        )
      ]
