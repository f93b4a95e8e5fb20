-- ===== src/Tests/Keys.antt =====
-- The theorems on API keys, applied to the small state.
use api_wa_automation.Base.{true, false, ◌≡◌, refl, none, some, [], ◌∷◌, Has}
use api_wa_automation.Base.Text.{Text, codes}
use api_wa_automation.Orm.Lists.{list_orm}
use api_wa_automation.Encryption.{sha256}
use api_wa_automation.Data.Accounts.{ApiKey}
use api_wa_automation.Data.Campaign.{draft}
use api_wa_automation.World.{World, ok}
use api_wa_automation.Workspaces.{managers, assert_member, assert_role}
use api_wa_automation.ApiKeys.{CreateApiKeyDto, create, validate, is_expired, raw_key, save_api_key}
use api_wa_automation.ApiKeys.Validity.{create-validate, validate_sound}
use api_wa_automation.Tests.{plain_crypto, shop_admin, small_world}

abbrev until_90 : CreateApiKeyDto
until_90 = record { name = codes "server"; expires_at = some 90 }

key_maker : assert_role 1 2 managers (small_world draft) ≡ (ok shop_admin, small_world draft)
unfolding assert_role assert_member
key_maker = refl

create-validate_example :
    let (r, w') = create (codes "ab") 1 2 until_90 (small_world draft) in
    (k : ApiKey) × (raw : Text) × (r ≡ ok (k, raw)) × ((validate 80 raw w').0 ≡ ok (some 1))
create-validate_example =
    create-validate 80 (codes "ab") 1 2 until_90 shop_admin (small_world draft) key_maker
      (λ y h. absurd h) refl

abbrev server_key : ApiKey
server_key = record {
  id = 1;
  workspace_id = 1;
  name = codes "server";
  key_hash = sha256 (raw_key (codes "ab"));
  key_prefix = codes "wa_ab";
  is_active = true;
  last_used_at = none;
  expires_at = some 90;
}

abbrev world_with_key : World
world_with_key = record (small_world draft) { api_keys = server_key ∷ [] }

key_accepted : (validate 80 (raw_key (codes "ab")) world_with_key).0 ≡ ok (some 1)
unfolding validate save_api_key sha256
key_accepted = refl

validate_sound_example :
    (k : ApiKey) × Has k (server_key ∷ [])
    × (k.key_hash ≡ sha256 (raw_key (codes "ab")))
    × (k.workspace_id ≡ 1)
    × (k.is_active ≡ true)
    × (is_expired 80 k.expires_at ≡ false)
validate_sound_example = validate_sound 80 (raw_key (codes "ab")) 1 world_with_key key_accepted
