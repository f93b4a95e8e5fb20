-- ===== src/ApiKeys/Controller.antt =====
-- src/modules/api-keys/api-keys.controller.ts: the endpoints, for a workspace and a user. A reply's
-- body is left out here.
use api_wa_automation.Orm.{Orm}
use api_wa_automation.Encryption.{Crypto}
use api_wa_automation.Data.Tenancy.{Key}
use api_wa_automation.World.{Action, Ambient, discard}
use api_wa_automation.ApiKeys
use api_wa_automation.ApiKeys.{CreateApiKeyDto}

pub data Request : Type 0 where
  find_all : Request
  create : CreateApiKeyDto → Request
  remove : Key → Request

module _ ⦃orm : Orm⦄ ⦃c : Crypto⦄ where
  unfoldable pub handle : Ambient → Key → Key → Request → Action (Unit {0})
  handle here ws uid find_all = discard (ApiKeys.find_all ws uid)
  handle here ws uid (create dto) = discard (ApiKeys.create here.random ws uid dto)
  handle here ws uid (remove id) = ApiKeys.remove id ws uid
