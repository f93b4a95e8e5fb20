-- ===== src/Webhooks/Controller.antt =====
-- src/modules/webhooks/webhooks.controller.ts: the endpoints, for a workspace and a user, but for
-- `logs`. A reply's body is left out here.
use api_wa_automation.Orm.{Orm}
use api_wa_automation.Data.Tenancy.{Key}
use api_wa_automation.World.{Action, Ambient, discard}
use api_wa_automation.Webhooks
use api_wa_automation.Webhooks.{CreateWebhookDto, UpdateWebhookDto}

pub data Request : Type 0 where
  find_all : Request
  create : CreateWebhookDto → Request
  find_one : Key → Request
  update : Key → UpdateWebhookDto → Request
  remove test : Key → Request

module _ ⦃orm : Orm⦄ where
  unfoldable pub handle : Ambient → Key → Key → Request → Action (Unit {0})
  handle here ws uid find_all = discard (Webhooks.find_all ws uid)
  handle here ws uid (create dto) = discard (Webhooks.create ws uid dto)
  handle here ws uid (find_one id) = discard (Webhooks.find_one id ws uid)
  handle here ws uid (update id dto) = discard (Webhooks.update id ws uid dto)
  handle here ws uid (remove id) = Webhooks.remove id ws uid
  handle here ws uid (test id) = Webhooks.test here.timestamp id ws uid
