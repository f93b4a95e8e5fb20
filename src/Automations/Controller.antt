-- ===== src/Automations/Controller.antt =====
-- src/modules/automations/automations.controller.ts: the endpoints, for a workspace and a user. A
-- reply's body is left out here.
use api_wa_automation.Base.{true, false}
use api_wa_automation.Value.{Props}
use api_wa_automation.Orm.{Orm}
use api_wa_automation.Data.Tenancy.{Key}
use api_wa_automation.World.{Action, Ambient, discard}
use api_wa_automation.Automations.Service
use api_wa_automation.Automations.Service.{CreateAutomationDto, UpdateAutomationDto}

pub data Request : Type 0 where
  find_all : Request
  create : CreateAutomationDto → Request
  find_one : Key → Request
  update : Key → UpdateAutomationDto → Request
  remove enable disable : Key → Request
  test : Key → Props → Request

module _ ⦃orm : Orm⦄ where
  unfoldable pub handle : Ambient → Key → Key → Request → Action (Unit {0})
  handle here ws uid find_all = discard (Service.find_all ws uid)
  handle here ws uid (create dto) = discard (Service.create here.random ws uid dto)
  handle here ws uid (find_one id) = discard (Service.find_one id ws uid)
  handle here ws uid (update id dto) = discard (Service.update id ws uid dto)
  handle here ws uid (remove id) = Service.remove id ws uid
  handle here ws uid (enable id) = discard (Service.set_active id ws uid true)
  handle here ws uid (disable id) = discard (Service.set_active id ws uid false)
  handle here ws uid (test id body) = Service.test here.now id ws uid body
