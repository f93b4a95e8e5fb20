-- ===== src/Messages/Controller.antt =====
-- src/modules/messages/messages.controller.ts: the endpoints that send, for a workspace and a user. A
-- reply's body is left out here.
use api_wa_automation.Orm.{Orm}
use api_wa_automation.Data.Tenancy.{Key}
use api_wa_automation.World.{Action, discard}
use api_wa_automation.Messages
use api_wa_automation.Messages.{SendMessageDto, SendBulkDto}

pub data Request : Type 0 where
  send : SendMessageDto → Request
  send_bulk : SendBulkDto → Request

module _ ⦃orm : Orm⦄ where
  unfoldable pub handle : Key → Key → Request → Action (Unit {0})
  handle ws uid (send dto) = Messages.send ws uid dto
  handle ws uid (send_bulk dto) = discard (Messages.send_bulk ws uid dto)
