-- ===== src/Broadcasts/Controller.antt =====
-- src/modules/broadcasts/broadcasts.controller.ts: the endpoints, for a user and the
-- workspace that the request names, as in Contacts.Controller. A
-- reply's body is left out here.
use api_wa_automation.Orm.{Orm}
use api_wa_automation.Data.Tenancy.{Key}
use api_wa_automation.World.{Action, Ambient, discard}
use api_wa_automation.Broadcasts
use api_wa_automation.Broadcasts.{CreateBroadcastDto, UpdateBroadcastDto}
use api_wa_automation.Broadcasts.Queries

pub data Request : Type 0 where
  find_all : Request
  create : CreateBroadcastDto → Request
  find_one : Key → Request
  update : Key → UpdateBroadcastDto → Request
  remove send cancel status report : Key → Request

module _ ⦃orm : Orm⦄ where
  unfoldable pub handle : Ambient → Key → Key → Request → Action (Unit {0})
  handle here ws uid find_all = discard (Queries.find_all ws uid)
  handle here ws uid (create dto) = discard (Broadcasts.create ws uid dto)
  handle here ws uid (find_one id) = discard (Broadcasts.find_one id ws uid)
  handle here ws uid (update id dto) = discard (Broadcasts.update id ws uid dto)
  handle here ws uid (remove id) = Broadcasts.remove id ws uid
  handle here ws uid (send id) = discard (Broadcasts.send here.now id ws uid)
  handle here ws uid (cancel id) = Broadcasts.cancel id ws uid
  handle here ws uid (status id) = discard (Queries.status id ws uid)
  handle here ws uid (report id) = discard (Queries.report id ws uid)
