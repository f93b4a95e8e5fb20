-- ===== src/Sessions/Controller.antt =====
-- src/modules/sessions/sessions.controller.ts: the endpoints, for a workspace and a user. A reply's
-- body is left out here.
use api_wa_automation.Base.Text.{Text}
use api_wa_automation.Orm.{Orm}
use api_wa_automation.Encryption.{Crypto}
use api_wa_automation.Openwa.{Server}
use api_wa_automation.Data.Tenancy.{Key}
use api_wa_automation.World.{Action, Ambient, discard}
use api_wa_automation.Sessions
use api_wa_automation.Sessions.{CreateSessionDto, UpdateSessionDto}

pub data Request : Type 0 where
  find_all : Request
  create : CreateSessionDto → Request
  find_one : Key → Request
  update : Key → UpdateSessionDto → Request
  qr start stop status remove : Key → Request

module _ ⦃orm : Orm⦄ ⦃c : Crypto⦄ ⦃server : Server⦄ (enc_key : Text) where
  unfoldable pub handle : Ambient → Key → Key → Request → Action (Unit {0})
  handle here ws uid find_all = discard (Sessions.find_all ws uid)
  handle here ws uid (create dto) = discard (Sessions.create here.random ws uid dto)
  handle here ws uid (find_one id) = discard (Sessions.find_one id ws uid)
  handle here ws uid (update id dto) = discard (Sessions.update id ws uid dto)
  handle here ws uid (qr id) = discard (Sessions.get_qr enc_key id ws uid)
  handle here ws uid (start id) = discard (Sessions.start enc_key here.now id ws uid)
  handle here ws uid (stop id) = discard (Sessions.stop enc_key here.now id ws uid)
  handle here ws uid (status id) = discard (Sessions.get_status enc_key here.now id ws uid)
  handle here ws uid (remove id) = Sessions.remove enc_key id ws uid
