-- ===== src/Workspaces/Controller.antt =====
-- src/modules/workspaces/workspaces.controller.ts: the endpoints, for a user. The workspace, where
-- there is one, is named by the path. A reply's body is left out here.
use api_wa_automation.Base.Text.{Text}
use api_wa_automation.Value.{Js}
use api_wa_automation.Orm.{Orm}
use api_wa_automation.Encryption.{Crypto}
use api_wa_automation.Data.Tenancy.{Key}
use api_wa_automation.World.{Action, Ambient, discard}
use api_wa_automation.Workspaces
use api_wa_automation.Workspaces.{CreateWorkspaceDto, UpdateWorkspaceDto, InviteMemberDto}

-- The requests for one workspace.
pub data Request : Type 0 where
  find_one : Request
  update : UpdateWorkspaceDto → Request
  remove : Request
  list_members : Request
  invite : InviteMemberDto → Request
  remove_member : Key → Request

module _ ⦃orm : Orm⦄ ⦃js : Js⦄ ⦃c : Crypto⦄ (enc_key : Text) where
  unfoldable pub find_all : Key → Action (Unit {0})
  find_all uid = discard (Workspaces.find_all_for_user uid)

  unfoldable pub create : Ambient → Key → CreateWorkspaceDto → Action (Unit {0})
  create here uid dto = discard (Workspaces.create enc_key here.random uid dto)

  unfoldable pub handle : Ambient → Key → Key → Request → Action (Unit {0})
  handle here id uid find_one = discard (Workspaces.find_one id uid)
  handle here id uid (update dto) = discard (Workspaces.update enc_key here.random id uid dto)
  handle here id uid remove = Workspaces.remove id uid
  handle here id uid list_members = discard (Workspaces.list_members id uid)
  handle here id uid (invite dto) = discard (Workspaces.invite id uid dto)
  handle here id uid (remove_member target) = Workspaces.remove_member id uid target
