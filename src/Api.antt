-- ===== src/Api.antt =====
-- The endpoints that act on a workspace, behind the guard `jwt` (src/common/guards/jwt.guard.ts,
-- which src/app.module.ts puts before every route): the controllers of src/modules, each by its own
-- requests. The workspace is the one that the header `x-workspace-id` names, or the path.
pub mod Access
pub mod Roles
use api_wa_automation.Base.{Option, none, some}
use api_wa_automation.Base.Text.{Text}
use api_wa_automation.Value.{Js}
use api_wa_automation.Orm.{Orm}
use api_wa_automation.Encryption.{Crypto}
use api_wa_automation.Openwa.{Server}
use api_wa_automation.Data.Tenancy.{Key}
use api_wa_automation.World.{Action, Ambient, Result, ok, err, throw}
use api_wa_automation.Auth.Interface.{Jwt}
use api_wa_automation.Auth.{JwtConfig, AuthUser, authenticate}
use api_wa_automation.Workspaces.Controller as WorkspacesController
use api_wa_automation.Sessions.Controller as SessionsController
use api_wa_automation.Contacts.Controller as ContactsController
use api_wa_automation.Messages.Controller as MessagesController
use api_wa_automation.Broadcasts.Controller as BroadcastsController
use api_wa_automation.Automations.Controller as AutomationsController
use api_wa_automation.Webhooks.Controller as WebhooksController
use api_wa_automation.ApiKeys.Controller as ApiKeysController

pub data Request : Type 0 where
  workspaces : WorkspacesController.Request → Request
  sessions : SessionsController.Request → Request
  contacts : ContactsController.Request → Request
  messages : MessagesController.Request → Request
  broadcasts : BroadcastsController.Request → Request
  automations : AutomationsController.Request → Request
  webhooks : WebhooksController.Request → Request
  api_keys : ApiKeysController.Request → Request

module _ ⦃orm : Orm⦄ ⦃js : Js⦄ ⦃c : Crypto⦄ ⦃server : Server⦄ (enc_key : Text) where
  unfoldable pub handle : Ambient → Key → Key → Request → Action (Unit {0})
  handle here ws uid (workspaces r) = WorkspacesController.handle enc_key here ws uid r
  handle here ws uid (sessions r) = SessionsController.handle enc_key here ws uid r
  handle here ws uid (contacts r) = ContactsController.handle ws uid r
  handle here ws uid (messages r) = MessagesController.handle ws uid r
  handle here ws uid (broadcasts r) = BroadcastsController.handle here ws uid r
  handle here ws uid (automations r) = AutomationsController.handle here ws uid r
  handle here ws uid (webhooks r) = WebhooksController.handle here ws uid r
  handle here ws uid (api_keys r) = ApiKeysController.handle here ws uid r

module _ ⦃orm : Orm⦄ ⦃js : Js⦄ ⦃c : Crypto⦄ ⦃server : Server⦄ ⦃jwt : Jwt⦄ (enc_key : Text)
    (config : JwtConfig) where
  abbrev pub handle_as : Ambient → Key → Request → Result AuthUser → Action (Unit {0})
  handle_as here ws r (ok user) = handle enc_key here ws user.id r
  handle_as here ws r (err e) = throw e

  -- A request with the bearer token that it has, if any.
  unfoldable pub serve : Ambient → Option Text → Key → Request → Action (Unit {0})
  serve here token ws r w = handle_as here ws r (authenticate config here.now token w) w
