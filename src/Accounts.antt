-- ===== src/Accounts.antt =====
-- The requests that write users, workspaces and memberships: src/modules/auth/auth.controller.ts,
-- src/modules/users/users.controller.ts and src/modules/workspaces/workspaces.controller.ts, one
-- after the other, as steps from a state to the next.
pub mod Integrity
pub mod UserWrites
pub mod WorkspaceWrites
pub mod Steps
pub mod Orphans
use api_wa_automation.Base.{ℕ, ◌≡◌, Option, List, []}
use api_wa_automation.Base.Text.{Text}
use api_wa_automation.Value.{Js}
use api_wa_automation.Orm.{Orm}
use api_wa_automation.Encryption.{Crypto}
use api_wa_automation.Data.Tenancy.{Key}
use api_wa_automation.World.{World, Ambient, Action, ok, discard}
use api_wa_automation.Users
use api_wa_automation.Users.{Bcrypt, NewUser, ChangePasswordDto}
use api_wa_automation.Auth
use api_wa_automation.Auth.Interface.{Jwt, Cache}
use api_wa_automation.Auth.{JwtConfig, LoginDto, AuthUser, authenticate}
use api_wa_automation.Workspaces.{CreateWorkspaceDto}
use api_wa_automation.Workspaces.Controller as WorkspacesController

-- The routes that a user's token is not asked for.
pub data PublicRequest : Type 0 where
  register : NewUser → PublicRequest
  login : LoginDto → PublicRequest
  refresh : Option Text → PublicRequest

-- The routes of a user, who is that of the token; `workspace` are those for one workspace.
pub data UserRequest : Type 0 where
  logout me : UserRequest
  update : Option Text → UserRequest
  change_password : ChangePasswordDto → UserRequest
  remove : UserRequest
  find_workspaces : UserRequest
  create_workspace : CreateWorkspaceDto → UserRequest
  workspace : Key → WorkspacesController.Request → UserRequest

module _ ⦃orm : Orm⦄ ⦃js : Js⦄ ⦃c : Crypto⦄ ⦃bcrypt : Bcrypt⦄ ⦃jwt : Jwt⦄ ⦃cache : Cache⦄
    (enc_key : Text) (config : JwtConfig) where
  unfoldable pub handle_public : Ambient → PublicRequest → Action (Unit {0})
  handle_public here (register dto) = discard (Auth.register config here.now here.random dto)
  handle_public here (login dto) = discard (Auth.login config here.now dto)
  handle_public here (refresh body) = discard (Auth.refresh_route config here.now body)

  unfoldable pub handle : Ambient → Key → UserRequest → Action (Unit {0})
  handle here uid logout = Auth.logout config uid
  handle here uid me = discard (Users.find_by_id uid)
  handle here uid (update name) = discard (Users.update uid name)
  handle here uid (change_password dto) = Users.change_password here.random uid dto
  handle here uid remove = Users.remove uid
  handle here uid find_workspaces = WorkspacesController.find_all enc_key uid
  handle here uid (create_workspace dto) = WorkspacesController.create enc_key here uid dto
  handle here uid (workspace id r) = WorkspacesController.handle enc_key here id uid r

  -- One request, served to its end before the next.
  pub data Step : World → World → Type 0 where
    public : (here : Ambient) (r : PublicRequest) (w : World) → Step w (handle_public here r w).1
    private :
        (here : Ambient) (token : Option Text) (user : AuthUser) (r : UserRequest) (w : World)
        → authenticate config here.now token w ≡ ok user
        → Step w (handle here user.id r w).1

  -- The states that requests lead to from tables without users, workspaces and memberships.
  pub data IsReachable : World → Type 0 where
    start : (w : World) → w.users ≡ [] → w.workspaces ≡ [] → w.members ≡ [] → IsReachable w
    next : (v w : World) → IsReachable v → Step v w → IsReachable w
