-- ===== src/Api/Roles.antt =====
-- Which requests of the workspaces' endpoints only an owner or an admin may make.
use api_wa_automation.Base.{Bool, true, false, ◌≡◌, inl, inr, [], ◌∷◌, Has, any, arith}
use api_wa_automation.Base.Text.{Text}
use api_wa_automation.Value.{Js}
use api_wa_automation.Orm.{Orm}
use api_wa_automation.Encryption.{Crypto}
use api_wa_automation.Openwa.{Server}
use api_wa_automation.Data.Tenancy.{Key, WorkspaceMember, owner, role_eq}
use api_wa_automation.World.{World, Action, Ambient, Exception, err, forbidden}
use api_wa_automation.Workspaces
use api_wa_automation.Workspaces.{managers, is_membership, assert_role}
use api_wa_automation.Workspaces.Access.{assert_role_sound}
use api_wa_automation.Sessions
use api_wa_automation.Broadcasts
use api_wa_automation.Automations.Service
use api_wa_automation.Webhooks
use api_wa_automation.ApiKeys
use api_wa_automation.Workspaces.Controller as WorkspacesController
use api_wa_automation.Sessions.Controller as SessionsController
use api_wa_automation.Broadcasts.Controller as BroadcastsController
use api_wa_automation.Automations.Controller as AutomationsController
use api_wa_automation.Webhooks.Controller as WebhooksController
use api_wa_automation.ApiKeys.Controller as ApiKeysController
use api_wa_automation.Api.{Request, handle}

-- The requests for managers: those that configure a workspace, its members and keys, its sessions,
-- broadcasts, automations and webhooks.
abbrev pub is_managing : Request → Bool
is_managing (Request.workspaces WorkspacesController.find_one) = false
is_managing (Request.workspaces WorkspacesController.list_members) = false
is_managing (Request.workspaces _) = true
is_managing (Request.sessions (SessionsController.create dto)) = true
is_managing (Request.sessions (SessionsController.remove id)) = true
is_managing (Request.broadcasts (BroadcastsController.create dto)) = true
is_managing (Request.broadcasts (BroadcastsController.update id dto)) = true
is_managing (Request.broadcasts (BroadcastsController.remove id)) = true
is_managing (Request.broadcasts (BroadcastsController.send id)) = true
is_managing (Request.broadcasts (BroadcastsController.cancel id)) = true
is_managing (Request.automations (AutomationsController.create dto)) = true
is_managing (Request.automations (AutomationsController.update id dto)) = true
is_managing (Request.automations (AutomationsController.remove id)) = true
is_managing (Request.automations (AutomationsController.enable id)) = true
is_managing (Request.automations (AutomationsController.disable id)) = true
is_managing (Request.webhooks (WebhooksController.create dto)) = true
is_managing (Request.webhooks (WebhooksController.update id dto)) = true
is_managing (Request.webhooks (WebhooksController.remove id)) = true
is_managing (Request.api_keys (ApiKeysController.create dto)) = true
is_managing (Request.api_keys (ApiKeysController.remove id)) = true
is_managing _ = false

-- No membership of the user in the workspace is an owner's or an admin's.
abbrev pub IsUnmanaging : Key → Key → World → Type 0
IsUnmanaging ws uid w =
    (m : WorkspaceMember)
    → Has m w.members
    → m.workspace_id ≡ ws
    → m.user_id ≡ uid
    → any (role_eq m.role) managers ≡ false

-- An action that is refused and changes nothing.
abbrev IsRefused : Action (Unit {0}) → World → Type 0
IsRefused m w = (e : Exception) × (m w ≡ (err e, w))

module _ ⦃orm : Orm⦄ (ws uid : Key) (w : World) (h : IsUnmanaging ws uid w) where
  assert_role_unmanaging : (e : Exception) × (assert_role ws uid managers w ≡ (err e, w))
  assert_role_unmanaging = elim (assert_role_sound ws uid managers w) [
    | inl (m, _, (row, here, its, allowed)) ↦ let denied = h m row here its in absurd (cc)
    | inr (reason, refused) ↦ (forbidden reason, refused)
  ]

  -- The owner is one of the managers.
  assert_owner_unmanaging : (e : Exception) × (assert_role ws uid (owner ∷ []) w ≡ (err e, w))
  assert_owner_unmanaging = elim (assert_role_sound ws uid (owner ∷ []) w) [
    | inl (m, _, (row, here, its, allowed)) ↦ let denied = h m row here its in absurd (ground arith)
    | inr (reason, refused) ↦ (forbidden reason, refused)
  ]

module _ ⦃orm : Orm⦄ ⦃js : Js⦄ ⦃c : Crypto⦄ ⦃server : Server⦄ (enc_key : Text) where
  -- A user without an owner's or an admin's membership of the workspace is refused every request that
  -- is for managers, and nothing changes.
  pub handle-unmanaging :
      (here : Ambient) (ws uid : Key) (r : Request) (w : World)
      → is_managing r ≡ true
      → IsUnmanaging ws uid w
      → (e : Exception) × (handle enc_key here ws uid r w ≡ (err e, w))
  unfolding handle WorkspacesController.handle SessionsController.handle BroadcastsController.handle
      AutomationsController.handle WebhooksController.handle ApiKeysController.handle
      Workspaces.update Workspaces.remove Workspaces.invite Workspaces.remove_member Sessions.create
      Sessions.remove Broadcasts.create Broadcasts.update Broadcasts.remove Broadcasts.send
      Broadcasts.cancel Broadcasts.find_managed Service.create Service.update Service.remove
      Service.set_active Service.find_managed Webhooks.create Webhooks.update Webhooks.remove
      Webhooks.find_managed ApiKeys.create ApiKeys.remove
  handle-unmanaging here ws uid (Request.workspaces WorkspacesController.remove) w only h =
      let (e, refused) = assert_owner_unmanaging ws uid w h in (e, ground arith)
  handle-unmanaging here ws uid (Request.workspaces r) w only h =
      let (e, refused) = assert_role_unmanaging ws uid w h in (e, ground arith)
  handle-unmanaging here ws uid r w only h =
      let (e, refused) = assert_role_unmanaging ws uid w h in (e, ground arith)
