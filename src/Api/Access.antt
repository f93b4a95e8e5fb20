-- ===== src/Api/Access.antt =====
-- Who a request of the workspaces' endpoints is served for.
use api_wa_automation.Base.{
  ◌/◌, true, ◌≡◌, ◌∙◌, ◌⊎◌, inl, inr, Option, some, [], ◌∷◌, Has, Option-cases, arith,
}
use api_wa_automation.Base.Text.{Text}
use api_wa_automation.Value.{Js}
use api_wa_automation.Orm.{Orm}
use api_wa_automation.Encryption.{Crypto}
use api_wa_automation.Openwa.{Server}
use api_wa_automation.Data.Accounts.{User}
use api_wa_automation.Data.Tenancy.{Key, WorkspaceMember, owner}
use api_wa_automation.World.{World, Action, Ambient, Exception, err, forbidden}
use api_wa_automation.Auth.Interface.{Jwt, JwtPayload}
use api_wa_automation.Auth.{JwtConfig}
use api_wa_automation.Auth.Tokens.{authenticate_sound}
use api_wa_automation.Workspaces
use api_wa_automation.Workspaces.{is_membership, managers}
use api_wa_automation.Workspaces.Access.{IsOutsider, assert_member_outsider, assert_role_outsider}
use api_wa_automation.Sessions
use api_wa_automation.Contacts.Tenants
use api_wa_automation.Messages
use api_wa_automation.Broadcasts
use api_wa_automation.Broadcasts.Queries
use api_wa_automation.Automations.Service
use api_wa_automation.Webhooks
use api_wa_automation.ApiKeys
use api_wa_automation.Workspaces.Controller as WorkspacesController
use api_wa_automation.Sessions.Controller as SessionsController
use api_wa_automation.Messages.Controller as MessagesController
use api_wa_automation.Broadcasts.Controller as BroadcastsController
use api_wa_automation.Automations.Controller as AutomationsController
use api_wa_automation.Webhooks.Controller as WebhooksController
use api_wa_automation.ApiKeys.Controller as ApiKeysController
use api_wa_automation.Api.{Request, handle, serve}

-- An action that refuses the user and changes nothing.
abbrev pub IsRefused : Action (Unit {0}) → World → Type 0
IsRefused m w = m w ≡ (err (forbidden "You are not a member of this workspace"), w)

module _ ⦃orm : Orm⦄ (here : Ambient) (ws uid : Key) (w : World) (h : IsOutsider ws uid w) where
  messages_outsider :
      (r : MessagesController.Request) → IsRefused (MessagesController.handle ws uid r) w
  unfolding MessagesController.handle Messages.send Messages.send_bulk
  messages_outsider (MessagesController.send dto) =
      ground (arith, assert_member_outsider ws uid w h)
  messages_outsider (MessagesController.send_bulk dto) =
      ground (arith, assert_member_outsider ws uid w h)

  broadcasts_outsider :
      (r : BroadcastsController.Request) → IsRefused (BroadcastsController.handle here ws uid r) w
  unfolding BroadcastsController.handle Queries.find_all Queries.status Queries.report
      Broadcasts.create Broadcasts.find_one Broadcasts.find_managed Broadcasts.update
      Broadcasts.remove Broadcasts.send Broadcasts.cancel
  broadcasts_outsider (BroadcastsController.create dto) =
      ground (arith, assert_role_outsider ws uid managers w h)
  broadcasts_outsider _ =
      ground (arith, assert_member_outsider ws uid w h, assert_role_outsider ws uid managers w h)

  automations_outsider :
      (r : AutomationsController.Request) → IsRefused (AutomationsController.handle here ws uid r) w
  unfolding AutomationsController.handle Service.find_all Service.create Service.find_one
      Service.find_managed Service.update Service.remove Service.set_active Service.test
  automations_outsider (AutomationsController.create dto) =
      ground (arith, assert_role_outsider ws uid managers w h)
  automations_outsider _ =
      ground (arith, assert_member_outsider ws uid w h, assert_role_outsider ws uid managers w h)

  webhooks_outsider :
      (r : WebhooksController.Request) → IsRefused (WebhooksController.handle here ws uid r) w
  unfolding WebhooksController.handle Webhooks.find_all Webhooks.create Webhooks.find_one
      Webhooks.find_managed Webhooks.update Webhooks.remove Webhooks.test
  webhooks_outsider (WebhooksController.create dto) =
      ground (arith, assert_role_outsider ws uid managers w h)
  webhooks_outsider _ =
      ground (arith, assert_member_outsider ws uid w h, assert_role_outsider ws uid managers w h)

  module _ ⦃c : Crypto⦄ where
    api_keys_outsider :
        (r : ApiKeysController.Request) → IsRefused (ApiKeysController.handle here ws uid r) w
    unfolding ApiKeysController.handle ApiKeys.find_all ApiKeys.create ApiKeys.remove
    api_keys_outsider (ApiKeysController.create dto) =
        ground (arith, assert_role_outsider ws uid managers w h)
    api_keys_outsider _ =
        ground (arith, assert_member_outsider ws uid w h, assert_role_outsider ws uid managers w h)

    workspaces_outsider :
        ⦃js : Js⦄ (enc_key : Text) (r : WorkspacesController.Request)
        → IsRefused (WorkspacesController.handle enc_key here ws uid r) w
    unfolding WorkspacesController.handle Workspaces.find_one Workspaces.update Workspaces.remove
        Workspaces.list_members Workspaces.invite Workspaces.remove_member
    workspaces_outsider enc_key WorkspacesController.remove =
        ground (arith, assert_role_outsider ws uid (owner ∷ []) w h)
    workspaces_outsider enc_key _ =
        ground (arith, assert_member_outsider ws uid w h, assert_role_outsider ws uid managers w h)

    sessions_outsider :
        ⦃server : Server⦄ (enc_key : Text) (r : SessionsController.Request)
        → IsRefused (SessionsController.handle enc_key here ws uid r) w
    unfolding SessionsController.handle Sessions.find_all Sessions.create Sessions.find_one
        Sessions.update Sessions.get_qr Sessions.start Sessions.stop Sessions.get_status
        Sessions.remove
    sessions_outsider enc_key (SessionsController.create dto) =
        ground (arith, assert_role_outsider ws uid managers w h)
    sessions_outsider enc_key _ =
        ground (arith, assert_member_outsider ws uid w h, assert_role_outsider ws uid managers w h)

module _ ⦃orm : Orm⦄ ⦃js : Js⦄ ⦃c : Crypto⦄ ⦃server : Server⦄ (enc_key : Text) where
  -- A user who is not a member of a workspace is refused every request for it, and nothing changes.
  pub handle-outsider :
      (here : Ambient) (ws uid : Key) (r : Request) (w : World)
      → IsOutsider ws uid w
      → IsRefused (handle enc_key here ws uid r) w
  unfolding handle
  handle-outsider here ws uid (Request.workspaces r) w h =
      workspaces_outsider here ws uid w h enc_key r
  handle-outsider here ws uid (Request.sessions r) w h = sessions_outsider here ws uid w h enc_key r
  handle-outsider here ws uid (Request.contacts r) w h = Tenants.handle-outsider ws uid r w h
  handle-outsider here ws uid (Request.messages r) w h = messages_outsider here ws uid w h r
  handle-outsider here ws uid (Request.broadcasts r) w h = broadcasts_outsider here ws uid w h r
  handle-outsider here ws uid (Request.automations r) w h = automations_outsider here ws uid w h r
  handle-outsider here ws uid (Request.webhooks r) w h = webhooks_outsider here ws uid w h r
  handle-outsider here ws uid (Request.api_keys r) w h = api_keys_outsider here ws uid w h r

module _ ⦃orm : Orm⦄ ⦃js : Js⦄ ⦃c : Crypto⦄ ⦃server : Server⦄ ⦃jwt : Jwt⦄ (enc_key : Text)
    (config : JwtConfig) where
  -- A request for a workspace is refused, and nothing changes, unless its bearer token verifies, its
  -- user is an active one of the table, and that user is a member of the workspace. It is then served as
  -- that user's.
  pub serve-authorised :
      (here : Ambient) (token : Option Text) (ws : Key) (r : Request) (w : World)
      → ((e : Exception) × (serve enc_key config here token ws r w ≡ (err e, w)))
        ⊎ ((t : Text) × (payload : JwtPayload) × (u : User) × (m : WorkspaceMember) × (token
              ≡ some t)
            × (jwt.verify config.secret (here.now / 1000) t ≡ some payload)
            × (Has u w.users × (u.id ≡ payload.sub) × (u.is_active ≡ true))
            × (Has m w.members × (m.workspace_id ≡ ws) × (m.user_id ≡ u.id))
            × (serve enc_key config here token ws r w ≡ handle enc_key here ws u.id r w))
  unfolding serve
  serve-authorised here token ws r w = elim (authenticate_sound config here.now token w) [
    | inl (e, refused) ↦ inl (e, ground arith)
    | inr (t, payload, u, given, verified, row, its, active, passed) ↦
        let served : serve enc_key config here token ws r w ≡ handle enc_key here ws u.id r w =
          ground arith in
        let p = is_membership ws u.id in
        elim (Option-cases (orm.find_one p w.members)) [
          | inl none_there ↦ inl (
            forbidden "You are not a member of this workspace",
            served
                ∙ handle-outsider enc_key here ws u.id r w
                    (orm.find_one_absent p w.members none_there),
          )
          | inr (m, there) ↦
              let member = orm.find_one_test p w.members m there in
              inr (
                t,
                payload,
                u,
                m,
                given,
                verified,
                (row, its, active),
                (orm.find_one_has p w.members m there, ground arith, ground arith),
                served,
              )
        ]
  ]
