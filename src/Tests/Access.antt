-- ===== src/Tests/Access.antt =====
-- The theorems on who is served, applied to the small state with a user.
use api_wa_automation.Base.{
  ℕ, ◌/◌, true, ◌≡◌, refl, sym, ap, ◌∙◌, ◌⊎◌, inl, inr, some, [], ◌∷◌, Has, any,
}
use api_wa_automation.Base.Text.{Text, codes}
use api_wa_automation.Orm.Lists.{list_orm}
use api_wa_automation.Data.Accounts.{User}
use api_wa_automation.Data.Tenancy.{WorkspaceMember, member, role_eq}
use api_wa_automation.Workspaces.{managers}
use api_wa_automation.Data.Campaign.{draft}
use api_wa_automation.World.{World, Ambient, Exception, err, forbidden}
use api_wa_automation.Users
use api_wa_automation.Auth.Interface.{JwtPayload}
use api_wa_automation.Auth.Caches.{list_cache, plain_jwt}
use api_wa_automation.Sessions.Controller as SessionsController
use api_wa_automation.Broadcasts.Controller as BroadcastsController
use api_wa_automation.Api.{Request, handle, serve}
use api_wa_automation.Api.Access.{serve-authorised}
use api_wa_automation.Api.Roles.{IsUnmanaging, handle-unmanaging}
use api_wa_automation.Accounts
use api_wa_automation.Accounts.{PublicRequest, Step, IsReachable, public, start, next}
use api_wa_automation.Accounts.Integrity.{IsSound}
use api_wa_automation.Accounts.Steps.{reachable-IsSound}
use api_wa_automation.Accounts.Orphans.{remove-orphans}
use api_wa_automation.Tests.{
  plain_js, plain_crypto, kind_server, secret, shop, shop_owner, small_world,
}
use api_wa_automation.Tests.Accounts.{open_bcrypt, eve, registration}
use api_wa_automation.Tests.Tokens.{config, eve_tokens}

abbrev noon : Ambient
noon = record { now = 5000; timestamp = codes "noon"; random = codes "iv" }

-- Eve is a plain member of the shop.
abbrev eve_member : WorkspaceMember
eve_member = record { workspace_id = 1; user_id = 8; role = member }

abbrev eve_world : World
eve_world = record (small_world draft) { users = eve ∷ []; members = shop_owner ∷ eve_member ∷ [] }

abbrev list_sessions : Request
list_sessions = Request.sessions SessionsController.find_all

serve-authorised_example :
    ((e : Exception) × (serve ⦃server = kind_server⦄ secret config noon
          (some eve_tokens.access_token)
          1
          list_sessions
          eve_world
        ≡ (err e, eve_world)))
    ⊎ ((t : Text) × (payload : JwtPayload) × (u : User) × (m : WorkspaceMember) × (some
            eve_tokens.access_token
          ≡ some t)
        × (plain_jwt.verify config.secret (5000 / 1000) t ≡ some payload)
        × (Has u (eve ∷ []) × (u.id ≡ payload.sub) × (u.is_active ≡ true))
        × (Has m (shop_owner ∷ eve_member ∷ []) × (m.workspace_id ≡ 1) × (m.user_id ≡ u.id))
        × (serve ⦃server = kind_server⦄ secret config noon
              (some eve_tokens.access_token)
              1
              list_sessions
              eve_world
            ≡ handle ⦃server = kind_server⦄ secret noon 1 u.id list_sessions eve_world))
serve-authorised_example =
    serve-authorised ⦃server = kind_server⦄ secret config noon (some eve_tokens.access_token) 1
      list_sessions eve_world

eve-IsUnmanaging : IsUnmanaging 1 8 eve_world
eve-IsUnmanaging m (inl e) here its =
    let other : Path ℕ 1 8 = sym (ap WorkspaceMember.user_id e) ∙ its in absurd (cc)
eve-IsUnmanaging m (inr (inl e)) here its =
    ap (λ z. any (role_eq (WorkspaceMember.role z)) managers) e
eve-IsUnmanaging m (inr (inr h)) here its = absurd h

handle-unmanaging_example :
    (e : Exception) × (handle ⦃server = kind_server⦄ secret noon 1 8
        (Request.broadcasts (BroadcastsController.send 7))
        eve_world
      ≡ (err e, eve_world))
handle-unmanaging_example =
    handle-unmanaging ⦃server = kind_server⦄ secret noon 1 8
      (Request.broadcasts (BroadcastsController.send 7)) eve_world refl eve-IsUnmanaging

abbrev no_rows : World
no_rows = record (small_world draft) { users = []; workspaces = []; members = [] }

abbrev registered : World
registered =
    (Accounts.handle_public secret config noon (PublicRequest.register registration) no_rows).1

registered-IsReachable : IsReachable secret config registered
registered-IsReachable =
    next no_rows registered (start no_rows refl refl refl)
      (public noon (PublicRequest.register registration) no_rows)

reachable-IsSound_example : IsSound registered
reachable-IsSound_example = reachable-IsSound secret config registered registered-IsReachable

abbrev lone_world : World
lone_world = record (small_world draft) { users = eve ∷ []; members = eve_member ∷ [] }

only_eve : (m : WorkspaceMember) → Has m (eve_member ∷ []) → m.workspace_id ≡ 1 → m.user_id ≡ 8
only_eve m (inl e) here = ap WorkspaceMember.user_id e
only_eve m (inr h) here = absurd h

remove-orphans_example :
    let w' = (Users.remove 8 lone_world).1 in
    Has shop w'.workspaces
    × (handle ⦃server = kind_server⦄ secret noon 1 8 list_sessions w'
        ≡ (err (forbidden "You are not a member of this workspace"), w'))
remove-orphans_example =
    remove-orphans ⦃server = kind_server⦄ secret noon 8 8 eve shop list_sessions lone_world refl
      (inl refl) only_eve
