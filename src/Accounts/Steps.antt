-- ===== src/Accounts/Steps.antt =====
-- Every request keeps the constraints between users, workspaces and memberships.
use api_wa_automation.Base.{ℕ, ◌≡◌, refl, sym, subst, inl, inr, Option, Has, arith}
use api_wa_automation.Base.Text.{Text}
use api_wa_automation.Value.{Js}
use api_wa_automation.Orm.{Orm}
use api_wa_automation.Orm.Laws.{IsKeyed}
use api_wa_automation.Encryption.{Crypto}
use api_wa_automation.Data.Accounts.{User}
use api_wa_automation.Data.Tenancy.{Key, Workspace}
use api_wa_automation.World.{World, Ambient, discard-state}
use api_wa_automation.Users
use api_wa_automation.Users.{
  Bcrypt, NewUser, ChangePasswordDto, has_email, has_user_key, new_user, save_user, find_by_id,
  find_by_email, validate_credentials,
}
use api_wa_automation.Auth
use api_wa_automation.Auth.Interface.{Jwt, Cache}
use api_wa_automation.Auth.{JwtConfig, LoginDto, AuthUser, issue_tokens, payload_of}
use api_wa_automation.Auth.Tokens.{authenticate_sound}
use api_wa_automation.Workspaces
use api_wa_automation.Workspaces.{
  CreateWorkspaceDto, UpdateWorkspaceDto, InviteMemberDto, managers, has_workspace_key,
  is_membership, assert_member, assert_role, find_workspace, save_workspace, save_member,
  created_workspace, updated_workspace, role_or_member,
}
use api_wa_automation.Workspaces.Owners.{HasKeys}
use api_wa_automation.Workspaces.Controller as WorkspacesController
use api_wa_automation.Accounts.{
  PublicRequest, UserRequest, handle_public, handle, Step, IsReachable, public, private, start,
  next,
}
use api_wa_automation.Accounts.Integrity.{IsSound, HasEmails, HasUser}
use api_wa_automation.Accounts.UserWrites.{
  create_user-IsSound, change_password-IsSound, update_user-IsSound, remove_user_lem,
}
use api_wa_automation.Accounts.WorkspaceWrites.{
  create_workspace-IsSound, update_workspace-IsSound, remove_workspace_lem, remove_member_lem,
  invite-IsSound,
}

abbrev HasSameTables : World → World → Type 0
HasSameTables v w = (v.users ≡ w.users) × (v.workspaces ≡ w.workspaces) × (v.members ≡ w.members)

same-IsSound : (v w : World) → HasSameTables v w → IsSound w → IsSound v
same-IsSound v w (us, xs, ms) h = record {
  users_keyed = subst (IsKeyed User.id) (sym us) h.users_keyed;
  emails = subst HasEmails (sym us) h.emails;
  workspaces_keyed = subst (IsKeyed Workspace.id) (sym xs) h.workspaces_keyed;
  members_keyed = subst HasKeys (sym ms) h.members_keyed;
  users_exist = λ m k.
      let (u, row, its) = h.users_exist m (subst (Has m) ms k) in
      (u, subst (Has u) (sym us) row, its);
  workspaces_exist = λ m k.
      let (x, row, its) = h.workspaces_exist m (subst (Has m) ms k) in
      (x, subst (Has x) (sym xs) row, its);
}

module _ ⦃jwt : Jwt⦄ ⦃cache : Cache⦄ (config : JwtConfig) where
  refresh_route-tables :
      (now : ℕ) (body : Option Text) (w : World)
      → HasSameTables (Auth.refresh_route config now body w).1 w
  unfolding Auth.refresh_route Auth.refresh issue_tokens
  refresh_route-tables now body w = (ground arith, ground arith, ground arith)

  logout-tables : (uid : Key) (w : World) → HasSameTables (Auth.logout config uid w).1 w
  unfolding Auth.logout
  logout-tables uid w = (refl, refl, refl)

module _ ⦃orm : Orm⦄ ⦃js : Js⦄ ⦃bcrypt : Bcrypt⦄ ⦃jwt : Jwt⦄ ⦃cache : Cache⦄
    (config : JwtConfig) where
  register-tables :
      (now : ℕ) (salt : Text) (dto : NewUser) (w : World)
      → HasSameTables (Auth.register config now salt dto w).1 (Users.create salt dto w).1
  unfolding Auth.register issue_tokens
  register-tables now salt dto w = (ground arith, ground arith, ground arith)

  login-tables :
      (now : ℕ) (dto : LoginDto) (w : World) → HasSameTables (Auth.login config now dto w).1 w
  unfolding Auth.login issue_tokens validate_credentials find_by_email
  login-tables now dto w = (ground arith, ground arith, ground arith)

module _ ⦃orm : Orm⦄ where
  find_by_id-state : (uid : Key) (w : World) → (Users.find_by_id uid w).1 ≡ w
  unfolding find_by_id
  find_by_id-state uid w = ground arith

  find_all_for_user-state : (uid : Key) (w : World) → (Workspaces.find_all_for_user uid w).1 ≡ w
  unfolding Workspaces.find_all_for_user
  find_all_for_user-state uid w = refl

  find_workspace-state : (id uid : Key) (w : World) → (Workspaces.find_one id uid w).1 ≡ w
  unfolding Workspaces.find_one assert_member find_workspace
  find_workspace-state id uid w = ground arith

  list_members-state : (id uid : Key) (w : World) → (Workspaces.list_members id uid w).1 ≡ w
  unfolding Workspaces.list_members assert_member
  list_members-state id uid w = ground arith

module _ ⦃orm : Orm⦄ ⦃js : Js⦄ ⦃c : Crypto⦄ (enc_key : Text) where
  workspace-IsSound :
      (here : Ambient) (id uid : Key) (r : WorkspacesController.Request) (w : World)
      → IsSound w
      → IsSound (WorkspacesController.handle enc_key here id uid r w).1
  unfolding WorkspacesController.handle
  workspace-IsSound here id uid WorkspacesController.find_one w h =
      rw (discard-state, find_workspace-state) h
  workspace-IsSound here id uid (WorkspacesController.update dto) w h =
      rw discard-state (update_workspace-IsSound enc_key here.random id uid dto w h)
  workspace-IsSound here id uid WorkspacesController.remove w h = remove_workspace_lem id uid w h
  workspace-IsSound here id uid WorkspacesController.list_members w h =
      rw (discard-state, list_members-state) h
  workspace-IsSound here id uid (WorkspacesController.invite dto) w h =
      rw discard-state (invite-IsSound id uid dto w h)
  workspace-IsSound here id uid (WorkspacesController.remove_member target) w h =
      remove_member_lem id uid target w h

module _ ⦃orm : Orm⦄ ⦃js : Js⦄ ⦃c : Crypto⦄ ⦃bcrypt : Bcrypt⦄ ⦃jwt : Jwt⦄ ⦃cache : Cache⦄
    (enc_key : Text) (config : JwtConfig) where
  handle_public-IsSound :
      (here : Ambient) (r : PublicRequest) (w : World)
      → IsSound w
      → IsSound (handle_public enc_key config here r w).1
  unfolding handle_public
  handle_public-IsSound here (PublicRequest.register dto) w h = rw discard-state (
      same-IsSound _ _ (register-tables config here.now here.random dto w)
        (create_user-IsSound here.random dto w h))
  handle_public-IsSound here (PublicRequest.login dto) w h =
      rw discard-state (same-IsSound _ w (login-tables config here.now dto w) h)
  handle_public-IsSound here (PublicRequest.refresh body) w h =
      rw discard-state (same-IsSound _ w (refresh_route-tables config here.now body w) h)

  -- A request of a user of the table.
  handle-IsSound :
      (here : Ambient) (uid : Key) (r : UserRequest) (w : World)
      → HasUser uid w
      → IsSound w
      → IsSound (handle enc_key config here uid r w).1
  unfolding handle WorkspacesController.find_all WorkspacesController.create
  handle-IsSound here uid UserRequest.logout w user h =
      same-IsSound _ w (logout-tables config uid w) h
  handle-IsSound here uid UserRequest.me w user h = rw (discard-state, find_by_id-state) h
  handle-IsSound here uid (UserRequest.update name) w user h =
      rw discard-state (update_user-IsSound uid name w h)
  handle-IsSound here uid (UserRequest.change_password dto) w user h =
      change_password-IsSound here.random uid dto w h
  handle-IsSound here uid UserRequest.remove w user h = remove_user_lem uid w h
  handle-IsSound here uid UserRequest.find_workspaces w user h =
      rw (discard-state, find_all_for_user-state) h
  handle-IsSound here uid (UserRequest.create_workspace dto) w user h =
      rw discard-state (create_workspace-IsSound enc_key here.random uid dto w user h)
  handle-IsSound here uid (UserRequest.workspace id r) w user h =
      workspace-IsSound enc_key here id uid r w h

  Step-IsSound : (v w : World) → Step enc_key config v w → IsSound v → IsSound w
  Step-IsSound v w (public here r v') h = handle_public-IsSound here r v h
  Step-IsSound v w (private here token user r v' e) h =
      elim (authenticate_sound config here.now token v) [
        | inl (x, refused) ↦ absurd (ground arith)
        | inr (_, _, u, _, _, row, _, _, passed) ↦
            handle-IsSound here user.id r v (u, row, ground arith) h
      ]

  -- In every state that the requests of tokens, users and workspaces lead to from empty tables, keys and
  -- emails are unique, and every membership is of a user and a workspace that exist: no such request,
  -- refused or served, leaves a membership behind. Requests of other endpoints are not steps here.
  pub reachable-IsSound : (w : World) → IsReachable enc_key config w → IsSound w
  reachable-IsSound w (start w' us xs ms) = record {
    users_keyed = subst (IsKeyed User.id) (sym us) (λ a b h. absurd h);
    emails = subst HasEmails (sym us) (λ a b h. absurd h);
    workspaces_keyed = subst (IsKeyed Workspace.id) (sym xs) (λ a b h. absurd h);
    members_keyed = subst HasKeys (sym ms) (λ a b h. absurd h);
    users_exist = λ m k. absurd (subst (Has m) ms k);
    workspaces_exist = λ m k. absurd (subst (Has m) ms k);
  }
  reachable-IsSound w (next v w' r s) = Step-IsSound v w s (reachable-IsSound v r)
