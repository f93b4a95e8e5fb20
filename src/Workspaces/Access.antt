-- ===== src/Workspaces/Access.antt =====
-- The access checks of the workspaces service, and what a new workspace's owner can do.
use api_wa_automation.Base.{
  true, false, ◌≡◌, refl, inl, inr, Option-cases, Bool-cases, some, List, [], ◌∷◌, any, Has, ◌⊎◌,
  String, arith,
}
use api_wa_automation.Base.Text.{Text, is_empty}
use api_wa_automation.Orm.{Orm}
use api_wa_automation.Orm.Laws.{find_one-save}
use api_wa_automation.Encryption.{Crypto, decrypt}
use api_wa_automation.Encryption.RoundTrip.{decrypt-encrypt}
use api_wa_automation.Data.Tenancy.{
  Key, Workspace, WorkspaceMember, WorkspaceRole, owner, role_eq, same_workspace, same_member,
}
use api_wa_automation.World.{World, Result-cases, ok, err, Exception, forbidden, not_found}
use api_wa_automation.Workspaces.{
  CreateWorkspaceDto, created_workspace, OpenwaCredentials, is_membership, assert_member,
  assert_role, create, save_workspace, save_member, find_workspace, has_workspace_key,
  get_openwa_credentials,
}

-- The user has no membership of the workspace.
abbrev pub IsOutsider : Key → Key → World → Type 0
IsOutsider workspace_id user_id w =
    (m : WorkspaceMember) → Has m w.members → is_membership workspace_id user_id m ≡ false

-- `m` is the user's membership of the workspace, in one of the roles.
abbrev pub IsAllowed : Key → Key → List WorkspaceRole → World → WorkspaceMember → Type 0
IsAllowed workspace_id user_id roles w m =
    Has m w.members
    × (m.workspace_id ≡ workspace_id)
    × (m.user_id ≡ user_id)
    × (any (role_eq m.role) roles ≡ true)

module _ ⦃orm : Orm⦄ where
  pub assert_member_outsider :
      (workspace_id user_id : Key) (w : World)
      → IsOutsider workspace_id user_id w
      → assert_member workspace_id user_id w
        ≡ (err (forbidden "You are not a member of this workspace"), w)
  unfolding assert_member
  assert_member_outsider workspace_id user_id w h =
      rw (orm.find_one_none (is_membership workspace_id user_id) w.members h)

  -- A membership check finds one and passes, or throws; it never changes the state.
  pub assert_member_sound :
      (workspace_id user_id : Key) (w : World)
      → ((m : WorkspaceMember) × (assert_member workspace_id user_id w ≡ (ok m, w))
          × Has m w.members
          × (m.workspace_id ≡ workspace_id)
          × (m.user_id ≡ user_id))
        ⊎ (assert_member workspace_id user_id w
            ≡ (err (forbidden "You are not a member of this workspace"), w))
  unfolding assert_member
  assert_member_sound workspace_id user_id w =
      elim (Option-cases (orm.find_one (is_membership workspace_id user_id) w.members)) [
        | inl e ↦ inr (ground arith)
        | inr (m, e) ↦ inl (
          m,
          ground arith,
          orm.find_one_has (is_membership workspace_id user_id) w.members m e,
          ground (arith, orm.find_one_test _ _ _ e),
          ground (arith, orm.find_one_test _ _ _ e),
        )
      ]

  pub assert_role_outsider :
      (workspace_id user_id : Key) (roles : List WorkspaceRole) (w : World)
      → IsOutsider workspace_id user_id w
      → assert_role workspace_id user_id roles w
        ≡ (err (forbidden "You are not a member of this workspace"), w)
  unfolding assert_role assert_member
  assert_role_outsider workspace_id user_id roles w h =
      ground (arith, orm.find_one_none (is_membership workspace_id user_id) w.members h)

  -- A check that passes has found a membership of that user, in that workspace and one of the
  -- roles; one that does not is `Forbidden`. Neither changes the state.
  pub assert_role_sound :
      (workspace_id user_id : Key) (roles : List WorkspaceRole) (w : World)
      → ((m : WorkspaceMember) × (assert_role workspace_id user_id roles w ≡ (ok m, w))
          × IsAllowed workspace_id user_id roles w m)
        ⊎ ((reason : String) × (assert_role workspace_id user_id roles w
              ≡ (err (forbidden reason), w)))
  unfolding assert_role assert_member
  assert_role_sound workspace_id user_id roles w =
      elim (Option-cases (orm.find_one (is_membership workspace_id user_id) w.members)) [
        | inl e ↦ inr ("You are not a member of this workspace", ground arith)
        | inr (m, e) ↦ elim (Bool-cases (any (role_eq m.role) roles)) [
          | inl allowed ↦ inl (
            m,
            ground arith,
            (
              orm.find_one_has (is_membership workspace_id user_id) w.members m e,
              ground (arith, orm.find_one_test _ _ _ e),
              ground (arith, orm.find_one_test _ _ _ e),
              allowed,
            ),
          )
          | inr denied ↦ inr ("Insufficient workspace role", ground arith)
        ]
      ]

module _ ⦃orm : Orm⦄ where
  membership-saved :
      (m : WorkspaceMember) (t : List WorkspaceMember)
      → orm.find_one (is_membership m.workspace_id m.user_id) (orm.save same_member m t) ≡ some m
  membership-saved m t =
      find_one-save (is_membership m.workspace_id m.user_id) same_member m t (ground arith)
        (λ y h. ground arith)

  workspace-saved :
      (x : Workspace) (t : List Workspace)
      → orm.find_one (has_workspace_key x.id) (orm.save same_workspace x t) ≡ some x
  workspace-saved x t =
      find_one-save (has_workspace_key x.id) same_workspace x t (ground arith) (λ y h. ground arith)

module _ ⦃orm : Orm⦄ ⦃c : Crypto⦄ (enc_key : Text) where
  -- Reading the credentials changes nothing, whether or not it succeeds.
  pub get_openwa_credentials_sound :
      (workspace_id : Key) (w : World)
      → ((creds : OpenwaCredentials) × (get_openwa_credentials enc_key workspace_id w
            ≡ (ok creds, w)))
        ⊎ ((e : Exception) × (get_openwa_credentials enc_key workspace_id w ≡ (err e, w)))
  unfolding get_openwa_credentials find_workspace
  get_openwa_credentials_sound workspace_id w =
      elim (Option-cases (orm.find_one (has_workspace_key workspace_id) w.workspaces)) [
        | inl missing ↦ inr (not_found "Workspace not found", ground arith)
        | inr (x, e) ↦ elim (Result-cases (decrypt x.openwa_api_key enc_key)) [
          | inl (api_key, d) ↦
              inl (record { base_url = x.openwa_base_url; api_key = api_key }, ground arith)
          | inr (reason, d) ↦ inr (reason, ground arith)
        ]
      ]

  -- After `create` its creator passes the check for owners of the new workspace.
  pub create-assert_role :
      (iv : Text) (user_id : Key) (dto : CreateWorkspaceDto) (w : World)
      → let (r, w') = create enc_key iv user_id dto w in
        (x : Workspace) × (r ≡ ok x)
        × (x.owner_id ≡ user_id)
        × (assert_role x.id user_id (owner ∷ []) w'
            ≡ (ok (record { workspace_id = x.id; user_id = user_id; role = owner }), w'))
  unfolding create save_workspace save_member assert_role assert_member
  create-assert_role iv user_id dto w =
      let id = orm.new_key Workspace.id w.workspaces in
      let m : WorkspaceMember = record { workspace_id = id; user_id = user_id; role = owner } in
      (_, refl, refl, ground (arith, membership-saved m w.members))

  -- The credentials of a new workspace are the base URL and the key that it was created with, if
  -- the key is not empty and UTF-8 can carry it, and the vector of the cipher is not empty.
  pub create-get_openwa_credentials :
      (iv : Text) (user_id : Key) (dto : CreateWorkspaceDto) (w : World)
      → is_empty iv ≡ false
      → is_empty dto.openwa_api_key ≡ false
      → c.of_utf8 (c.to_utf8 dto.openwa_api_key) ≡ dto.openwa_api_key
      → let (r, w') = create enc_key iv user_id dto w in
        (x : Workspace) × (r ≡ ok x)
        × (get_openwa_credentials enc_key x.id w'
            ≡ (ok (record { base_url = dto.openwa_base_url; api_key = dto.openwa_api_key }), w'))
  unfolding create save_workspace save_member find_workspace get_openwa_credentials
  create-get_openwa_credentials iv user_id dto w hi hk hu =
      let id = orm.new_key Workspace.id w.workspaces in
      (
        _,
        refl,
        ground (
          arith,
          workspace-saved (created_workspace enc_key iv user_id dto id) w.workspaces,
          decrypt-encrypt iv dto.openwa_api_key enc_key hi hk hu,
        ),
      )
