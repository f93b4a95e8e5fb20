-- ===== src/Workspaces.antt =====
-- src/modules/workspaces/workspaces.service.ts: workspaces, their members, and the access checks
-- that every other service starts with.
pub mod Access
pub mod Owners
pub mod Controller
use api_wa_automation.Base.{
  ℕ, Bool, true, false, not, ◌&&◌, Option, none, some, List, [], ◌∷◌, map, ◌==◌, any, if◌then◌else◌,
}
use api_wa_automation.Base.Text.{Text, text_eq, is_empty}
use api_wa_automation.Value.{Js}
use api_wa_automation.Orm.{Orm}
use api_wa_automation.Encryption.{Crypto, encrypt, decrypt}
use api_wa_automation.Data.Accounts.{User}
use api_wa_automation.Data.Tenancy.{
  Key, Workspace, WorkspaceMember, WorkspaceRole, owner, admin, member, unlisted, role_eq,
  same_workspace, same_member,
}
use api_wa_automation.Users.{find_by_email}
use api_wa_automation.World.{
  World, Action, Result, ok, err, Exception, forbidden, not_found, pure, throw, gets, modify,
  or_throw, throw_if, ◌>>=◌, ◌>>◌,
}

pub record CreateWorkspaceDto : Type 0 where
  pub name : Text
  pub openwa_base_url : Text
  pub openwa_api_key : Text

pub record UpdateWorkspaceDto : Type 0 where
  pub name : Option Text
  pub openwa_base_url : Option Text
  pub openwa_api_key : Option Text
  pub is_active : Option Bool

pub record InviteMemberDto : Type 0 where
  pub email : Text
  pub role : Option WorkspaceRole

pub record OpenwaCredentials : Type 0 where
  pub base_url : Text
  pub api_key : Text

-- `if (v !== undefined) x = v;`
abbrev pub given : {A : Type 0} → Option A → A → A
given none old = old
given (some v) old = v

abbrev pub managers : List WorkspaceRole
managers = owner ∷ admin ∷ []

-- `dto.role || 'member'`
abbrev pub role_or_member : Option WorkspaceRole → WorkspaceRole
role_or_member none = member
role_or_member (some (unlisted [])) = member
role_or_member (some r) = r

-- `where: { workspaceId, userId }`
abbrev pub is_membership : Key → Key → WorkspaceMember → Bool
is_membership workspace_id user_id m = m.workspace_id == workspace_id && m.user_id == user_id

abbrev pub has_workspace_key : Key → Workspace → Bool
has_workspace_key id w = w.id == id

module _ ⦃orm : Orm⦄ where
  unfoldable pub assert_member : Key → Key → Action WorkspaceMember
  assert_member workspace_id user_id = do
    or_throw (forbidden "You are not a member of this workspace")
        (← gets (λ w. orm.find_one (is_membership workspace_id user_id) w.members))

  unfoldable pub assert_role : Key → Key → List WorkspaceRole → Action WorkspaceMember
  assert_role workspace_id user_id roles = do
    m ← assert_member workspace_id user_id
    throw_if (not (any (role_eq m.role) roles)) (forbidden "Insufficient workspace role")
    pure m

  unfoldable pub find_workspace : Key → Action Workspace
  find_workspace id = do
    or_throw (not_found "Workspace not found")
        (← gets (λ w. orm.find_one (has_workspace_key id) w.workspaces))

  unfoldable pub save_workspace : Workspace → Action Workspace
  save_workspace x = do
    modify (λ w. record w { workspaces = orm.save same_workspace x w.workspaces })
    pure x

  unfoldable pub save_member : WorkspaceMember → Action WorkspaceMember
  save_member x = do modify (λ w. record w { members = orm.save same_member x w.members }); pure x

  -- `findAllForUser`
  unfoldable pub find_all_for_user : Key → Action (List Workspace)
  find_all_for_user user_id = do
    memberships ← gets (λ w. orm.find (λ m. m.user_id == user_id) w.members)
    let ids = map WorkspaceMember.workspace_id memberships
    gets (λ w. if is_empty ids then [] else orm.find (λ x. any (λ i. x.id == i) ids) w.workspaces)

  unfoldable pub find_one : Key → Key → Action Workspace
  find_one id user_id = do assert_member id user_id; find_workspace id

  unfoldable pub remove : Key → Key → Action (Unit {0})
  remove id user_id = do
    assert_role id user_id (owner ∷ [])
    x ← find_workspace id
    -- The memberships follow by `onDelete: 'CASCADE'`.
    modify (λ w. record w {
      workspaces = orm.remove same_workspace x w.workspaces;
      members = orm.delete (λ m. m.workspace_id == x.id) w.members;
    })

  unfoldable pub list_members : Key → Key → Action (List WorkspaceMember)
  list_members id user_id = do
    assert_member id user_id
    gets (λ w. orm.find (λ m. m.workspace_id == id) w.members)

  unfoldable pub remove_member : Key → Key → Key → Action (Unit {0})
  remove_member id user_id target_user_id = do
    assert_role id user_id managers
    m ←
        or_throw (not_found "Member not found")
          (← gets (λ w. orm.find_one (is_membership id target_user_id) w.members))
    throw_if (role_eq m.role owner) (forbidden "Cannot remove the workspace owner")
    modify (λ w. record w { members = orm.remove same_member m w.members })

-- `iv` is the vector drawn by `encrypt`, `key` the configured encryption key.
module _ ⦃orm : Orm⦄ ⦃c : Crypto⦄ (enc_key : Text) where
  abbrev pub created_workspace : Text → Key → CreateWorkspaceDto → Key → Workspace
  created_workspace iv user_id dto id = record {
    id = id;
    name = dto.name;
    owner_id = user_id;
    openwa_base_url = dto.openwa_base_url;
    openwa_api_key = encrypt iv dto.openwa_api_key enc_key;
    is_active = true;
  }

  unfoldable pub create : Text → Key → CreateWorkspaceDto → Action Workspace
  create iv user_id dto = do
    id ← gets (λ w. orm.new_key Workspace.id w.workspaces)
    saved ← save_workspace (created_workspace iv user_id dto id)
    save_member (record { workspace_id = saved.id; user_id = user_id; role = owner })
    pure saved

  abbrev reencrypt : Text → Option Text → Text → Text
  reencrypt iv none old = old
  reencrypt iv (some k) old = encrypt iv k enc_key

  abbrev pub updated_workspace : Text → UpdateWorkspaceDto → Workspace → Workspace
  updated_workspace iv dto x = record x {
    name = given dto.name x.name;
    openwa_base_url = given dto.openwa_base_url x.openwa_base_url;
    openwa_api_key = reencrypt iv dto.openwa_api_key x.openwa_api_key;
    is_active = given dto.is_active x.is_active;
  }

  unfoldable pub update : Text → Key → Key → UpdateWorkspaceDto → Action Workspace
  update iv id user_id dto = do
    assert_role id user_id managers
    x ← find_workspace id
    save_workspace (updated_workspace iv dto x)

  -- A malformed or foreign payload makes the method throw what `decrypt` throws.
  abbrev credentials : Text → Result Text → Action OpenwaCredentials
  credentials base_url (ok api_key) = pure (record { base_url = base_url; api_key = api_key })
  credentials base_url (err e) = throw e

  -- `getOpenwaCredentials`
  unfoldable pub get_openwa_credentials : Key → Action OpenwaCredentials
  get_openwa_credentials workspace_id = do
    x ← find_workspace workspace_id
    credentials x.openwa_base_url (decrypt x.openwa_api_key enc_key)

module _ ⦃orm : Orm⦄ ⦃js : Js⦄ where
  unfoldable pub invite : Key → Key → InviteMemberDto → Action WorkspaceMember
  invite id user_id dto = do
    assert_role id user_id managers
    invitee ← or_throw (not_found "User to invite not found") (← find_by_email dto.email)
    existing ← gets (λ w. orm.find_one (is_membership id invitee.id) w.members)
    elim existing [
      | some m ↦ pure m
      | none ↦
          save_member
            (record { workspace_id = id; user_id = invitee.id; role = role_or_member dto.role })
    ]
