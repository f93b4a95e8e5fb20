-- ===== src/Data/Tenancy.antt =====
-- Entities of src/modules/workspaces, src/modules/sessions and src/modules/contacts. Primary keys
-- are uuids that the database makes and the code only compares: numbers stand for them. Dates are
-- milliseconds. The columns that only the database writes (created_at, updated_at, joined_at) and
-- the relation fields are left out.
use api_wa_automation.Base.{ℕ, Bool, Option, List, ◌==◌, ◌&&◌}
use api_wa_automation.Base.Text.{Text}

abbrev pub Key : Type 0
Key = ℕ

-- `unlisted` is any other string: the column is a varchar, and `InviteMemberDto.role` is checked
-- by `@IsString()` alone.
pub data WorkspaceRole : Type 0 where
  owner admin member : WorkspaceRole
  unlisted : Text → WorkspaceRole

abbrev pub role_eq : WorkspaceRole → WorkspaceRole → Bool
role_eq owner owner = Bool.true
role_eq admin admin = Bool.true
role_eq member member = Bool.true
role_eq (unlisted s) (unlisted t) = api_wa_automation.Base.Text.text_eq s t
role_eq _ _ = Bool.false

pub record Workspace : Type 0 where
  pub id : Key
  pub name : Text
  pub owner_id : Key
  pub openwa_base_url : Text
  pub openwa_api_key : Text
  pub is_active : Bool

pub record WorkspaceMember : Type 0 where
  pub workspace_id : Key
  pub user_id : Key
  pub role : WorkspaceRole

pub data SessionStatus : Type 0 where
  idle connecting connected disconnected error : SessionStatus

abbrev pub status_eq : SessionStatus → SessionStatus → Bool
status_eq idle idle = Bool.true
status_eq connecting connecting = Bool.true
status_eq connected connected = Bool.true
status_eq disconnected disconnected = Bool.true
status_eq error error = Bool.true
status_eq _ _ = Bool.false

pub record Session : Type 0 where
  pub id : Key
  pub workspace_id : Key
  pub session_id : Text
  pub name : Text
  pub phone_number : Option Text
  pub status : SessionStatus
  pub last_active_at : Option ℕ

pub record Contact : Type 0 where
  pub id : Key
  pub workspace_id : Key
  pub name : Option Text
  pub phone : Text
  pub tags : List Text
  pub is_blacklisted : Bool
  pub notes : Option Text

pub record ContactGroup : Type 0 where
  pub id : Key
  pub workspace_id : Key
  pub name : Text
  pub contact_ids : List Key

-- Equality of primary keys.
abbrev pub same_workspace : Workspace → Workspace → Bool
same_workspace a b = a.id == b.id

abbrev pub same_member : WorkspaceMember → WorkspaceMember → Bool
same_member a b = a.workspace_id == b.workspace_id && a.user_id == b.user_id

abbrev pub same_session : Session → Session → Bool
same_session a b = a.id == b.id

abbrev pub same_contact : Contact → Contact → Bool
same_contact a b = a.id == b.id

abbrev pub same_group : ContactGroup → ContactGroup → Bool
same_group a b = a.id == b.id
