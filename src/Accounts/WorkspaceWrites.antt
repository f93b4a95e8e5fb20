-- ===== src/Accounts/WorkspaceWrites.antt =====
-- The methods of workspaces.service.ts keep the constraints between users, workspaces and memberships.
use api_wa_automation.Base.{
  ◌≡◌, refl, sym, ◌∙◌, subst, inl, inr, [], ◌∷◌, Option-cases, Bool-cases, ◌==◌, arith,
}
use api_wa_automation.Base.Text.{Text}
use api_wa_automation.Value.{Js}
use api_wa_automation.Orm.{Orm}
use api_wa_automation.Encryption.{Crypto}
use api_wa_automation.Data.Tenancy.{
  Key, Workspace, WorkspaceMember, owner, role_eq, same_workspace, same_member,
}
use api_wa_automation.World.{World}
use api_wa_automation.Users.{has_email, find_by_email}
use api_wa_automation.Workspaces
use api_wa_automation.Workspaces.{
  CreateWorkspaceDto, UpdateWorkspaceDto, InviteMemberDto, managers, has_workspace_key,
  is_membership, assert_member, assert_role, find_workspace, save_workspace, save_member,
  created_workspace, updated_workspace, role_or_member,
}
use api_wa_automation.Workspaces.Access.{assert_role_sound}
use api_wa_automation.Accounts.Integrity.{
  IsSound, HasUser, save_workspace-IsSound, save_member-IsSound, remove_workspace-IsSound,
  remove_member-IsSound,
}

module _ ⦃orm : Orm⦄ ⦃c : Crypto⦄ (enc_key : Text) where
  pub create_workspace-IsSound :
      (iv : Text) (uid : Key) (dto : CreateWorkspaceDto) (w : World)
      → HasUser uid w
      → IsSound w
      → IsSound (Workspaces.create enc_key iv uid dto w).1
  unfolding Workspaces.create save_workspace save_member
  create_workspace-IsSound iv uid dto w user h =
      let x = created_workspace enc_key iv uid dto (orm.new_key Workspace.id w.workspaces) in
      save_member-IsSound (record { workspace_id = x.id; user_id = uid; role = owner })
        (save_workspace x w).1 user (x, orm.save_self same_workspace x w.workspaces, refl)
        (save_workspace-IsSound x w h)

  pub update_workspace-IsSound :
      (iv : Text) (id uid : Key) (dto : UpdateWorkspaceDto) (w : World)
      → IsSound w
      → IsSound (Workspaces.update enc_key iv id uid dto w).1
  unfolding Workspaces.update find_workspace
  update_workspace-IsSound iv id uid dto w h = elim (assert_role_sound id uid managers w) [
    | inr (reason, e) ↦
        let same : (Workspaces.update enc_key iv id uid dto w).1 ≡ w = ground arith in
        subst IsSound (sym same) h
    | inl (m, e, _) ↦ elim (Option-cases (orm.find_one (has_workspace_key id) w.workspaces)) [
      | inl d ↦
          let same : (Workspaces.update enc_key iv id uid dto w).1 ≡ w = ground arith in
          subst IsSound (sym same) h
      | inr (x, d) ↦
          let saved : (Workspaces.update enc_key iv id uid dto w).1
              ≡ (save_workspace (updated_workspace enc_key iv dto x) w).1 =
            ground arith in
          subst IsSound (sym saved)
            (save_workspace-IsSound (updated_workspace enc_key iv dto x) w h)
    ]
  ]

module _ ⦃orm : Orm⦄ where
  pub remove_workspace_lem :
      (id uid : Key) (w : World) → IsSound w → IsSound (Workspaces.remove id uid w).1
  unfolding Workspaces.remove find_workspace
  remove_workspace_lem id uid w h = elim (assert_role_sound id uid (owner ∷ []) w) [
    | inr (reason, e) ↦
        let same : (Workspaces.remove id uid w).1 ≡ w = ground arith in subst IsSound (sym same) h
    | inl (m, e, _) ↦ elim (Option-cases (orm.find_one (has_workspace_key id) w.workspaces)) [
      | inl d ↦
          let same : (Workspaces.remove id uid w).1 ≡ w = ground arith in subst IsSound (sym same) h
      | inr (x, d) ↦
          let v : World = record w {
            workspaces = orm.remove same_workspace x w.workspaces;
            members = orm.delete (λ y. y.workspace_id == x.id) w.members;
          } in
          let removed : (Workspaces.remove id uid w).1 ≡ v = ground arith in
          subst IsSound (sym removed) (remove_workspace-IsSound x w h)
    ]
  ]

  pub remove_member_lem :
      (id uid target : Key) (w : World)
      → IsSound w
      → IsSound (Workspaces.remove_member id uid target w).1
  unfolding Workspaces.remove_member
  remove_member_lem id uid target w h = elim (assert_role_sound id uid managers w) [
    | inr (reason, e) ↦
        let same : (Workspaces.remove_member id uid target w).1 ≡ w = ground arith in
        subst IsSound (sym same) h
    | inl (caller, e, _) ↦ elim (Option-cases (orm.find_one (is_membership id target) w.members)) [
      | inl d ↦
          let same : (Workspaces.remove_member id uid target w).1 ≡ w = ground arith in
          subst IsSound (sym same) h
      | inr (m, d) ↦ elim (Bool-cases (role_eq m.role owner)) [
        | inl is_owner ↦
            let same : (Workspaces.remove_member id uid target w).1 ≡ w = ground arith in
            subst IsSound (sym same) h
        | inr other ↦
            let v : World = record w { members = orm.remove same_member m w.members } in
            let removed : (Workspaces.remove_member id uid target w).1 ≡ v = ground arith in
            subst IsSound (sym removed) (remove_member-IsSound m w h)
      ]
    ]
  ]

  pub invite-IsSound :
      ⦃js : Js⦄
      → (id uid : Key) (dto : InviteMemberDto) (w : World) → IsSound w
      → IsSound (Workspaces.invite id uid dto w).1
  unfolding Workspaces.invite find_by_email
  invite-IsSound ⦃js = js⦄ id uid dto w h =
      let email = js.to_lower_case dto.email in
      elim (assert_role_sound id uid managers w) [
        | inr (reason, e) ↦
            let same : (Workspaces.invite id uid dto w).1 ≡ w = ground arith in
            subst IsSound (sym same) h
        | inl (caller, e, (row, here, _, _)) ↦
            elim (Option-cases (orm.find_one (has_email email) w.users)) [
              | inl d ↦
                  let same : (Workspaces.invite id uid dto w).1 ≡ w = ground arith in
                  subst IsSound (sym same) h
              | inr (u, d) ↦
                  let m : WorkspaceMember = record {
                    workspace_id = id;
                    user_id = u.id;
                    role = role_or_member dto.role;
                  } in
                  elim (Option-cases (orm.find_one (is_membership id u.id) w.members)) [
                    | inr (old, f) ↦
                        let same : (Workspaces.invite id uid dto w).1 ≡ w = ground arith in
                        subst IsSound (sym same) h
                    | inl f ↦
                        let saved : (Workspaces.invite id uid dto w).1 ≡ (save_member m w).1 =
                          ground arith in
                        let (x, there, its) = h.workspaces_exist caller row in
                        subst IsSound (sym saved) (
                          save_member-IsSound m w
                            (u, orm.find_one_has (has_email email) w.users u d, refl)
                            (x, there, its ∙ here) h)
                  ]
            ]
      ]
