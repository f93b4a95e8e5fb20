-- ===== src/Accounts/Integrity.antt =====
-- The constraints that hold between users, workspaces and memberships, and the writes that keep them.
use api_wa_automation.Base.{true, ◌≡◌, ◌≢◌, sym, ap, ◌∙◌, subst, inl, inr, List, Has, ◌==◌, arith}
use api_wa_automation.Orm.{Orm}
use api_wa_automation.Orm.Laws.{IsKeyed, by, save-IsKeyed, remove-IsKeyed, save-persists}
use api_wa_automation.Data.Accounts.{User}
use api_wa_automation.Data.Tenancy.{Key, Workspace, WorkspaceMember, same_workspace, same_member}
use api_wa_automation.World.{World}
use api_wa_automation.Users.{save_user}
use api_wa_automation.Workspaces.{save_workspace, save_member}
use api_wa_automation.Workspaces.Owners.{HasKeys}

-- No two users have one email.
abbrev pub HasEmails : List User → Type 0
HasEmails t = (a b : User) → Has a t → Has b t → a.email ≡ b.email → a ≡ b

abbrev pub HasUser : Key → World → Type 0
HasUser id w = (u : User) × Has u w.users × (u.id ≡ id)

abbrev pub HasWorkspace : Key → World → Type 0
HasWorkspace id w = (x : Workspace) × Has x w.workspaces × (x.id ≡ id)

-- Keys and emails are unique, and every membership is of a user and a workspace that exist.
pub record IsSound (w : World) : Type 0 where
  pub users_keyed : IsKeyed User.id w.users
  pub emails : HasEmails w.users
  pub workspaces_keyed : IsKeyed Workspace.id w.workspaces
  pub members_keyed : HasKeys w.members
  pub users_exist : (m : WorkspaceMember) → Has m w.members → HasUser m.user_id w
  pub workspaces_exist : (m : WorkspaceMember) → Has m w.members → HasWorkspace m.workspace_id w

module _ ⦃orm : Orm⦄ where
  save-HasKeys :
      (x : WorkspaceMember) (t : List WorkspaceMember)
      → HasKeys t
      → HasKeys (orm.save same_member x t)
  save-HasKeys x t h a b ha hb e = elim (orm.save_has same_member x t a ha) [
    | inl ax ↦ elim (orm.save_has same_member x t b hb) [
      | inl bx ↦ ax ∙ sym bx
      | inr (_, differs) ↦
          let k : same_member x b ≡ true = subst (λ z. same_member z b ≡ true) ax e in absurd (cc)
    ]
    | inr (at, differs) ↦ elim (orm.save_has same_member x t b hb) [
      | inl bx ↦
          let k : same_member a x ≡ true = subst (λ z. same_member a z ≡ true) bx e in
          absurd (ground arith)
      | inr (bt, _) ↦ h a b at bt e
    ]
  ]

  save-HasEmails :
      (u : User) (t : List User)
      → HasEmails t
      → ((y : User) → Has y t → y.email ≡ u.email → y.id ≡ u.id)
      → HasEmails (orm.save (by User.id) u t)
  save-HasEmails u t h only a b ha hb e = elim (orm.save_has (by User.id) u t a ha) [
    | inl au ↦ elim (orm.save_has (by User.id) u t b hb) [
      | inl bu ↦ au ∙ sym bu
      | inr (bt, differs) ↦ let same = only b bt (sym e ∙ ap User.email au) in absurd (ground arith)
    ]
    | inr (at, differs) ↦ elim (orm.save_has (by User.id) u t b hb) [
      | inl bu ↦ let same = only a at (e ∙ ap User.email bu) in absurd (ground arith)
      | inr (bt, _) ↦ h a b at bt e
    ]
  ]

  -- A new user whose email no user has.
  pub save_new_user-IsSound :
      (u : User) (w : World)
      → ((y : User) → Has y w.users → y.email ≢ u.email)
      → IsSound w
      → IsSound (save_user u w).1
  unfolding save_user
  save_new_user-IsSound u w fresh h = record {
    users_keyed = save-IsKeyed User.id u w.users h.users_keyed;
    emails = save-HasEmails u w.users h.emails (λ y hy e. absurd (fresh y hy e));
    workspaces_keyed = h.workspaces_keyed;
    members_keyed = h.members_keyed;
    users_exist = λ m k.
        let (v, row, its) = h.users_exist m k in
        save-persists User.id (λ z. z.id ≡ m.user_id) u w.users (λ y hy e p. e ∙ p) v row its;
    workspaces_exist = h.workspaces_exist;
  }

  -- A user with the key and the email of one of the table.
  pub save_user-IsSound :
      (u old : User) (w : World)
      → Has old w.users
      → u.id ≡ old.id
      → u.email ≡ old.email
      → IsSound w
      → IsSound (save_user u w).1
  unfolding save_user
  save_user-IsSound u old w row same_id same_email h = record {
    users_keyed = save-IsKeyed User.id u w.users h.users_keyed;
    emails =
        save-HasEmails u w.users h.emails
          (λ y hy e. ap User.id (h.emails y old hy row (e ∙ same_email)) ∙ sym same_id);
    workspaces_keyed = h.workspaces_keyed;
    members_keyed = h.members_keyed;
    users_exist = λ m k.
        let (v, row, its) = h.users_exist m k in
        save-persists User.id (λ z. z.id ≡ m.user_id) u w.users (λ y hy e p. e ∙ p) v row its;
    workspaces_exist = h.workspaces_exist;
  }

  pub save_workspace-IsSound :
      (x : Workspace) (w : World) → IsSound w → IsSound (save_workspace x w).1
  unfolding save_workspace
  save_workspace-IsSound x w h = record {
    users_keyed = h.users_keyed;
    emails = h.emails;
    workspaces_keyed = save-IsKeyed Workspace.id x w.workspaces h.workspaces_keyed;
    members_keyed = h.members_keyed;
    users_exist = h.users_exist;
    workspaces_exist = λ m k.
        let (v, row, its) = h.workspaces_exist m k in
        save-persists Workspace.id (λ z. z.id ≡ m.workspace_id) x w.workspaces (λ y hy e p. e ∙ p) v
          row its;
  }

  pub save_member-IsSound :
      (m : WorkspaceMember) (w : World)
      → HasUser m.user_id w
      → HasWorkspace m.workspace_id w
      → IsSound w
      → IsSound (save_member m w).1
  unfolding save_member
  save_member-IsSound m w user workspace h = record {
    users_keyed = h.users_keyed;
    emails = h.emails;
    workspaces_keyed = h.workspaces_keyed;
    members_keyed = save-HasKeys m w.members h.members_keyed;
    users_exist = λ y k. elim (orm.save_has same_member m w.members y k) [
      | inl e ↦ subst (λ z. HasUser (WorkspaceMember.user_id z) w) (sym e) user
      | inr (old, _) ↦ h.users_exist y old
    ];
    workspaces_exist = λ y k. elim (orm.save_has same_member m w.members y k) [
      | inl e ↦ subst (λ z. HasWorkspace (WorkspaceMember.workspace_id z) w) (sym e) workspace
      | inr (old, _) ↦ h.workspaces_exist y old
    ];
  }

  -- The removals, with the memberships that go by `onDelete: 'CASCADE'`.
  pub remove_user-IsSound :
      (u : User) (w : World)
      → Has u w.users
      → IsSound w
      → IsSound (record w {
        users = orm.remove (by User.id) u w.users;
        members = orm.delete (λ m. m.user_id == u.id) w.members;
      })
  remove_user-IsSound u w row h = record {
    users_keyed = remove-IsKeyed User.id u w.users h.users_keyed;
    emails = λ a b ha hb.
        h.emails a b (orm.remove_has (by User.id) u w.users a ha).0
          (orm.remove_has (by User.id) u w.users b hb).0;
    workspaces_keyed = h.workspaces_keyed;
    members_keyed = λ a b ha hb.
        h.members_keyed a b (orm.delete_has _ w.members a ha).0 (orm.delete_has _ w.members b hb).0;
    users_exist = λ m k.
        let (kept, other) = orm.delete_has (λ x. x.user_id == u.id) w.members m k in
        let (v, there, its) = h.users_exist m kept in
        (v, orm.remove_keeps (by User.id) u w.users v there (ground arith), its);
    workspaces_exist =
        λ m k. h.workspaces_exist m (orm.delete_has (λ x. x.user_id == u.id) w.members m k).0;
  }

  pub remove_workspace-IsSound :
      (x : Workspace) (w : World)
      → IsSound w
      → IsSound (record w {
        workspaces = orm.remove same_workspace x w.workspaces;
        members = orm.delete (λ m. m.workspace_id == x.id) w.members;
      })
  remove_workspace-IsSound x w h = record {
    users_keyed = h.users_keyed;
    emails = h.emails;
    workspaces_keyed = remove-IsKeyed Workspace.id x w.workspaces h.workspaces_keyed;
    members_keyed = λ a b ha hb.
        h.members_keyed a b (orm.delete_has _ w.members a ha).0 (orm.delete_has _ w.members b hb).0;
    users_exist =
        λ m k. h.users_exist m (orm.delete_has (λ y. y.workspace_id == x.id) w.members m k).0;
    workspaces_exist = λ m k.
        let (kept, other) = orm.delete_has (λ y. y.workspace_id == x.id) w.members m k in
        let (v, there, its) = h.workspaces_exist m kept in
        (v, orm.remove_keeps same_workspace x w.workspaces v there (ground arith), its);
  }

  pub remove_member-IsSound :
      (m : WorkspaceMember) (w : World)
      → IsSound w
      → IsSound (record w { members = orm.remove same_member m w.members })
  remove_member-IsSound m w h = record {
    users_keyed = h.users_keyed;
    emails = h.emails;
    workspaces_keyed = h.workspaces_keyed;
    members_keyed = λ a b ha hb.
        h.members_keyed a b (orm.remove_has same_member m w.members a ha).0
          (orm.remove_has same_member m w.members b hb).0;
    users_exist = λ y k. h.users_exist y (orm.remove_has same_member m w.members y k).0;
    workspaces_exist = λ y k. h.workspaces_exist y (orm.remove_has same_member m w.members y k).0;
  }
