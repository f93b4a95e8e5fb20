-- ===== src/Accounts/Orphans.antt =====
-- What becomes of a workspace when the account of its last member is deleted.
use api_wa_automation.Base.{◌≡◌, sym, subst, some, Has, Bool-cases, inl, inr, ◌==◌, arith}
use api_wa_automation.Base.Text.{Text}
use api_wa_automation.Value.{Js}
use api_wa_automation.Orm.{Orm}
use api_wa_automation.Encryption.{Crypto}
use api_wa_automation.Openwa.{Server}
use api_wa_automation.Data.Accounts.{User}
use api_wa_automation.Data.Tenancy.{Key, Workspace, WorkspaceMember}
use api_wa_automation.World.{World, Ambient, err, forbidden}
use api_wa_automation.Users
use api_wa_automation.Users.{has_user_key, find_by_id}
use api_wa_automation.Workspaces.{is_membership}
use api_wa_automation.Workspaces.Access.{IsOutsider}
use api_wa_automation.Api.{Request, handle}
use api_wa_automation.Api.Access.{handle-outsider}

module _ ⦃orm : Orm⦄ where
  remove-IsOutsider :
      (id uid : Key) (u : User) (ws : Key) (w : World)
      → orm.find_one (has_user_key id) w.users ≡ some u
      → ((m : WorkspaceMember) → Has m w.members → m.workspace_id ≡ ws → m.user_id ≡ u.id)
      → IsOutsider ws uid (Users.remove id w).1
  unfolding Users.remove find_by_id
  remove-IsOutsider id uid u ws w e only m h =
      let members : (Users.remove id w).1.members ≡ orm.delete (λ y. y.user_id == u.id) w.members =
        ground arith in
      let (row, other) =
        orm.delete_has (λ y. y.user_id == u.id) w.members m (subst (Has m) members h) in
      elim (Bool-cases (is_membership ws uid m)) [
        | inr away ↦ away
        | inl here ↦ let its = only m row (ground arith) in absurd (ground arith)
      ]

module _ ⦃orm : Orm⦄ ⦃js : Js⦄ ⦃c : Crypto⦄ ⦃server : Server⦄ (enc_key : Text) where
  -- In the state that is left when the only user with memberships of a workspace deletes the account, the
  -- workspace is still there, and a request that names it, of whichever endpoint of Api and of
  -- whichever user, is refused and changes nothing.
  pub remove-orphans :
      (here : Ambient) (id uid : Key) (u : User) (x : Workspace) (r : Request) (w : World)
      → orm.find_one (has_user_key id) w.users ≡ some u
      → Has x w.workspaces
      → ((m : WorkspaceMember) → Has m w.members → m.workspace_id ≡ x.id → m.user_id ≡ u.id)
      → let w' = (Users.remove id w).1 in
        Has x w'.workspaces
        × (handle enc_key here x.id uid r w'
            ≡ (err (forbidden "You are not a member of this workspace"), w'))
  unfolding Users.remove find_by_id
  remove-orphans here id uid u x r w e row only =
      let workspaces : (Users.remove id w).1.workspaces ≡ w.workspaces = ground arith in
      (
        subst (Has x) (sym workspaces) row,
        handle-outsider enc_key here x.id uid r (Users.remove id w).1
            (remove-IsOutsider id uid u x.id w e only),
      )
