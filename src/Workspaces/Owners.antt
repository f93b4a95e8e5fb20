-- ===== src/Workspaces/Owners.antt =====
-- Inviting and removing members: what happens to memberships, those of owners above all.
use api_wa_automation.Base.{
  true, false, ◌≡◌, sym, subst, ◌⊎◌, inl, inr, some, List, Has, arith, Option-cases, Bool-cases,
}
use api_wa_automation.Orm.{Orm}
use api_wa_automation.Data.Tenancy.{Key, WorkspaceMember, owner, role_eq, same_member}
use api_wa_automation.World.{World}
use api_wa_automation.Workspaces.{managers, is_membership, remove_member}
use api_wa_automation.Workspaces.Access.{assert_role_sound}

-- The primary key of the table: at most one row for a workspace and a user.
abbrev pub HasKeys : List WorkspaceMember → Type 0
HasKeys t = (a b : WorkspaceMember) → Has a t → Has b t → same_member a b ≡ true → a ≡ b

module _ ⦃orm : Orm⦄ where
  removed-keeps_owner :
      (id target : Key) (t : List WorkspaceMember) (m x : WorkspaceMember)
      → HasKeys t
      → Has m t
      → m.role ≡ owner
      → orm.find_one (is_membership id target) t ≡ some x
      → role_eq x.role owner ≡ false
      → Has m (orm.remove same_member x t)
  removed-keeps_owner id target t m x keys h o found other =
      orm.remove_keeps same_member x t m h (elim (Bool-cases (same_member x m)) [
        | inl same ↦
            let e : x ≡ m =
              keys x m (orm.find_one_has (is_membership id target) t x found) h same in
            let f : role_eq m.role owner ≡ false =
              subst (λ z. role_eq (WorkspaceMember.role z) owner ≡ false) e other in
            ground arith
        | inr differs ↦ differs
      ])

  -- `removeMember` leaves the memberships alone, or removes one that is not an owner's.
  remove_member_cases :
      (id user_id target : Key) (w : World)
      → ((remove_member id user_id target w).1.members ≡ w.members)
        ⊎ ((x : WorkspaceMember) × (orm.find_one (is_membership id target) w.members ≡ some x)
            × (role_eq x.role owner ≡ false)
            × ((remove_member id user_id target w).1.members ≡ orm.remove same_member x w.members))
  unfolding remove_member
  remove_member_cases id user_id target w = elim (assert_role_sound id user_id managers w) [
    | inr (reason, e) ↦ inl (ground arith)
    | inl (caller, e, allowed) ↦
        elim (Option-cases (orm.find_one (is_membership id target) w.members)) [
          | inl missing ↦ inl (ground arith)
          | inr (x, found) ↦ elim (Bool-cases (role_eq x.role owner)) [
            | inl is_owner ↦ inl (ground arith)
            | inr other ↦ inr (x, found, other, ground arith)
          ]
        ]
  ]

  -- Where a workspace and a user have one membership at most, no call of `removeMember` takes
  -- away a membership in the role of owner, whoever makes it.
  pub remove_member-keeps_owner :
      (id user_id target : Key) (w : World) (m : WorkspaceMember)
      → HasKeys w.members
      → Has m w.members
      → m.role ≡ owner
      → Has m (remove_member id user_id target w).1.members
  remove_member-keeps_owner id user_id target w m keys h o =
      elim (remove_member_cases id user_id target w) [
        | inl same ↦ subst (Has m) (sym same) h
        | inr (x, found, other, e) ↦
            subst (Has m) (sym e) (removed-keeps_owner id target w.members m x keys h o found other)
      ]
