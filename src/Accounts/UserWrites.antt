-- ===== src/Accounts/UserWrites.antt =====
-- The methods of users.service.ts keep the constraints between users, workspaces and memberships.
use api_wa_automation.Base.{
  true, false, ◌≡◌, refl, sym, ap, ◌∙◌, subst, inl, inr, Option, none, some, Option-cases,
  Bool-cases, ◌==◌, arith,
}
use api_wa_automation.Base.Text.{Text, text_eq, text_eq_refl}
use api_wa_automation.Value.{Js}
use api_wa_automation.Orm.{Orm}
use api_wa_automation.Orm.Laws.{by}
use api_wa_automation.Data.Accounts.{User}
use api_wa_automation.Data.Tenancy.{Key}
use api_wa_automation.World.{World}
use api_wa_automation.Users
use api_wa_automation.Users.{
  Bcrypt, NewUser, ChangePasswordDto, has_email, has_user_key, new_user, save_user, find_by_id,
  find_by_email, validate_credentials,
}
use api_wa_automation.Accounts.Integrity.{
  IsSound, save_new_user-IsSound, save_user-IsSound, remove_user-IsSound,
}

module _ ⦃orm : Orm⦄ ⦃js : Js⦄ ⦃bcrypt : Bcrypt⦄ where
  pub create_user-IsSound :
      (salt : Text) (dto : NewUser) (w : World) → IsSound w → IsSound (Users.create salt dto w).1
  unfolding Users.create find_by_email
  create_user-IsSound salt dto w h =
      let email = js.to_lower_case dto.email in
      elim (Option-cases (orm.find_one (has_email email) w.users)) [
        | inr (u, e) ↦
            let same : (Users.create salt dto w).1 ≡ w = ground arith in subst IsSound (sym same) h
        | inl e ↦
            let u = new_user salt (orm.new_key User.id w.users) dto in
            let saved : (Users.create salt dto w).1 ≡ (save_user u w).1 = ground arith in
            subst IsSound (sym saved) (
              save_new_user-IsSound u w
                (λ y row k.
                  let no : has_email email y ≡ false =
                    orm.find_one_absent (has_email email) w.users e y row in
                  let yes : has_email email y ≡ true =
                    ap (λ t. text_eq t email) k ∙ text_eq_refl email in
                  absurd (cc))
                h)
      ]

  pub change_password-IsSound :
      (salt : Text) (uid : Key) (dto : ChangePasswordDto) (w : World)
      → IsSound w
      → IsSound (Users.change_password salt uid dto w).1
  unfolding Users.change_password find_by_id
  change_password-IsSound salt uid dto w h =
      elim (Option-cases (orm.find_one (has_user_key uid) w.users)) [
        | inl e ↦
            let same : (Users.change_password salt uid dto w).1 ≡ w = ground arith in
            subst IsSound (sym same) h
        | inr (u, e) ↦ elim (Bool-cases (bcrypt.compare dto.current_password u.password)) [
          | inr wrong ↦
              let same : (Users.change_password salt uid dto w).1 ≡ w = ground arith in
              subst IsSound (sym same) h
          | inl right ↦
              let v : User = record u { password = bcrypt.hash salt dto.new_password } in
              let saved : (Users.change_password salt uid dto w).1 ≡ (save_user v w).1 =
                ground arith in
              subst IsSound (sym saved) (
                save_user-IsSound v u w (orm.find_one_has (has_user_key uid) w.users u e) refl refl
                  h)
        ]
      ]

module _ ⦃orm : Orm⦄ where
  pub update_user-IsSound :
      (uid : Key) (name : Option Text) (w : World) → IsSound w → IsSound (Users.update uid name w).1
  unfolding Users.update find_by_id
  update_user-IsSound uid name w h = elim (Option-cases (orm.find_one (has_user_key uid) w.users)) [
    | inl e ↦
        let same : (Users.update uid name w).1 ≡ w = ground arith in subst IsSound (sym same) h
    | inr (u, e) ↦
        let v : User = record u { name = elim name [ none ↦ u.name | some n ↦ n ] } in
        let saved : (Users.update uid name w).1 ≡ (save_user v w).1 = ground arith in
        subst IsSound (sym saved)
          (save_user-IsSound v u w (orm.find_one_has (has_user_key uid) w.users u e) refl refl h)
  ]

  pub remove_user_lem : (uid : Key) (w : World) → IsSound w → IsSound (Users.remove uid w).1
  unfolding Users.remove find_by_id
  remove_user_lem uid w h = elim (Option-cases (orm.find_one (has_user_key uid) w.users)) [
    | inl e ↦ let same : (Users.remove uid w).1 ≡ w = ground arith in subst IsSound (sym same) h
    | inr (u, e) ↦
        let v : World = record w {
          users = orm.remove (by User.id) u w.users;
          members = orm.delete (λ m. m.user_id == u.id) w.members;
        } in
        let removed : (Users.remove uid w).1 ≡ v = ground arith in
        subst IsSound (sym removed)
          (remove_user-IsSound u w (orm.find_one_has (has_user_key uid) w.users u e) h)
  ]
