-- ===== src/Users/Passwords.antt =====
-- Who passes `validateCredentials` of users.service.ts.
use api_wa_automation.Base.{
  true, false, ◌≡◌, refl, ap, ◌∙◌, ◌⊎◌, inl, inr, some, List, Has, Option-cases, Bool-cases, arith,
}
use api_wa_automation.Base.Text.{Text, text_eq_refl}
use api_wa_automation.Value.{Js}
use api_wa_automation.Orm.{Orm}
use api_wa_automation.Orm.Laws.{by, find_one-save}
use api_wa_automation.Data.Tenancy.{Key}
use api_wa_automation.Data.Accounts.{User}
use api_wa_automation.World.{World, ok, err, bad_request}
use api_wa_automation.Users.{
  Bcrypt, NewUser, ChangePasswordDto, has_email, has_user_key, new_user, save_user, find_by_id,
  find_by_email, create, change_password, validate_credentials,
}

module _ ⦃orm : Orm⦄ where
  -- A row saved among rows that lack its email is the one found by it.
  user-saved :
      (u : User) (t : List User)
      → ((y : User) → Has y t → has_email u.email y ≡ false)
      → orm.find_one (has_email u.email) (orm.save (by User.id) u t) ≡ some u
  user-saved u t fresh =
      elim (Option-cases (orm.find_one (has_email u.email) (orm.save (by User.id) u t))) [
        | inl e ↦
            let lost =
              orm.find_one_absent (has_email u.email) (orm.save (by User.id) u t) e u
                (orm.save_self (by User.id) u t) in
            let own = text_eq_refl u.email in absurd (cc)
        | inr (y, e) ↦
            let test = orm.find_one_test (has_email u.email) (orm.save (by User.id) u t) y e in
            elim (orm.save_has (by User.id) u t y
              (orm.find_one_has (has_email u.email) (orm.save (by User.id) u t) y e)) [
                | inl same ↦ e ∙ ap some same
                | inr (old, _) ↦ let no = fresh y old in absurd (cc)
              ]
      ]

module _ ⦃orm : Orm⦄ ⦃js : Js⦄ ⦃bcrypt : Bcrypt⦄ where
  -- A registration either finds the email taken, is refused and changes nothing, or makes a user who
  -- passes with the email and the password that it was made with.
  pub create-validate_credentials :
      (salt : Text) (dto : NewUser) (w : World)
      → let (r, w') = create salt dto w in
        ((u : User) × Has u w.users
          × (has_email (js.to_lower_case dto.email) u ≡ true)
          × (r ≡ err (bad_request "Email already registered"))
          × (w' ≡ w))
        ⊎ ((u : User) × (r ≡ ok u)
            × (validate_credentials dto.email dto.password w' ≡ (ok (some u), w')))
  unfolding create validate_credentials find_by_email save_user
  create-validate_credentials salt dto w =
      let email = js.to_lower_case dto.email in
      elim (Option-cases (orm.find_one (has_email email) w.users)) [
        | inr (u, e) ↦ inl (
          u,
          orm.find_one_has (has_email email) w.users u e,
          orm.find_one_test (has_email email) w.users u e,
          ground arith,
          ground arith,
        )
        | inl e ↦
            let u = new_user salt (orm.new_key User.id w.users) dto in
            inr (
              u,
              ground arith,
              ground (
                arith,
                bcrypt.compare-hash salt dto.password,
                user-saved u w.users (orm.find_one_absent (has_email email) w.users e),
              ),
            )
      ]

  -- A change of password of a user who is found: without the current password it is refused and
  -- changes nothing; with it, the user is then found by the key with a hash that the new password
  -- passes, and with the same email.
  pub change_password_lem :
      (salt : Text) (id : Key) (dto : ChangePasswordDto) (u : User) (w : World)
      → find_by_id id w ≡ (ok u, w)
      → u.id ≡ id
      → let (r, w') = change_password salt id dto w in
        ((bcrypt.compare dto.current_password u.password ≡ false)
          × (r ≡ err (bad_request "Current password is incorrect"))
          × (w' ≡ w))
        ⊎ ((bcrypt.compare dto.current_password u.password ≡ true)
            × (r ≡ ok tt)
            × ((u' : User) × (find_by_id id w' ≡ (ok u', w'))
                × (u'.email ≡ u.email)
                × (bcrypt.compare dto.new_password u'.password ≡ true)))
  unfolding change_password save_user
  change_password_lem salt id dto u w found own =
      elim (Bool-cases (bcrypt.compare dto.current_password u.password)) [
        | inr wrong ↦ inl (wrong, ground arith, ground arith)
        | inl right ↦
            let u' : User = record u { password = bcrypt.hash salt dto.new_password } in
            let row : orm.find_one (has_user_key id) (orm.save (by User.id) u' w.users) ≡ some u' =
              find_one-save (has_user_key id) (by User.id) u' w.users (ground arith)
                (λ y h. ground arith) in
            let read : find_by_id id (record w { users = orm.save (by User.id) u' w.users })
                ≡ (ok u', record w { users = orm.save (by User.id) u' w.users }) =
              unfold find_by_id in ground arith in
            inr (
              right,
              ground arith,
              (u', ground arith, refl, bcrypt.compare-hash salt dto.new_password),
            )
      ]
