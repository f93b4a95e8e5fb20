-- ===== src/Users.antt =====
-- src/modules/users/users.service.ts: accounts, found by their email in lower case.
pub mod Passwords
use api_wa_automation.Base.{
  ℕ, Bool, true, false, not, ◌&&◌, ◌≡◌, Option, none, some, ◌==◌, if◌then◌else◌,
}
use api_wa_automation.Base.Text.{Text, text_eq}
use api_wa_automation.Value.{Js}
use api_wa_automation.Orm.{Orm}
use api_wa_automation.Orm.Laws.{by}
use api_wa_automation.Data.Tenancy.{Key}
use api_wa_automation.Data.Accounts.{User}
use api_wa_automation.World.{
  World, Action, bad_request, not_found, pure, gets, modify, or_throw, throw_if, throw, ◌>>=◌, ◌>>◌,
}

-- The bcrypt library: a hash is made with a salt, and the password it was made of passes.
pub record Bcrypt : Type 0 where
  pub hash : Text → Text → Text
  pub compare : Text → Text → Bool
  pub compare-hash : (salt password : Text) → compare password (hash salt password) ≡ true

pub record NewUser : Type 0 where
  pub name : Text
  pub email : Text
  pub password : Text

pub record ChangePasswordDto : Type 0 where
  pub current_password : Text
  pub new_password : Text

abbrev pub has_email : Text → User → Bool
has_email email u = text_eq u.email email

abbrev pub has_user_key : Key → User → Bool
has_user_key id u = u.id == id

module _ ⦃orm : Orm⦄ where
  unfoldable pub save_user : User → Action User
  save_user u = do modify (λ w. record w { users = orm.save (by User.id) u w.users }); pure u

  unfoldable pub find_by_id : Key → Action User
  find_by_id id = gets (λ w. orm.find_one (has_user_key id) w.users) >>= λ u.
      or_throw (not_found "User not found") u

  -- `name` is the only field of the DTO.
  unfoldable pub update : Key → Option Text → Action User
  update id name = do
    u ← find_by_id id
    save_user (record u { name = elim name [ none ↦ u.name | some n ↦ n ] })

  unfoldable pub remove : Key → Action (Unit {0})
  remove id = do
    u ← find_by_id id
    -- The memberships follow by `onDelete: 'CASCADE'`.
    modify (λ w. record w {
      users = orm.remove (by User.id) u w.users;
      members = orm.delete (λ m. m.user_id == u.id) w.members;
    })

module _ ⦃orm : Orm⦄ ⦃js : Js⦄ where
  unfoldable pub find_by_email : Text → Action (Option User)
  find_by_email email = gets (λ w. orm.find_one (has_email (js.to_lower_case email)) w.users)

module _ ⦃orm : Orm⦄ ⦃js : Js⦄ ⦃bcrypt : Bcrypt⦄ where
  abbrev pub new_user : Text → Key → NewUser → User
  new_user salt id dto = record {
    id = id;
    name = dto.name;
    email = js.to_lower_case dto.email;
    password = bcrypt.hash salt dto.password;
    is_active = true;
  }

  -- `salt` stands for the one that bcrypt draws.
  unfoldable pub create : Text → NewUser → Action User
  create salt dto = do
    existing ← find_by_email dto.email
    id ← gets (λ w. orm.new_key User.id w.users)
    elim existing [
      | some u ↦ throw (bad_request "Email already registered")
      | none ↦ save_user (new_user salt id dto)
    ]

  unfoldable pub change_password : Text → Key → ChangePasswordDto → Action (Unit {0})
  change_password salt id dto = do
    u ← find_by_id id
    throw_if (not (bcrypt.compare dto.current_password u.password))
        (bad_request "Current password is incorrect")
    save_user (record u { password = bcrypt.hash salt dto.new_password })
    pure tt

  -- The user that an email finds, if it is active and the password is its.
  abbrev pub check : Text → Option User → Option User
  check password none = none
  check password (some u) =
      if u.is_active && bcrypt.compare password u.password then some u else none

  unfoldable pub validate_credentials : Text → Text → Action (Option User)
  validate_credentials email password = do found ← find_by_email email; pure (check password found)
