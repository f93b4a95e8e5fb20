-- ===== src/Tests/Accounts.antt =====
-- The theorems on users, applied to the small state with a user.
use api_wa_automation.Base.{true, ◌≡◌, ◌⊎◌, some, [], ◌∷◌, Has}
use api_wa_automation.Base.Text.{codes, text_eq, text_eq_refl}
use api_wa_automation.Orm.Lists.{list_orm}
use api_wa_automation.Data.Accounts.{User}
use api_wa_automation.Data.Campaign.{draft}
use api_wa_automation.World.{World, ok, err, bad_request}
use api_wa_automation.Users.{Bcrypt, NewUser, has_email, create, validate_credentials}
use api_wa_automation.Users.Passwords.{create-validate_credentials}
use api_wa_automation.Tests.{plain_js, small_world}

-- A hash that can be read.
instance abbrev pub open_bcrypt : Bcrypt
open_bcrypt = record {
  hash = λ salt password. password;
  compare = text_eq;
  compare-hash = λ salt password. text_eq_refl password;
}

abbrev pub eve : User
eve = record {
  id = 8;
  name = codes "Eve";
  email = codes "eve@x";
  password = codes "old";
  is_active = true;
}

abbrev pub world_with_eve : World
world_with_eve = record (small_world draft) { users = eve ∷ [] }

abbrev pub registration : NewUser
registration = record { name = codes "Dan"; email = codes "dan@x"; password = codes "pw" }

create-validate_credentials_example :
    let (r, w') = create (codes "salt") registration world_with_eve in
    ((u : User) × Has u (eve ∷ [])
      × (has_email (codes "dan@x") u ≡ true)
      × (r ≡ err (bad_request "Email already registered"))
      × (w' ≡ world_with_eve))
    ⊎ ((u : User) × (r ≡ ok u)
        × (validate_credentials (codes "dan@x") (codes "pw") w' ≡ (ok (some u), w')))
create-validate_credentials_example =
    create-validate_credentials (codes "salt") registration world_with_eve
