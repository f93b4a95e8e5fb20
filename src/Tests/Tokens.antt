-- ===== src/Tests/Tokens.antt =====
-- The theorems on tokens, applied to the small state with a user.
use api_wa_automation.Base.{
  ◌==◌, true, ◌≡◌, ◌≢◌, refl, sym, ◌∙◌, ◌⊎◌, inl, inr, some, none, List, [], ◌∷◌, Has, arith,
}
use api_wa_automation.Base.Text.{codes, text_eq}
use api_wa_automation.Orm.Lists.{list_orm}
use api_wa_automation.Orm.Laws.{IsKeyed}
use api_wa_automation.Data.Accounts.{User}
use api_wa_automation.Data.Tenancy.{Session}
use api_wa_automation.Data.Campaign.{draft}
use api_wa_automation.World.{ok, err, unauthorized}
use api_wa_automation.Users.{has_email, find_by_email, validate_credentials}
use api_wa_automation.Auth.Caches.{list_cache, plain_jwt}
use api_wa_automation.Auth.{
  JwtConfig, AuthTokens, LoginDto, tokens_at, payload_of, issue_tokens, refresh, login,
  authenticate,
}
use api_wa_automation.Auth.Tokens.{login-authenticate}
use api_wa_automation.Auth.Rotation.{issue_tokens-refresh}
use api_wa_automation.Guards.Header.{FindOptions, find_all_sessions, find_all_sessions_unscoped}
use api_wa_automation.Tests.{plain_js, small_world, shop_admin, phone_session}
use api_wa_automation.Tests.Accounts.{open_bcrypt, eve, world_with_eve}

abbrev pub config : JwtConfig
config = record {
  secret = codes "s";
  expires_in = codes "15m";
  refresh_secret = codes "r";
  refresh_expires_in = codes "15m";
}

abbrev pub eve_tokens : AuthTokens
eve_tokens = tokens_at config 0 (payload_of eve)

one_user : IsKeyed User.id (eve ∷ [])
one_user a b (inl x) (inl y) e = x ∙ sym y
one_user a b (inl x) (inr y) e = absurd y
one_user a b (inr x) y e = absurd x

abbrev eve_login : LoginDto
eve_login = record { email = codes "eve@x"; password = codes "old" }

eve_logs_in : (login config 0 eve_login world_with_eve).0 ≡ ok (eve, eve_tokens)
unfolding login issue_tokens validate_credentials find_by_email
eve_logs_in = refl

login-authenticate_example :
    let w' = (login config 0 eve_login world_with_eve).1 in
    Has eve (eve ∷ [])
    × (eve.is_active ≡ true)
    × (has_email (codes "eve@x") eve ≡ true)
    × (text_eq (codes "old") eve.password ≡ true)
    × (authenticate config 5000 (some eve_tokens.access_token) w'
        ≡ ok (record { id = 8; email = codes "eve@x" }))
login-authenticate_example =
    login-authenticate config 0 5000 eve_login world_with_eve eve eve_tokens one_user (omega arith)
      (omega arith) eve_logs_in

issue_tokens-refresh_example :
    let w' = (issue_tokens config 0 (payload_of eve) world_with_eve).1 in
    ((codes "stolen" ≡ eve_tokens.refresh_token)
      × (refresh config 5000 8 (codes "eve@x") (codes "stolen") w'
          ≡ issue_tokens config 5000 (payload_of eve) w'))
    ⊎ ((codes "stolen" ≢ eve_tokens.refresh_token)
        × (refresh config 5000 8 (codes "eve@x") (codes "stolen") w'
            ≡ (err (unauthorized "Refresh token revoked or invalid"), w')))
issue_tokens-refresh_example =
    issue_tokens-refresh config 0 5000 (payload_of eve) (codes "eve@x") (codes "stolen")
      world_with_eve (issue_tokens config 0 (payload_of eve) world_with_eve).1 refl (omega arith)
      (omega arith)

instance abbrev pub skipped : FindOptions
skipped = record {
  matches = λ o k. elim o [ none ↦ true | some i ↦ k == i ];
  matches-some = λ i k. refl;
  matches-none = λ k. refl;
}

find_all_sessions_unscoped_example :
    (rows : List Session) × (find_all_sessions none 2 (small_world draft)
      ≡ (ok rows, small_world draft))
    × ((s : Session) → Has s (phone_session ∷ []) → Has s rows)
find_all_sessions_unscoped_example =
    find_all_sessions_unscoped 2 shop_admin (small_world draft) (inr (inl refl)) refl
