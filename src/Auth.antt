-- ===== src/Auth.antt =====
-- src/modules/auth: registration, login and the refresh tokens (auth.service.ts), and the passport
-- strategies that turn a token into a user (strategies/*.ts). The cache holds one refresh token for
-- a user. `now` is the time of an operation in milliseconds; the clock stands still in it.
pub mod Interface
pub mod Caches
pub mod Tokens
pub mod Rotation
use api_wa_automation.Base.{
  ℕ, ◌/◌, Bool, true, false, not, ◌||◌, Option, none, some, List, if◌then◌else◌,
}
use api_wa_automation.Base.Text.{Text, text_eq, truthy}
use api_wa_automation.Value.{Js}
use api_wa_automation.Orm.{Orm}
use api_wa_automation.Data.Tenancy.{Key}
use api_wa_automation.Data.Accounts.{User}
use api_wa_automation.World.{
  World, Action, Result, ok, err, Exception, unauthorized, not_found, pure, gets, modify, or_throw,
  throw_if, throw, ◌>>=◌, ◌>>◌,
}
use api_wa_automation.Users
use api_wa_automation.Users.{Bcrypt, NewUser, find_by_id, validate_credentials}
use api_wa_automation.Auth.Interface.{Jwt, JwtPayload, Cache}

-- The part `jwt` of the configuration.
pub record JwtConfig : Type 0 where
  pub secret : Text
  pub expires_in : Text
  pub refresh_secret : Text
  pub refresh_expires_in : Text

pub record AuthTokens : Type 0 where
  pub access_token : Text
  pub refresh_token : Text

pub record AuthUser : Type 0 where
  pub id : Key
  pub email : Text

pub record LoginDto : Type 0 where
  pub email : Text
  pub password : Text

-- `2_592_000_000`
abbrev pub refresh_ttl : ℕ
refresh_ttl = 2592000000

abbrev pub payload_of : User → JwtPayload
payload_of u = record { sub = u.id; email = u.email }

-- `!stored || stored !== presentedToken`
abbrev pub is_revoked : Option Text → Text → Bool
is_revoked none presented = true
is_revoked (some stored) presented = not (text_eq stored presented)

-- `!user || !user.isActive`
abbrev pub accept_user : Option User → Result AuthUser
accept_user none = err (unauthorized "User no longer valid")
accept_user (some u) =
    if u.is_active
    then ok (record { id = u.id; email = u.email })
    else err (unauthorized "User no longer valid")

module _ ⦃jwt : Jwt⦄ ⦃cache : Cache⦄ (config : JwtConfig) where
  -- `signAsync`, which dates a token in whole seconds.
  abbrev pub tokens_at : ℕ → JwtPayload → AuthTokens
  tokens_at now payload = record {
    access_token = jwt.sign config.secret config.expires_in (now / 1000) payload;
    refresh_token = jwt.sign config.refresh_secret config.refresh_expires_in (now / 1000) payload;
  }

  unfoldable pub issue_tokens : ℕ → JwtPayload → Action AuthTokens
  issue_tokens now payload = do
    modify (λ w. record w {
      refresh_tokens =
          cache.set now payload.sub (tokens_at now payload).refresh_token refresh_ttl
            w.refresh_tokens;
    })
    pure (tokens_at now payload)

  unfoldable pub refresh : ℕ → Key → Text → Text → Action AuthTokens
  refresh now user_id email presented = do
    stored ← gets (λ w. cache.get now user_id w.refresh_tokens)
    throw_if (is_revoked (truthy stored) presented)
        (unauthorized "Refresh token revoked or invalid")
    issue_tokens now (record { sub = user_id; email = email })

  unfoldable pub logout : Key → Action (Unit {0})
  logout user_id = modify (λ w. record w { refresh_tokens = cache.del user_id w.refresh_tokens })

  -- The route `auth/refresh`: the strategy `jwt-refresh` reads the token of the body and `validate`
  -- passes it on with its payload.
  unfoldable pub refresh_route : ℕ → Option Text → Action AuthTokens
  refresh_route now body = do
    token ← or_throw (unauthorized "Unauthorized") (truthy body)
    payload ←
        or_throw (unauthorized "Unauthorized") (jwt.verify config.refresh_secret (now / 1000) token)
    refresh now payload.sub payload.email token

module _ ⦃orm : Orm⦄ ⦃jwt : Jwt⦄ (config : JwtConfig) where
  -- `validate` of the strategy `jwt`
  unfoldable pub validate_payload : JwtPayload → World → Result AuthUser
  validate_payload payload w = elim (find_by_id payload.sub w).0 [
    | ok u ↦ accept_user (some u)
    | err e ↦ accept_user none
  ]

  -- The user of a bearer token, if it has one that is valid: the guard `jwt` of a route that is not
  -- public, with `handleRequest`.
  abbrev pub check_token : Option JwtPayload → World → Result AuthUser
  check_token none w = err (unauthorized "Invalid or missing token")
  check_token (some payload) w = validate_payload payload w

  unfoldable pub authenticate : ℕ → Option Text → World → Result AuthUser
  authenticate now none w = check_token none w
  authenticate now (some token) w = check_token (jwt.verify config.secret (now / 1000) token) w

module _ ⦃orm : Orm⦄ ⦃js : Js⦄ ⦃bcrypt : Bcrypt⦄ ⦃jwt : Jwt⦄ ⦃cache : Cache⦄
    (config : JwtConfig) where
  unfoldable pub register : ℕ → Text → NewUser → Action (User × AuthTokens)
  register now salt dto = do
    u ← Users.create salt dto
    tokens ← issue_tokens config now (payload_of u)
    pure (u, tokens)

  unfoldable pub login : ℕ → LoginDto → Action (User × AuthTokens)
  login now dto = do
    found ← validate_credentials dto.email dto.password
    u ← or_throw (unauthorized "Invalid credentials") found
    tokens ← issue_tokens config now (payload_of u)
    pure (u, tokens)
