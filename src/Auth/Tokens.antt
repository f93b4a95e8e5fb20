-- ===== src/Auth/Tokens.antt =====
-- The tokens that auth.service.ts gives out open the routes that are not public.
use api_wa_automation.Base.{
  ℕ, ◌+◌, ◌≤◌, ◌<◌, ◌/◌, true, ◌≡◌, refl, ◌⊎◌, inl, inr, Option, none, some, Has, Option-cases,
  Bool-cases, arith,
}
use api_wa_automation.Base.Text.{Text}
use api_wa_automation.Value.{Js}
use api_wa_automation.Orm.{Orm}
use api_wa_automation.Orm.Laws.{IsKeyed, find_one-keyed}
use api_wa_automation.Data.Accounts.{User}
use api_wa_automation.World.{World, Exception, ok, err, unauthorized}
use api_wa_automation.Users.{
  Bcrypt, has_email, has_user_key, find_by_id, find_by_email, validate_credentials,
}
use api_wa_automation.Auth.Interface.{Jwt, JwtPayload, Cache}
use api_wa_automation.Auth.{
  JwtConfig, AuthTokens, LoginDto, issue_tokens, tokens_at, payload_of, login, validate_payload,
  authenticate,
}

module _ ⦃orm : Orm⦄ ⦃js : Js⦄ ⦃bcrypt : Bcrypt⦄ where
  -- Credentials that pass are an active user's of the table.
  validate_credentials_sound :
      (email password : Text) (w : World)
      → (validate_credentials email password w ≡ (ok none, w))
        ⊎ ((u : User) × (validate_credentials email password w ≡ (ok (some u), w))
            × Has u w.users
            × (u.is_active ≡ true)
            × (has_email (js.to_lower_case email) u ≡ true)
            × (bcrypt.compare password u.password ≡ true))
  unfolding validate_credentials find_by_email
  validate_credentials_sound email password w =
      let p = has_email (js.to_lower_case email) in
      elim (Option-cases (orm.find_one p w.users)) [
        | inl e ↦ inl (ground arith)
        | inr (u, e) ↦ elim (Bool-cases u.is_active) [
          | inr idle ↦ inl (ground arith)
          | inl active ↦ elim (Bool-cases (bcrypt.compare password u.password)) [
            | inr wrong ↦ inl (ground arith)
            | inl right ↦ inr (
              u,
              ground arith,
              orm.find_one_has p w.users u e,
              active,
              orm.find_one_test p w.users u e,
              right,
            )
          ]
        ]
      ]

module _ ⦃orm : Orm⦄ ⦃js : Js⦄ ⦃bcrypt : Bcrypt⦄ ⦃jwt : Jwt⦄ ⦃cache : Cache⦄
    (config : JwtConfig) where
  -- Where the users have one row for a key, a login that succeeds is an active user's with that email
  -- and a password that passes, and its access token is the user's on every route, until its time is
  -- over and as long as the users are as they were.
  pub login-authenticate :
      (now later : ℕ) (dto : LoginDto) (w : World) (u : User) (tokens : AuthTokens)
      → IsKeyed User.id w.users
      → now / 1000 ≤ later / 1000
      → later / 1000 < now / 1000 + jwt.lifetime config.expires_in
      → (login config now dto w).0 ≡ ok (u, tokens)
      → let w' = (login config now dto w).1 in
        Has u w.users
        × (u.is_active ≡ true)
        × (has_email (js.to_lower_case dto.email) u ≡ true)
        × (bcrypt.compare dto.password u.password ≡ true)
        × (authenticate config later (some tokens.access_token) w'
            ≡ ok (record { id = u.id; email = u.email }))
  unfolding login issue_tokens authenticate validate_payload find_by_id
  login-authenticate now later dto w u tokens keyed lo hi h =
      elim (validate_credentials_sound dto.email dto.password w) [
        | inl e ↦ absurd (ground arith)
        | inr (v, e, row, active, mail, right) ↦
            let same : u ≡ v = ground arith in
            let given : tokens ≡ tokens_at config now (payload_of v) = ground arith in
            let found : orm.find_one (has_user_key v.id) w.users ≡ some v =
              find_one-keyed User.id (has_user_key v.id) v w.users keyed row (ground arith)
                (λ y k. ground arith) in
            let open_token =
              jwt.verify-sign config.secret config.expires_in (now / 1000) (later / 1000)
                (payload_of v) lo hi in
            let users : (login config now dto w).1.users ≡ w.users = ground arith in
            rw (same, given) (row, active, mail, right, ground arith)
      ]

module _ ⦃orm : Orm⦄ ⦃jwt : Jwt⦄ (config : JwtConfig) where
  -- A token that passes is one that verifies, of a user of the table that is active.
  pub authenticate_sound :
      (now : ℕ) (token : Option Text) (w : World)
      → ((e : Exception) × (authenticate config now token w ≡ err e))
        ⊎ ((t : Text) × (payload : JwtPayload) × (u : User) × (token ≡ some t)
            × (jwt.verify config.secret (now / 1000) t ≡ some payload)
            × Has u w.users
            × (u.id ≡ payload.sub)
            × (u.is_active ≡ true)
            × (authenticate config now token w ≡ ok (record { id = u.id; email = u.email })))
  unfolding authenticate validate_payload find_by_id
  authenticate_sound now none w = inl (unauthorized "Invalid or missing token", refl)
  authenticate_sound now (some t) w =
      elim (Option-cases (jwt.verify config.secret (now / 1000) t)) [
        | inl e ↦ inl (unauthorized "Invalid or missing token", ground arith)
        | inr (payload, e) ↦
            let p = has_user_key payload.sub in
            elim (Option-cases (orm.find_one p w.users)) [
              | inl d ↦ inl (unauthorized "User no longer valid", ground arith)
              | inr (u, d) ↦ elim (Bool-cases u.is_active) [
                | inr idle ↦ inl (unauthorized "User no longer valid", ground arith)
                | inl active ↦
                    let same = orm.find_one_test p w.users u d in
                    inr (
                      t,
                      payload,
                      u,
                      refl,
                      e,
                      orm.find_one_has p w.users u d,
                      ground arith,
                      active,
                      ground arith,
                    )
              ]
            ]
      ]
