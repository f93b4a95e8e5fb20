-- ===== src/Auth/Rotation.antt =====
-- Which refresh tokens auth.service.ts takes.
use api_wa_automation.Base.{
  ℕ, ◌+◌, ◌≤◌, ◌<◌, ◌/◌, ◌≡◌, ◌≢◌, refl, sym, ap, ◌∙◌, ◌⊎◌, inl, inr, none, some, Bool-cases, arith,
}
use api_wa_automation.Base.Text.{Text, text_eq, text_eq_refl, text_eq-eq, truthy}
use api_wa_automation.Data.Tenancy.{Key}
use api_wa_automation.World.{World, ok, err, unauthorized}
use api_wa_automation.Auth.Interface.{Jwt, JwtPayload, Cache}
use api_wa_automation.Auth.{
  JwtConfig, AuthTokens, refresh_ttl, tokens_at, issue_tokens, refresh, refresh_route, logout,
}

module _ ⦃jwt : Jwt⦄ ⦃cache : Cache⦄ (config : JwtConfig) where
  refresh_of_stored :
      (now : ℕ) (id : Key) (email stored presented : Text) (w : World)
      → truthy (cache.get now id w.refresh_tokens) ≡ some stored
      → ((presented ≡ stored)
          × (refresh config now id email presented w
              ≡ issue_tokens config now (record { sub = id; email = email }) w))
        ⊎ ((presented ≢ stored)
            × (refresh config now id email presented w
                ≡ (err (unauthorized "Refresh token revoked or invalid"), w)))
  unfolding refresh
  refresh_of_stored now id email stored presented w h =
      elim (Bool-cases (text_eq stored presented)) [
        | inl e ↦ inl (sym (text_eq-eq stored presented e), ground arith)
        | inr e ↦ let same = text_eq_refl stored in inr (λ k. absurd (ground arith), ground arith)
      ]

  refresh_of_none :
      (now : ℕ) (id : Key) (email presented : Text) (w : World)
      → truthy (cache.get now id w.refresh_tokens) ≡ none
      → refresh config now id email presented w
        ≡ (err (unauthorized "Refresh token revoked or invalid"), w)
  unfolding refresh
  refresh_of_none now id email presented w h = ground arith

  -- In any state whose cache is as issuing tokens to a user left it, whatever else has changed, and at
  -- any time in the 30 days after, the refresh token that came with them is the user's only one that is
  -- taken, and the tokens of the time it is presented are issued for it. Any other is refused, and
  -- nothing changes.
  pub issue_tokens-refresh :
      (now later : ℕ) (payload : JwtPayload) (email presented : Text) (w v : World)
      → v.refresh_tokens ≡ (issue_tokens config now payload w).1.refresh_tokens
      → now ≤ later
      → later < now + refresh_ttl
      → ((presented ≡ (tokens_at config now payload).refresh_token)
          × (refresh config later payload.sub email presented v
              ≡ issue_tokens config later (record { sub = payload.sub; email = email }) v))
        ⊎ ((presented ≢ (tokens_at config now payload).refresh_token)
            × (refresh config later payload.sub email presented v
                ≡ (err (unauthorized "Refresh token revoked or invalid"), v)))
  unfolding issue_tokens
  issue_tokens-refresh now later payload email presented w v kept lo hi =
      refresh_of_stored later payload.sub email (tokens_at config now payload).refresh_token
        presented v
        (ap (λ t. truthy (cache.get later payload.sub t)) kept
          ∙ ap truthy (
              cache.get-set now later refresh_ttl payload.sub
                (tokens_at config now payload).refresh_token w.refresh_tokens lo hi)
          ∙ jwt.truthy-sign config.refresh_secret config.refresh_expires_in (now / 1000) payload)

  -- Once a user has logged out, and until tokens are issued to the user again, every refresh token of
  -- the user is refused, and nothing changes.
  pub logout-refresh :
      (later : ℕ) (id : Key) (email presented : Text) (w : World)
      → let w' = (logout config id w).1 in
        refresh config later id email presented w'
        ≡ (err (unauthorized "Refresh token revoked or invalid"), w')
  unfolding logout
  logout-refresh later id email presented w =
      refresh_of_none later id email presented (logout config id w).1
        (ap truthy (cache.get-del later id w.refresh_tokens))

  -- The route takes the newest refresh token while both its own time and the cache's last, whether or
  -- not the user still exists, and issues the tokens of that time.
  pub refresh_route-issue_tokens :
      (now later : ℕ) (payload : JwtPayload) (w : World)
      → now ≤ later
      → later < now + refresh_ttl
      → later / 1000 < now / 1000 + jwt.lifetime config.refresh_expires_in
      → let w' = (issue_tokens config now payload w).1 in
        refresh_route config later (some (tokens_at config now payload).refresh_token) w'
        ≡ issue_tokens config later payload w'
  unfolding refresh_route
  refresh_route-issue_tokens now later payload w lo hi fresh =
      let t = (tokens_at config now payload).refresh_token in
      let w' = (issue_tokens config now payload w).1 in
      let full =
        jwt.truthy-sign config.refresh_secret config.refresh_expires_in (now / 1000) payload in
      let open_token =
        jwt.verify-sign config.refresh_secret config.refresh_expires_in (now / 1000) (later / 1000)
          payload (omega arith) fresh in
      elim (issue_tokens-refresh now later payload payload.email t w w' refl lo hi) [
        | inl (_, taken) ↦ ground arith
        | inr (differs, _) ↦ absurd (differs refl)
      ]

  -- A refresh in the same second gives the same tokens again: the one presented is not used up.
  refresh-refresh_same_second :
      (now later : ℕ) (payload : JwtPayload) (w : World)
      → now ≤ later
      → later / 1000 ≡ now / 1000
      → later < now + refresh_ttl
      → let t = (tokens_at config now payload).refresh_token in
        let w' = (issue_tokens config now payload w).1 in
        (refresh config later payload.sub payload.email t w').0 ≡ ok (tokens_at config now payload)
  unfolding issue_tokens
  refresh-refresh_same_second now later payload w lo same hi =
      let t = (tokens_at config now payload).refresh_token in
      let w' = (issue_tokens config now payload w).1 in
      elim (issue_tokens-refresh now later payload payload.email t w w' refl lo hi) [
        | inl (_, taken) ↦ ap (λ r. r.0) taken ∙ ap (λ s. ok (at_second s)) same
        | inr (differs, _) ↦ absurd (differs refl)
      ]
    where
      at_second : ℕ → AuthTokens
      at_second s = record {
        access_token = jwt.sign config.secret config.expires_in s payload;
        refresh_token = jwt.sign config.refresh_secret config.refresh_expires_in s payload;
      }
