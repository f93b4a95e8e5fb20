-- ===== src/Auth/Interface.antt =====
-- The libraries that src/modules/auth calls, with what they document: signed tokens that expire
-- (@nestjs/jwt) and a cache whose entries expire (cache-manager).
use api_wa_automation.Base.{ℕ, ◌+◌, ◌≤◌, ◌<◌, ◌≡◌, ◌≢◌, Option, none, some, List}
use api_wa_automation.Base.Text.{Text, truthy}
use api_wa_automation.Data.Tenancy.{Key}
use api_wa_automation.Data.Accounts.{CacheEntry}

pub record JwtPayload : Type 0 where
  pub sub : Key
  pub email : Text

-- `sign secret expires_in now payload`; `lifetime` reads a span such as `30d` in seconds. `verify`
-- is `none` where the library throws. A token is not the empty text.
pub record Jwt : Type 0 where
  pub sign : Text → Text → ℕ → JwtPayload → Text
  pub verify : Text → ℕ → Text → Option JwtPayload
  pub lifetime : Text → ℕ
  pub verify-sign :
      (secret expires_in : Text) (now later : ℕ) (payload : JwtPayload)
      → now ≤ later
      → later < now + lifetime expires_in
      → verify secret later (sign secret expires_in now payload) ≡ some payload
  pub truthy-sign :
      (secret expires_in : Text) (now : ℕ) (payload : JwtPayload)
      → truthy (some (sign secret expires_in now payload))
        ≡ some (sign secret expires_in now payload)

-- `set now key value ttl`
pub record Cache : Type 0 where
  pub get : ℕ → Key → List CacheEntry → Option Text
  pub set : ℕ → Key → Text → ℕ → List CacheEntry → List CacheEntry
  pub del : Key → List CacheEntry → List CacheEntry
  pub get-set :
      (now later ttl : ℕ) (key : Key) (value : Text) (s : List CacheEntry)
      → now ≤ later
      → later < now + ttl
      → get later key (set now key value ttl s) ≡ some value
  pub get-set_expired :
      (now later ttl : ℕ) (key : Key) (value : Text) (s : List CacheEntry)
      → now + ttl ≤ later
      → get later key (set now key value ttl s) ≡ none
  pub get-set_other :
      (now later ttl : ℕ) (key other : Key) (value : Text) (s : List CacheEntry)
      → other ≢ key
      → get later other (set now key value ttl s) ≡ get later other s
  pub get-del : (later : ℕ) (key : Key) (s : List CacheEntry) → get later key (del key s) ≡ none
  pub get-del_other :
      (later : ℕ) (key other : Key) (s : List CacheEntry)
      → other ≢ key
      → get later other (del key s) ≡ get later other s
