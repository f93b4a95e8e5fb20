-- ===== src/Auth/Caches.antt =====
-- A cache and tokens that have the laws which src/modules/auth relies on.
use api_wa_automation.Base.{
  ℕ, ◌+◌, ltb, ◌==◌, ◌&&◌, ◌≡◌, ◌≢◌, refl, inl, inr, Option, none, some, List, [], ◌∷◌,
  if◌then◌else◌, Bool-cases, arith,
}
use api_wa_automation.Base.Text.{Text}
use api_wa_automation.Data.Tenancy.{Key}
use api_wa_automation.Data.Accounts.{CacheEntry}
use api_wa_automation.Auth.Interface.{JwtPayload, Jwt, Cache}

-- The newest entry for a key counts.
abbrev list_get : ℕ → Key → List CacheEntry → Option Text
list_get now key [] = none
list_get now key (e ∷ s) =
    if e.key == key then (if ltb now e.until then some e.value else none) else list_get now key s

abbrev list_set : ℕ → Key → Text → ℕ → List CacheEntry → List CacheEntry
list_set now key value ttl s = record { key = key; value = value; until = now + ttl } ∷ s

abbrev list_del : Key → List CacheEntry → List CacheEntry
list_del key [] = []
list_del key (e ∷ s) = if e.key == key then list_del key s else e ∷ list_del key s

pub get-del_lem :
    (later : ℕ) (key : Key) (s : List CacheEntry) → list_get later key (list_del key s) ≡ none
get-del_lem later key [] = refl
get-del_lem later key (e ∷ s) = elim (Bool-cases (e.key == key)) [
  | inl same ↦ rw same (get-del_lem later key s)
  | inr other ↦ let rest = get-del_lem later key s in ground arith
]

pub get-del_other_lem :
    (later : ℕ) (key other : Key) (s : List CacheEntry)
    → other ≢ key
    → list_get later other (list_del key s) ≡ list_get later other s
get-del_other_lem later key other [] h = refl
get-del_other_lem later key other (e ∷ s) h =
    let rest = get-del_other_lem later key other s h in
    elim (Bool-cases (e.key == key)) [
      | inl same ↦ ground arith
      | inr differs ↦ elim (Bool-cases (e.key == other)) [
        | inl t ↦ ground arith
        | inr f ↦ ground arith
      ]
    ]

instance abbrev pub list_cache : Cache
list_cache = record {
  get = list_get;
  set = list_set;
  del = list_del;
  get-set = λ now later ttl key value s lo hi. ground arith;
  get-set_expired = λ now later ttl key value s late. ground arith;
  get-set_other = λ now later ttl key other value s h. ground arith;
  get-del = get-del_lem;
  get-del_other = get-del_other_lem;
}

abbrev sum : Text → ℕ
sum [] = 0
sum (x ∷ s) = x + sum s

abbrev plain_verify : Text → ℕ → Text → Option JwtPayload
plain_verify secret now (until ∷ sub ∷ mark ∷ email) =
    if ltb now until && mark == sum secret then some (record { sub = sub; email = email }) else none
plain_verify secret now _ = none

abbrev plain_sign : Text → Text → ℕ → JwtPayload → Text
plain_sign secret expires_in now payload = (now + 900) ∷ payload.sub ∷ sum secret ∷ payload.email

-- Tokens that say when they expire, and for whom; every span is a quarter of an hour.
instance abbrev pub plain_jwt : Jwt
plain_jwt = record {
  sign = plain_sign;
  verify = plain_verify;
  lifetime = λ expires_in. 900;
  verify-sign = λ secret expires_in now later payload lo hi. ground arith;
  truthy-sign = λ secret expires_in now payload. refl;
}
