-- ===== src/Encryption.antt =====
-- src/common/helpers/encryption.helper.ts: values stored under AES-256-GCM as `iv:tag:data` in hex.
pub mod RoundTrip
use api_wa_automation.Base.{
  Bool, true, false, ◌≡◌, Option, none, some, List, [], ◌∷◌, ◌++◌, ◌||◌, if◌then◌else◌,
}
use api_wa_automation.Base.Text.{Text, codes, split, IsFree, is_empty}
use api_wa_automation.World.{Exception, plain, Result, ok, err}

-- Node's `crypto` and `Buffer`, with bytes as texts of code units below 256. `decipher` is `none`
-- where `final` throws. The laws are those of AES-GCM, which keeps the length of the plain text and
-- undoes itself under the same key, vector and tag, and of the hex encoding.
pub record Crypto : Type 0 where
  pub sha256 : Text → Text
  pub cipher : Text → Text → Text → Text × Text
  pub decipher : Text → Text → Text → Text → Option Text
  pub to_utf8 : Text → Text
  pub of_utf8 : Text → Text
  pub to_hex : Text → Text
  pub of_hex : Text → Text
  pub decipher-cipher :
      (key iv bytes : Text)
      → decipher key iv (cipher key iv bytes).1 (cipher key iv bytes).0 ≡ some bytes
  pub cipher_empty : (key iv bytes : Text) → is_empty (cipher key iv bytes).0 ≡ is_empty bytes
  pub tag_present : (key iv bytes : Text) → is_empty (cipher key iv bytes).1 ≡ false
  pub of_hex-to_hex : (bytes : Text) → of_hex (to_hex bytes) ≡ bytes
  pub to_hex_free : (bytes : Text) → IsFree b':' (to_hex bytes)
  pub to_hex_empty : (bytes : Text) → is_empty (to_hex bytes) ≡ is_empty bytes
  pub to_utf8_empty : (s : Text) → is_empty (to_utf8 s) ≡ is_empty s

module _ ⦃c : Crypto⦄ where
  abbrev get_key : Text → Text
  get_key secret = c.sha256 (c.to_utf8 secret)

  -- `iv` stands for `randomBytes(12)`.
  unfoldable pub encrypt : Text → Text → Text → Text
  encrypt iv text secret =
      let sealed = c.cipher (get_key secret) iv (c.to_utf8 text) in
      c.to_hex iv ++ b':' ∷ (c.to_hex sealed.1 ++ b':' ∷ c.to_hex sealed.0)

  -- The three parts that the destructuring binds, each "" where it is absent.
  abbrev parts : List Text → Text × Text × Text
  parts [] = ([], [], [])
  parts (a ∷ []) = (a, [], [])
  parts (a ∷ b ∷ []) = (a, b, [])
  parts (a ∷ b ∷ d ∷ _) = (a, b, d)

  abbrev finish : Option Text → Result Text
  finish none = err (plain (codes "Unsupported state or unable to authenticate data"))
  finish (some bytes) = ok (c.of_utf8 bytes)

  unfoldable pub decrypt : Text → Text → Result Text
  decrypt payload secret =
      let (iv_hex, tag_hex, data_hex) = parts (split b':' payload) in
      if is_empty iv_hex || is_empty tag_hex || is_empty data_hex
      then err (plain (codes "Invalid encrypted payload format"))
      else finish
          (c.decipher (get_key secret) (c.of_hex iv_hex) (c.of_hex tag_hex) (c.of_hex data_hex))

  unfoldable pub sha256 : Text → Text
  sha256 value = c.to_hex (c.sha256 (c.to_utf8 value))
