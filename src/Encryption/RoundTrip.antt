-- ===== src/Encryption/RoundTrip.antt =====
-- What `decrypt` makes of what `encrypt` wrote.
use api_wa_automation.Base.{false, ◌≡◌, inl, inr, [], ◌∷◌, ◌++◌, Bool-cases}
use api_wa_automation.Base.Text.{Text, codes, split, split-append, split-IsFree, is_empty}
use api_wa_automation.World.{plain, ok, err}
use api_wa_automation.Encryption.{Crypto, encrypt, decrypt}

module _ ⦃c : Crypto⦄ where
  split-encrypt :
      (a b d : Text)
      → split b':' (c.to_hex a ++ b':' ∷ (c.to_hex b ++ b':' ∷ c.to_hex d))
        ≡ c.to_hex a ∷ c.to_hex b ∷ c.to_hex d ∷ []
  split-encrypt a b d = rw (
    split-append b':' (c.to_hex a) _ (c.to_hex_free a),
    split-append b':' (c.to_hex b) _ (c.to_hex_free b),
    split-IsFree b':' _ (c.to_hex_free d),
  )

  -- A text that is not empty and that UTF-8 can carry comes back from its encryption under a
  -- vector that is not empty.
  pub decrypt-encrypt :
      (iv text secret : Text)
      → is_empty iv ≡ false
      → is_empty text ≡ false
      → c.of_utf8 (c.to_utf8 text) ≡ text
      → decrypt (encrypt iv text secret) secret ≡ ok text
  unfolding encrypt decrypt
  decrypt-encrypt iv text secret hi ht hu = rw split-encrypt (
      simp (
        c.to_hex_empty, hi, c.tag_present, c.cipher_empty, c.to_utf8_empty, ht, c.of_hex-to_hex,
        c.decipher-cipher, hu,
      ))

  -- An empty text is encrypted, and its encryption is refused as malformed.
  pub decrypt-encrypt_empty :
      (iv secret : Text)
      → decrypt (encrypt iv [] secret) secret
        ≡ err (plain (codes "Invalid encrypted payload format"))
  unfolding encrypt decrypt
  decrypt-encrypt_empty iv secret = rw split-encrypt (elim (Bool-cases (is_empty iv)) [
    | inl e ↦ simp (c.to_hex_empty, e)
    | inr e ↦ simp (c.to_hex_empty, e, c.tag_present, c.cipher_empty, c.to_utf8_empty)
  ])
