-- ===== src/Encryption.antt =====
-- crypto/encryption.service.ts: AES-256-GCM over text, with the cipher, the encodings and the
-- random bytes as parameters.
pub mod RoundTrip
pub mod Shifting
mod Tests
use social_monitor.Prelude.{
  ℕ, Text, text, ◌++◌, Bool, not, ◌||◌, eqb, length, nonempty, List, [], ◌∷◌, if◌then◌else◌,
}
use social_monitor.Core.{Exception, error, Result, ok, err}
use social_monitor.Splitting.{split, dot}

-- `seal` gives the ciphertext and the tag, and `unseal` throws where the tag does not fit; texts of
-- bytes are lists of numbers as strings are.
pub record Cipher : Type 0 where
  pub from_hex : Text → Text
  pub base64 : Text → Text
  pub from_base64 : Text → Text
  pub seal : (key iv plaintext : Text) → Text × Text
  pub unseal : (key iv ciphertext tag : Text) → Result Text

abbrev pub bad_key : Exception
bad_key = error (text "ENCRYPTION_KEY must be a 64-character hex string (32 bytes)")

abbrev pub invalid_payload : Exception
invalid_payload = error (text "Invalid encrypted payload")

module _ (c : Cipher) where
  -- The constructor: the key.
  unfoldable pub key_of : Text → Result Text
  key_of key_hex =
      if not (nonempty key_hex) || not (eqb (length key_hex) 64)
      then err bad_key
      else ok (c.from_hex key_hex)

  abbrev joined : Text → Text × Text → Text
  joined iv (encrypted, tag) = c.base64 iv ++ (dot ∷ (c.base64 encrypted ++ (dot ∷ c.base64 tag)))

  -- `encrypt`, with the twelve bytes that `randomBytes` gave, and a key of 32 bytes: for 64
  -- characters that are no hexadecimal digits, which give a shorter key, the source throws.
  unfoldable pub encrypt : (key iv plaintext : Text) → Text
  encrypt key iv plaintext = joined iv (c.seal key iv plaintext)

  abbrev pub decrypt_parts : Text → List Text → Result Text
  decrypt_parts key (iv ∷ encrypted ∷ tag ∷ []) =
      c.unseal key (c.from_base64 iv) (c.from_base64 encrypted) (c.from_base64 tag)
  decrypt_parts key _ = err invalid_payload

  unfoldable pub decrypt : (key payload : Text) → Result Text
  decrypt key payload = decrypt_parts key (split dot payload)
