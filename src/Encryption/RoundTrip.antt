-- ===== src/Encryption/RoundTrip.antt =====
-- What `decrypt` of crypto/encryption.service.ts makes of what `encrypt` made.
use social_monitor.Prelude.{◌≡◌, refl, ap, ◌∙◌, Text, true, [], ◌∷◌}
use social_monitor.Core.{ok}
use social_monitor.Splitting.{split, dot, is_free_of, split_whole, split_first}
use social_monitor.Encryption.{Cipher, encrypt, decrypt, decrypt_parts}

-- What the service relies on: what is sealed unseals under the same key and initial vector, and
-- base64 reads back and has no ".".
pub record CipherLaws (c : Cipher) : Type 0 where
  pub unseal_seal :
      (key iv plaintext : Text)
      → c.unseal key iv (c.seal key iv plaintext).0 (c.seal key iv plaintext).1 ≡ ok plaintext
  pub base64_back : (s : Text) → c.from_base64 (c.base64 s) ≡ s
  pub base64_free : (s : Text) → is_free_of dot (c.base64 s) ≡ true

module _ (c : Cipher) (laws : CipherLaws c) where
  encrypt_parts :
      (key iv plaintext : Text)
      → let (encrypted, tag) = c.seal key iv plaintext in
        split dot (encrypt c key iv plaintext)
        ≡ c.base64 iv ∷ c.base64 encrypted ∷ c.base64 tag ∷ []
  unfolding encrypt
  encrypt_parts key iv plaintext =
      let encrypted = (c.seal key iv plaintext).0 in
      let tag = (c.seal key iv plaintext).1 in
      split_first dot (c.base64 iv) _ (laws.base64_free iv)
      ∙ ap (λ r. c.base64 iv ∷ r)
          (split_first dot (c.base64 encrypted) (c.base64 tag) (laws.base64_free encrypted)
            ∙ ap (λ r. c.base64 encrypted ∷ r)
                (split_whole dot (c.base64 tag) (laws.base64_free tag)))

  unsealed :
      (other iv a b : Text)
      → c.unseal other
          (c.from_base64 (c.base64 iv))
          (c.from_base64 (c.base64 a))
          (c.from_base64 (c.base64 b))
        ≡ c.unseal other iv a b
  unsealed other iv a b = rw (laws.base64_back iv, laws.base64_back a, laws.base64_back b) refl

  opens :
      (other key iv plaintext : Text)
      → decrypt c other (encrypt c key iv plaintext)
        ≡ c.unseal other iv (c.seal key iv plaintext).0 (c.seal key iv plaintext).1
  unfolding decrypt
  opens other key iv plaintext =
      ap (decrypt_parts c other) (encrypt_parts key iv plaintext)
      ∙ unsealed other iv (c.seal key iv plaintext).0 (c.seal key iv plaintext).1

  -- Decrypting what was encrypted under the same key gives the plaintext, whatever the random bytes
  -- were; under another key it gives what the cipher gives for that key and the same ciphertext.
  pub decrypt-encrypt :
      (key iv plaintext : Text)
      → (decrypt c key (encrypt c key iv plaintext) ≡ ok plaintext)
        × ((other : Text)
            → decrypt c other (encrypt c key iv plaintext)
              ≡ c.unseal other iv (c.seal key iv plaintext).0 (c.seal key iv plaintext).1)
  decrypt-encrypt key iv plaintext = (
    opens key key iv plaintext ∙ laws.unseal_seal key iv plaintext,
    λ other. opens other key iv plaintext,
  )
