-- ===== src/Encryption/Shifting.antt =====
-- A cipher that adds the first byte of the key to each byte and takes the key as its tag, for the
-- tests.
use social_monitor.Prelude.{
  ℕ, ◌+◌, ◌-◌, ◌≡◌, refl, Text, text, ◌==◌, ==_refl, true, [], ◌∷◌, arith, if◌then◌else◌,
}
use social_monitor.Core.{error, ok, err}
use social_monitor.Splitting.{dot, is_free_of}
use social_monitor.Encryption.{Cipher}
use social_monitor.Encryption.RoundTrip.{CipherLaws}

abbrev pub raised : ℕ → Text → Text
raised n [] = []
raised n (x ∷ xs) = (x + n) ∷ raised n xs

abbrev pub sunk : ℕ → Text → Text
sunk n [] = []
sunk n (x ∷ xs) = (x - n) ∷ sunk n xs

pub sunk-raised : (n : ℕ) (s : Text) → sunk n (raised n s) ≡ s
sunk-raised n [] = refl
sunk-raised n (x ∷ xs) = let e : x + n - n ≡ x = omega arith in rw (e, sunk-raised n xs) refl

pub raised_free : (s : Text) → is_free_of dot (raised 50 s) ≡ true
raised_free [] = refl
raised_free (x ∷ xs) = let h = raised_free xs in ground arith

abbrev pub first_byte : Text → ℕ
first_byte [] = 0
first_byte (x ∷ xs) = x

abbrev pub shifting : Cipher
shifting = record {
  from_hex = λ s. s;
  base64 = raised 50;
  from_base64 = sunk 50;
  seal = λ key iv plaintext. (raised (first_byte key) plaintext, key);
  unseal = λ key iv ciphertext tag.
      if key == tag then ok (sunk (first_byte key) ciphertext) else err (error (text "bad tag"));
}

pub unseal_shifted :
    (key plaintext : Text)
    → (if key == key
        then ok (sunk (first_byte key) (raised (first_byte key) plaintext))
        else err (error (text "bad tag")))
      ≡ ok plaintext
unseal_shifted key plaintext = rw (==_refl key, sunk-raised (first_byte key) plaintext) refl

abbrev pub shifting_laws : CipherLaws shifting
shifting_laws = record {
  unseal_seal = λ key iv plaintext. unseal_shifted key plaintext;
  base64_back = λ s. sunk-raised 50 s;
  base64_free = raised_free;
}
