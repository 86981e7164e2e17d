-- ===== src/Encryption/Tests.antt =====
-- Encryption at concrete input.
use social_monitor.Prelude.{◌≡◌, Text, text}
use social_monitor.Core.{ok}
use social_monitor.Encryption.{encrypt, decrypt}
use social_monitor.Encryption.RoundTrip.{decrypt-encrypt}
use social_monitor.Encryption.Shifting.{shifting, shifting_laws}

decrypt-encrypt_example :
    (decrypt shifting (text "k") (encrypt shifting (text "k") (text "iv") (text "hi"))
      ≡ ok (text "hi"))
    × ((other : Text)
        → decrypt shifting other (encrypt shifting (text "k") (text "iv") (text "hi"))
          ≡ shifting.unseal other
              (text "iv")
              (shifting.seal (text "k") (text "iv") (text "hi")).0
              (shifting.seal (text "k") (text "iv") (text "hi")).1)
decrypt-encrypt_example = decrypt-encrypt shifting shifting_laws (text "k") (text "iv") (text "hi")
