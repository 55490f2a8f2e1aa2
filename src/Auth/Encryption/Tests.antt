-- ===== src/Auth/Encryption/Tests.antt =====
-- The theorems at a toy cipher.
use signalstream.Common.{◌≡◌, refl, ◌∷◌, ◌++◌, ok, Text, codes, length}
use signalstream.Auth.Encryption.{Aead, open_gcm, encrypt, open_data, decrypt}
use signalstream.Auth.Encryption.RoundTrip.{decrypt-encrypt, decrypt_authentic}
use signalstream.Auth.Encryption.Toy.{toy, toy-laws, encryptor}
use signalstream.Samples.{world}

decrypt-encrypt_example : decrypt toy encryptor (0 ∷ 0 ∷ codes "hi") ≡ ok (codes "hi")
unfolding encrypt open_gcm
decrypt-encrypt_example =
    decrypt-encrypt toy toy-laws encryptor (codes "hi") (0 ∷ 0 ∷ codes "hi") world world refl

decrypt_authentic_example :
    (gcm : Aead) × (nonce : Text) × (open_gcm toy encryptor ≡ ok gcm)
    × (length nonce ≡ gcm.nonce_size)
    × (toy.decode (1 ∷ 2 ∷ codes "hi") ≡ ok (nonce ++ gcm.seal nonce (codes "hi")))
unfolding decrypt open_data open_gcm
decrypt_authentic_example =
    decrypt_authentic toy toy-laws encryptor (1 ∷ 2 ∷ codes "hi") (codes "hi") refl
