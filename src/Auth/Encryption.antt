-- ===== src/Auth/Encryption.antt =====
-- internal/auth/encryption.go: AES-256-GCM with the nonce in front, in base64. The ciphers, the random
-- source and base64 are parameters.
pub mod RoundTrip
pub mod Toy
mod Tests
use signalstream.Common.{
  ℕ, Bool, List, ◌++◌, Result, ok, err, plain, Text, codes, length, take, drop, ltb, itoa, ◌==◌,
  if◌then◌else◌,
}
use signalstream.Platform.{Action}

-- `cipher.AEAD`, without additional data: `seal` yields what `Seal` appends to its destination.
pub record Aead : Type 0 where
  pub nonce_size : ℕ
  pub seal : Text → Text → Text
  pub open_sealed : Text → Text → Result Text

pub record Crypto (B E : Type 0) : Type 0 where
  pub new_cipher : Text → Result B
  pub new_gcm : B → Result Aead
  pub read_random : ℕ → Action E (Result Text)
  pub encode : Text → Text
  pub decode : Text → Result Text

pub record Encryptor : Type 0 where
  pub key : Text

abbrev pub key_size : ℕ
key_size = 32

unfoldable pub new_encryptor : Text → Result Encryptor
new_encryptor key =
    if length key == key_size
    then ok (record { key = key })
    else err (
        plain (
          codes "encryption key must be exactly 32 bytes (got "
          ++ (itoa (length key) ++ codes ")")))

infixl 5 ◌>>=◌
abbrev ◌>>=◌ : {A B : Type 0} → Result A → (A → Result B) → Result B
ok a >>= f = f a
err e >>= f = err e

module _ {B E : Type 0} (c : Crypto B E) (e : Encryptor) where
  -- `aes.NewCipher` and `cipher.NewGCM`
  unfoldable pub open_gcm : Result Aead
  open_gcm = do block ← c.new_cipher e.key; c.new_gcm block

  unfoldable pub encrypt : Text → Action E (Result Text)
  encrypt text w = elim open_gcm [
    | err failure ↦ (err failure, w)
    | ok gcm ↦
        let (reply, w') = c.read_random gcm.nonce_size w in
        elim reply [
          | err failure ↦ (err failure, w')
          | ok nonce ↦ (ok (c.encode (nonce ++ gcm.seal nonce text)), w')
        ]
  ]

  -- The part of `Decrypt` behind the setup of the cipher.
  unfoldable pub open_data : Aead → Text → Result Text
  open_data gcm bytes =
      if ltb (length bytes) gcm.nonce_size
      then err (plain (codes "ciphertext too short"))
      else gcm.open_sealed (take gcm.nonce_size bytes) (drop gcm.nonce_size bytes)

  unfoldable pub decrypt : Text → Result Text
  decrypt encrypted = do bytes ← c.decode encrypted; gcm ← open_gcm; open_data gcm bytes
