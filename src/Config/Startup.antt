-- ===== src/Config/Startup.antt =====
-- internal/config/config.go with internal/auth/encryption.go, as internal/api/server.go combines them
-- in `NewServer`.
use signalstream.Common.{◌≤◌, ◌≡◌, ◌↔◌, none, ok, length, arith}
use signalstream.Common.Int.{pos, ◌≤ℤ◌}
use signalstream.Auth.Encryption.{new_encryptor}
use signalstream.Config.{AppConfig, validate}

-- A configuration is accepted exactly if the JWT secret has 16 bytes or more, the encryption key has
-- 32, and the Qdrant port lies between 1 and 65535.
pub validate_iff :
    (c : AppConfig)
    → (validate c ≡ none) ↔ (
        (16 ≤ length c.jwt_secret)
        × (length c.encryption_key ≡ 32)
        × (pos 1 ≤ℤ c.qdrant_port)
        × (c.qdrant_port ≤ℤ pos 65535))
unfolding validate
validate_iff c = ground arith

-- With an accepted configuration `NewEncryptor`, the step of `NewServer` that can fail, succeeds with
-- the configured key.
pub new_encryptor-validated :
    (c : AppConfig)
    → validate c ≡ none
    → new_encryptor c.encryption_key ≡ ok (record { key = c.encryption_key })
unfolding new_encryptor
new_encryptor-validated c h = ground (arith, (validate_iff c).0 h)
