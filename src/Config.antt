-- ===== src/Config.antt =====
-- internal/config/config.go: the validation of the configuration, and `Get`, which takes what the
-- environment is parsed into as a parameter.
pub mod Startup
use signalstream.Common.{
  ℕ, Bool, ◌||◌, not, ◌++◌, Option, none, some, Failure, Result, ok, err, wrap, plain, Text, codes,
  length, ltb, itoa, ◌==◌, if◌then◌else◌,
}
use signalstream.Common.Int.{ℤ, pos, ltb_ℤ}

pub record AppConfig : Type 0 where
  pub log_level : Text
  pub polygon_api_key : Text
  pub openai_api_key : Text
  pub qdrant_host : Text
  pub qdrant_port : ℤ
  pub database_url : Text
  pub jwt_secret : Text
  pub encryption_key : Text
  pub server_port : Text
  pub frontend_url : Text

unfoldable pub validate : AppConfig → Failure
validate c =
    if ltb (length c.jwt_secret) 16
    then some (plain (codes "JWT_SECRET must be at least 16 characters"))
    else if not (length c.encryption_key == 32)
    then some (
        plain (
          codes "ENCRYPTION_KEY must be exactly 32 bytes (got "
          ++ (itoa (length c.encryption_key) ++ codes ")")))
    else if ltb_ℤ c.qdrant_port (pos 1) || ltb_ℤ (pos 65535) c.qdrant_port
    then some (plain (codes "QDRANT_PORT must be between 1 and 65535"))
    else none

-- `Get`, where `loaded` is what `once` has left, and `parsed` what the environment is parsed into; an
-- error ends the process.
unfoldable pub get : Result AppConfig → Option AppConfig → Result AppConfig × Option AppConfig
get parsed (some c) = (ok c, some c)
get (err e) none = (err (wrap (codes "failed to parse configuration: ") e), none)
get (ok c) none = elim (validate c) [
  | some e ↦ (err (wrap (codes "invalid configuration: ") e), none)
  | none ↦ (ok c, some c)
]
