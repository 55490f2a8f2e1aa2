-- ===== src/Auth/Tokens/Tests.antt =====
-- A token that is made half a minute after the epoch and checked an hour later.
use signalstream.Common.{◌≡◌, ◌↔◌, ◌+◌, ◌*◌, ◌/◌, ◌<◌, refl, ok, codes, text_eq}
use signalstream.Retry.{second}
use signalstream.Auth.Tokens.{new_claims, lifetime, generate_token, validate_token}
use signalstream.Auth.Tokens.Lifetime.{validate-generate}
use signalstream.Auth.Tokens.Toy.{toy, toy-laws, service}

validate-generate_example :
    (validate_token toy service (codes "token") (3600 * second) ≡ ok (new_claims 0 (codes "ann") 5))
    ↔ (3600 * second / second < (5 + lifetime) / second)
unfolding generate_token new_claims text_eq
validate-generate_example =
    validate-generate toy toy-laws service 0 (codes "ann") (codes "token") 5 (3600 * second) refl
