-- ===== src/Api/Streaming/Tests.antt =====
-- A stream for the user of a token.
use signalstream.Common.{
  [], ◌∷◌, List, none, Result, ok, err, plain, Text, codes, ◌==◌, text_eq, Option, if◌then◌else◌,
}
use signalstream.Database.{Uuid}
use signalstream.Sse.{Broker}
use signalstream.Sse.Sessions.{broadcasts}
use signalstream.Sse.Stream.{Happening, elsewhere, looks, done}
use signalstream.Api.{Claims, Request}
use signalstream.Api.Guard.{bearer}

abbrev validate_token : Text → Option Broker → Result Claims
validate_token token b =
    if text_eq token (codes "ann")
    then ok (record { user_id = 9; email = codes "ann@x" })
    else err (plain (codes "invalid token"))

abbrev name : Uuid → Text
name user = if user == 9 then codes "ann" else codes "bob"

abbrev happenings : List (Happening Text)
happenings =
    elsewhere (broadcasts (codes "ann") (codes "x"))
    ∷ looks
    ∷ elsewhere (broadcasts (codes "bob") (codes "y"))
    ∷ done
    ∷ []

abbrev request : Request
request = record {
  method = codes "GET";
  path = codes "/api/v1/alerts/stream";
  authorization = bearer (codes "ann");
  parameter = λ key. [];
  body = [];
  claims = none;
}
