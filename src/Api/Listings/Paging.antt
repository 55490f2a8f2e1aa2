-- ===== src/Api/Listings/Paging.antt =====
-- internal/api/alerts.go with internal/database/alerts.go: the alerts that a request shows.
use signalstream.Common.{
  ℕ, ◌≡◌, ◌<◌, ◌^◌, refl, ap, ◌∙◌, true, List, [], ◌∷◌, some, Text, codes, itoa, itoa_ℤ, atoi,
  atoi-itoa_ℤ, IsInt64, arith,
}
use signalstream.Common.Int.{ℤ, pos}
use signalstream.Database.{Alert}
use signalstream.Database.Schema.{has_columns}
use signalstream.Database.Statements.{Db}
use signalstream.Database.Postgres.{OrderLaw}
use signalstream.Database.Alerts.{selected_columns, get_user_alerts}
use signalstream.Database.Alerts.Pages.{IsPage, page, page-IsPage, get_user_alerts-page}
use signalstream.Api.{Claims, Request, alerts_body}
use signalstream.Api.Listings.{Service, with_claims, number_parameter, handle_list_alerts}

number_parameter-atoi :
    (t : Text) (n : ℕ) (default : ℤ) → atoi t ≡ some (pos n) → number_parameter t default ≡ pos n
unfolding number_parameter atoi
number_parameter-atoi [] n default e = absurd (ground arith)
number_parameter-atoi (c ∷ t) n default e = rw e refl

number_parameter-itoa :
    (n : ℕ) (default : ℤ) → n < 2 ^ 63 → number_parameter (itoa n) default ≡ pos n
unfolding itoa_ℤ IsInt64
number_parameter-itoa n default h = number_parameter-atoi (itoa n) n default (atoi-itoa_ℤ (pos n) h)

-- A list of alerts with a limit and an offset in decimal digits, both `int`s, answers 200 with alerts of
-- the user only, the newest first, and no more than the limit, if the database fails no statement and
-- the table has the columns that are named; it changes nothing. The hypothesis: `ORDER BY created_at
-- DESC` obeys `OrderLaw`.
pub handle_list_alerts-IsPage :
    (s : Service) (r : Request) (claims : Claims) (n offset : ℕ) (db : Db)
    → OrderLaw s.pg
    → r.claims ≡ some claims
    → r.parameter (codes "limit") ≡ itoa n
    → r.parameter (codes "offset") ≡ itoa offset
    → n < 2 ^ 63
    → offset < 2 ^ 63
    → db.faults ≡ []
    → has_columns (codes "alerts") selected_columns db.schema ≡ true
    → (shown : List Alert) × (handle_list_alerts s r db
        ≡ (record { status = 200; body = alerts_body shown }, db))
      × IsPage s.pg claims.user_id db n shown
unfolding handle_list_alerts with_claims
handle_list_alerts-IsPage s r claims n offset db law known limit_text offset_text small small' quiet
      columns =
    let limit =
      ap (λ t. number_parameter t (pos 50)) limit_text ∙ number_parameter-itoa n (pos 50) small in
    let skip =
      ap (λ t. number_parameter t (pos 0)) offset_text
      ∙ number_parameter-itoa offset (pos 0) small' in
    let user = claims.user_id in
    let called =
      ap
        (λ l.
          get_user_alerts s.pg user l (number_parameter (r.parameter (codes "offset")) (pos 0)) db)
        limit
      ∙ ap (λ o. get_user_alerts s.pg user (pos n) o db) skip
      ∙ get_user_alerts-page s.pg user n offset db quiet columns in
    (
      page s.pg claims.user_id db n offset,
      ground arith,
      page-IsPage s.pg claims.user_id db law n offset,
    )
