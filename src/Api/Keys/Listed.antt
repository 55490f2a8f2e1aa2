-- ===== src/Api/Keys/Listed.antt =====
-- internal/api/keys.go with internal/database/apikeys.go: the providers that a list shows.
use signalstream.Common.{
  ◌≡◌, Bool, true, false, ◌&&◌, ◌||◌, List, [], ◌∷◌, some, Text, codes, text_eq, text_eq_iff, ◌==◌,
  if◌then◌else◌, Bool-cases, Bool-eq_of_iff, inl, inr, arith,
}
use signalstream.Platform.{World}
use signalstream.Database.{Uuid, ApiKey}
use signalstream.Database.Statements.{Db, select_rows}
use signalstream.Database.Statements.Faults.{next_fault-quiet}
use signalstream.Database.Keys.{get_api_keys}
use signalstream.Api.{Claims, Request, keys_body}
use signalstream.Api.Keys.{KeyService, mark_provider, mark_providers, handle_list_api_keys}

-- Some row of the table is the user's for this provider.
pub has_row : Uuid → Text → List ApiKey → Bool
has_row user provider [] = false
has_row user provider (row ∷ rows) =
    ((row.user_id == user) && text_eq row.provider provider) || has_row user provider rows

text_eq-sym : (s t : Text) → text_eq s t ≡ text_eq t s
text_eq-sym s t =
    Bool-eq_of_iff (text_eq s t) (text_eq t s)
      (λ e. ground (arith, text_eq_iff s t, text_eq_iff t s))
      (λ e. ground (arith, text_eq_iff s t, text_eq_iff t s))

mark_providers-two :
    (user : Uuid) (p q : Text) (b c : Bool) (rows : List ApiKey)
    → mark_providers (select_rows (λ row. row.user_id == user) rows) ((p, b) ∷ (q, c) ∷ [])
      ≡ (p, b || has_row user p rows) ∷ (q, c || has_row user q rows) ∷ []
unfolding mark_providers mark_provider select_rows has_row
mark_providers-two user p q b c [] = ground arith
mark_providers-two user p q b c (row ∷ rows) = elim (Bool-cases (row.user_id == user)) [
  | inr other ↦ ground (arith, mark_providers-two user p q b c rows)
  | inl own ↦ ground (
    arith,
    text_eq-sym p row.provider,
    text_eq-sym q row.provider,
    mark_providers-two user p q (if text_eq p row.provider then true else b)
        (if text_eq q row.provider then true else c) rows,
  )
]

-- A list of API keys names both providers in order, and says of each whether the table has a row of
-- the user for it, if the database fails no statement; it changes nothing.
pub list_keys-has_row :
    {B E : Type 0} (s : KeyService B E) (r : Request) (claims : Claims) (w : World E) (db : Db)
    → r.claims ≡ some claims
    → db.faults ≡ []
    → handle_list_api_keys s r (w, db) ≡ (
      record {
        status = 200;
        body = keys_body (
            (codes "polygon", has_row claims.user_id (codes "polygon") db.api_keys)
            ∷ (codes "openai", has_row claims.user_id (codes "openai") db.api_keys)
            ∷ []);
      },
      (w, db),
    )
unfolding handle_list_api_keys get_api_keys
list_keys-has_row s r claims w db known quiet = ground (
  arith,
  next_fault-quiet db quiet,
  mark_providers-two claims.user_id (codes "polygon") (codes "openai") false false db.api_keys,
)
