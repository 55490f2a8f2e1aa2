-- ===== src/Database/Schema/Embedded.antt =====
-- internal/database/migrations: the two files that the program embeds.
use signalstream.Common.{false, List, [], ◌∷◌, ok, codes}
use signalstream.Database.Schema.{Statement, create_table, create_index, Entry}

abbrev pub initial_schema : List Statement
initial_schema =
    create_table (codes "users") (
      codes "id"
      ∷ codes "email"
      ∷ codes "password_hash"
      ∷ codes "created_at"
      ∷ codes "updated_at"
      ∷ [])
    ∷ create_table (codes "api_keys") (
        codes "id"
        ∷ codes "user_id"
        ∷ codes "provider"
        ∷ codes "encrypted_key"
        ∷ codes "created_at"
        ∷ [])
    ∷ create_table (codes "strategies") (
        codes "id"
        ∷ codes "user_id"
        ∷ codes "name"
        ∷ codes "description"
        ∷ codes "query"
        ∷ codes "source"
        ∷ codes "tickers"
        ∷ codes "similarity_threshold"
        ∷ codes "is_active"
        ∷ codes "created_at"
        ∷ codes "updated_at"
        ∷ [])
    ∷ create_table (codes "alerts") (
        codes "id"
        ∷ codes "user_id"
        ∷ codes "strategy_id"
        ∷ codes "event_id"
        ∷ codes "title"
        ∷ codes "content"
        ∷ codes "is_read"
        ∷ codes "created_at"
        ∷ [])
    ∷ create_index (codes "idx_alerts_user_id") (codes "alerts") (codes "user_id")
    ∷ create_index (codes "idx_alerts_created_at") (codes "alerts") (codes "created_at")
    ∷ []

abbrev pub create_alerts : List Statement
create_alerts =
    create_table (codes "alerts") (
      codes "id"
      ∷ codes "user_id"
      ∷ codes "strategy_id"
      ∷ codes "event_id"
      ∷ codes "title"
      ∷ codes "content"
      ∷ codes "url"
      ∷ codes "similarity_score"
      ∷ codes "is_read"
      ∷ codes "created_at"
      ∷ [])
    ∷ create_index (codes "idx_alerts_user_id") (codes "alerts") (codes "user_id")
    ∷ create_index (codes "idx_alerts_created_at") (codes "alerts") (codes "created_at")
    ∷ []

-- The directory, in the order of the names.
abbrev pub embedded : List Entry
embedded =
    record { name = codes "001_initial_schema.sql"; is_dir = false; content = ok initial_schema }
    ∷ record { name = codes "002_create_alerts.sql"; is_dir = false; content = ok create_alerts }
    ∷ []
