-- ===== src/Database/Consistent.antt =====
-- internal/database/migrations: what the keys of the tables promise. A table is a list of rows, and a
-- reference is the presence of the column's value in the other table.
pub mod Rows
pub mod Lookups
pub mod Strategies
pub mod Deletion
pub mod Alerts
pub mod Accounts
pub mod Queries
pub mod Kept
pub mod Interleaved
use signalstream.Common.{◌≡◌, ◌≢◌, ◌⊎◌, List, [], ◌∷◌, map, Text, In, All}
use signalstream.Database.{Uuid, Strategy, Alert, User, ApiKey}
use signalstream.Database.Statements.{Db}

-- No two rows have the same key.
abbrev pub Distinct : {A K : Type 0} → (A → K) → List A → Type 0
Distinct key [] = Unit
Distinct key (row ∷ rows) = All (λ other. key other ≢ key row) rows × Distinct key rows

abbrev pub known_users : List User → List Uuid
known_users = map (λ u. u.id)

-- A strategy with its user.
abbrev pub owned : Strategy → Uuid × Uuid
owned s = (s.id, s.user_id)

-- The strategy of an alert is NULL, or it exists and belongs to the alert's user.
abbrev pub RefersToOwn : List Strategy → Alert → Type 0
RefersToOwn strategies alert =
    (alert.strategy_id ≡ 0) ⊎ In (alert.strategy_id, alert.user_id) (map owned strategies)

-- The provider's key of a user.
abbrev pub key_pair : ApiKey → Uuid × Text
key_pair k = (k.user_id, k.provider)

pub record IsConsistent (db : Db) : Type 0 where
  pub user_ids : Distinct (λ u. u.id) db.users
  pub emails : Distinct (λ u. u.email) db.users
  pub strategy_ids : Distinct (λ s. s.id) db.strategies
  pub strategy_nonzero : All (λ s. s.id ≢ 0) db.strategies
  pub strategy_users : All (λ s. In s.user_id (known_users db.users)) db.strategies
  pub alert_ids : Distinct (λ a. a.id) db.alerts
  pub alert_users : All (λ a. In a.user_id (known_users db.users)) db.alerts
  pub alert_strategies : All (RefersToOwn db.strategies) db.alerts
  pub key_ids : Distinct (λ k. k.id) db.api_keys
  pub key_pairs : Distinct key_pair db.api_keys
  pub key_users : All (λ k. In k.user_id (known_users db.users)) db.api_keys
