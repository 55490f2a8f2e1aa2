-- ===== src/Database.antt =====
-- internal/database: the rows of the tables as the program reads and writes them.
pub mod Schema
pub mod Postgres
pub mod Connect
pub mod Alerts
pub mod Strategies
pub mod Statements
pub mod Consistent
pub mod Users
pub mod Keys
mod Tests
use signalstream.Common.{ℕ, Bool, List, Text}

-- A `uuid.UUID`, by its 128-bit value; floats by their IEEE bit patterns.
abbrev pub Uuid : Type 0
Uuid = ℕ

abbrev pub Float32 : Type 0
Float32 = ℕ

abbrev pub Float64 : Type 0
Float64 = ℕ

pub record Strategy : Type 0 where
  pub id : Uuid
  pub user_id : Uuid
  pub name : Text
  pub description : Text
  pub query : Text
  pub source : List Text
  pub tickers : List Text
  pub similarity_threshold : Float64
  pub is_active : Bool
  pub created_at : ℕ
  pub updated_at : ℕ
  pub owner_email : Text

pub record Alert : Type 0 where
  pub id : Uuid
  pub user_id : Uuid
  pub strategy_id : Uuid
  pub event_id : Text
  pub title : Text
  pub content : Text
  pub url : Text
  pub similarity_score : Float64
  pub is_read : Bool
  pub created_at : ℕ

pub record User : Type 0 where
  pub id : Uuid
  pub email : Text
  pub password_hash : Text
  pub created_at : ℕ
  pub updated_at : ℕ

pub record ApiKey : Type 0 where
  pub id : Uuid
  pub user_id : Uuid
  pub provider : Text
  pub encrypted_key : Text
  pub created_at : ℕ
