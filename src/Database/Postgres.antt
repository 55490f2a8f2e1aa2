-- ===== src/Database/Postgres.antt =====
-- What the statements of internal/database take from PostgreSQL: the identifiers that it generates, the
-- texts of its errors, and the order of `ORDER BY created_at DESC`, which leaves rows of the same time
-- in any order.
pub mod Toy
use signalstream.Common.{ℕ, ◌≤◌, List, [], ◌∷◌, Err, All}
use mathlib.Core.List.{Perm}
use signalstream.Database.{Uuid}
use signalstream.Database.Statements.{Db}

pub record Postgres : Type 1 where
  pub new_uuid : Db → Uuid
  pub violation : Err
  pub undefined_column : Err
  pub negative_limit : Err
  pub newest_first : {A : Type 0} → (A → ℕ) → List A → List A

-- No time is before a later one.
abbrev pub Descends : {A : Type 0} → (A → ℕ) → List A → Type 0
Descends time [] = Unit
Descends time (a ∷ rest) = All (λ b. time b ≤ time a) rest × Descends time rest

pub record OrderLaw (pg : Postgres) : Type 1 where
  pub same_rows :
      {A : Type 0} (time : A → ℕ) (rows : List A) → Perm rows (pg.newest_first time rows)
  pub descends :
      {A : Type 0} (time : A → ℕ) (rows : List A) → Descends time (pg.newest_first time rows)
