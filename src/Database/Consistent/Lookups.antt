-- ===== src/Database/Consistent/Lookups.antt =====
-- What a statement may rely on before it writes: the driver's answer keeps the rows, and a value that was
-- looked up is in the column or is not.
use signalstream.Common.{
  ℕ, All-imp, In-map, ◌≡◌, ◌≢◌, true, false, Failure, List, [], ◌∷◌, map, none, is_empty, ◌==◌, In,
  All, subst, arith,
}
use signalstream.Database.{Uuid}
use signalstream.Database.Statements.{Db, next_fault, select_rows}
use signalstream.Database.Consistent.{IsConsistent}
use signalstream.Database.Consistent.Rows.{none_selected, some_selected}

-- The clock and what the driver will fail are in no table.
pub moment-IsConsistent :
    (clock : ℕ) (faults : List Failure) (db : Db)
    → IsConsistent db
    → IsConsistent (record db { clock = clock; faults = faults })
moment-IsConsistent clock faults db c = record {
  user_ids = c.user_ids;
  emails = c.emails;
  strategy_ids = c.strategy_ids;
  strategy_nonzero = c.strategy_nonzero;
  strategy_users = c.strategy_users;
  alert_ids = c.alert_ids;
  alert_users = c.alert_users;
  alert_strategies = c.alert_strategies;
  key_ids = c.key_ids;
  key_pairs = c.key_pairs;
  key_users = c.key_users;
}

pub next_fault-IsConsistent : (db : Db) → IsConsistent db → IsConsistent (next_fault db).1
unfolding next_fault
next_fault-IsConsistent db c = go db.faults
  where
    go :
        (faults : List Failure)
        → let answer : Failure × Db = elim faults [
          | [] ↦ (none, db)
          | f ∷ fs ↦ (f, record db { faults = fs })
        ] in
          IsConsistent answer.1
    go [] = c
    go (f ∷ fs) = moment-IsConsistent db.clock fs db c

-- A row with a value that a statement has looked up.
pub In-looked_up :
    {A : Type 0} (key : A → Uuid) (rows : List A) (id : Uuid)
    → is_empty (select_rows (λ row. key row == id) rows) ≡ false
    → In id (map key rows)
In-looked_up key rows id h =
    let (row, m, hit) = some_selected (λ row. key row == id) rows h in
    subst (λ k. In k (map key rows)) (ground arith) (In-map key rows row m)

-- An id that a statement has not found.
pub not_looked_up :
    {A : Type 0} (key : A → Uuid) (rows : List A) (id : Uuid)
    → is_empty (select_rows (λ row. key row == id) rows) ≡ true
    → All (λ row. key row ≢ id) rows
not_looked_up key rows id h =
    All-imp (λ row. (key row == id) ≡ false) (λ row. key row ≢ id) (λ row miss e. ground arith) rows
      (none_selected (λ row. key row == id) rows h)
