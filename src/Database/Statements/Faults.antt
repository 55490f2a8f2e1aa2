-- ===== src/Database/Statements/Faults.antt =====
-- The driver while it fails no statement.
use signalstream.Common.{◌≡◌, none, [], arith}
use signalstream.Database.Statements.{Db, next_fault}

pub next_fault-quiet : (db : Db) → db.faults ≡ [] → next_fault db ≡ (none, db)
unfolding next_fault
next_fault-quiet db quiet = ground arith
