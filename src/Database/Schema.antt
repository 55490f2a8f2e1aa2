-- ===== src/Database/Schema.antt =====
-- internal/database/database.go, `Migrate`, and the statements of internal/database/migrations, as far
-- as they concern the names of tables, columns and indexes. The text of an error of the database is a
-- parameter; a connection that breaks during a migration is left out.
pub mod Repeated
pub mod Embedded
use signalstream.Common.{
  Bool, true, false, List, [], ◌∷◌, ◌++◌, Option, none, some, Failure, Err, Result, ok, err, wrap,
  Text, codes, text_eq, if◌then◌else◌,
}

pub record Schema : Type 0 where
  pub tables : List (Text × List Text)
  pub indexes : List Text

pub data Statement : Type 0 where
  -- `CREATE TABLE IF NOT EXISTS`, with the names of the columns
  create_table : (name : Text) (columns : List Text) → Statement
  -- `CREATE INDEX IF NOT EXISTS`, on one column
  create_index : (name table column : Text) → Statement

unfoldable pub columns_of : Text → List (Text × List Text) → Option (List Text)
columns_of name [] = none
columns_of name ((t, columns) ∷ rest) =
    if text_eq t name then some columns else columns_of name rest

unfoldable pub names : Text → List Text → Bool
names name [] = false
names name (n ∷ ns) = if text_eq n name then true else names name ns

-- Whether a table exists and has a column.
unfoldable pub has_column : Text → Text → Schema → Bool
has_column table column s = elim (columns_of table s.tables) [
  | none ↦ false
  | some columns ↦ names column columns
]

unfoldable pub has_columns : Text → List Text → Schema → Bool
has_columns table [] s = true
has_columns table (c ∷ cs) s = if has_column table c s then has_columns table cs s else false

-- `fs.DirEntry`, with what `ReadFile` yields for it.
pub record Entry : Type 0 where
  pub name : Text
  pub is_dir : Bool
  pub content : Result (List Statement)

module _ (sql_error : Statement → Err) where
  -- The table of an index is looked up before the name of the index is.
  unfoldable pub run_statement : Statement → Schema → Result Schema
  run_statement (create_table name columns) s = elim (columns_of name s.tables) [
    | some _ ↦ ok s
    | none ↦ ok (record s { tables = (name, columns) ∷ s.tables })
  ]
  run_statement (create_index name table column) s =
      if has_column table column s
      then if names name s.indexes then ok s else ok (record s { indexes = name ∷ s.indexes })
      else err (sql_error (create_index name table column))

  -- `db.Exec` of several statements, which are one transaction.
  unfoldable pub exec : List Statement → Schema → Result Schema
  exec [] s = ok s
  exec (st ∷ sts) s = elim (run_statement st s) [ err e ↦ err e | ok s' ↦ exec sts s' ]

  -- The loop of `Migrate`
  unfoldable pub run_entries : List Entry → Schema → Failure × Schema
  run_entries [] s = (none, s)
  run_entries (entry ∷ entries) s =
      if entry.is_dir then run_entries entries s else elim entry.content [
        | err e ↦ (some (wrap (codes "read migration " ++ (entry.name ++ codes ": ")) e), s)
        | ok statements ↦ elim (exec statements s) [
          | err e ↦ (some (wrap (codes "execute migration " ++ (entry.name ++ codes ": ")) e), s)
          | ok s' ↦ run_entries entries s'
        ]
      ]

  -- `Migrate`, on what `ReadDir` yields.
  unfoldable pub migrate : Result (List Entry) → Schema → Failure × Schema
  migrate (err e) s = (some (wrap (codes "read migrations directory: ") e), s)
  migrate (ok entries) s = run_entries entries s
