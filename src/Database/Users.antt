-- ===== src/Database/Users.antt =====
-- internal/database/users.go: the table of users. Its id is the primary key and its email is unique.
-- The parameter is `gen_random_uuid()`.
use signalstream.Common.{
  Bool, ◌||◌, [], ◌∷◌, ◌++◌, Option, none, some, Err, Result, ok, err, Text, text_eq, is_empty,
  ◌==◌, if◌then◌else◌,
}
use signalstream.Database.{Uuid, User}
use signalstream.Database.Statements.{Db, next_fault, select_rows}

-- The answers of `CreateUser`: the user, `ErrDuplicateEmail`, or another error.
pub data Creation : Type 0 where
  created : User → Creation
  duplicate_email : Creation
  not_created : Err → Creation

unfoldable pub has_email : Text → User → Bool
has_email email row = text_eq row.email email

-- The rows that violate a unique constraint of a new row.
unfoldable pub clashes : Uuid → Text → User → Bool
clashes id email row = (row.id == id) || text_eq row.email email

unfoldable pub create_user : (Db → Uuid) → Text → Text → Db → Creation × Db
create_user new_uuid email password_hash db =
    let (fault, db') = next_fault db in
    elim fault [
      | some e ↦ (not_created e, db')
      | none ↦
          let row : User = record {
            id = new_uuid db';
            email = email;
            password_hash = password_hash;
            created_at = db'.clock;
            updated_at = db'.clock;
          } in
          if is_empty (select_rows (clashes (new_uuid db') email) db'.users)
          then (created row, record db' { users = db'.users ++ row ∷ [] })
          else (duplicate_email, db')
    ]

-- `GetUserByEmail`: a missing row is a nil user without an error.
unfoldable pub get_user_by_email : Text → Db → Result (Option User) × Db
get_user_by_email email db =
    let (fault, db') = next_fault db in
    elim fault [
      | some e ↦ (err e, db')
      | none ↦ elim (select_rows (has_email email) db'.users) [
        | [] ↦ (ok none, db')
        | row ∷ rows ↦ (ok (some row), db')
      ]
    ]

-- `GetUserByID`
unfoldable pub get_user_by_id : Uuid → Db → Result (Option User) × Db
get_user_by_id id db =
    let (fault, db') = next_fault db in
    elim fault [
      | some e ↦ (err e, db')
      | none ↦ elim (select_rows (λ row. row.id == id) db'.users) [
        | [] ↦ (ok none, db')
        | row ∷ rows ↦ (ok (some row), db')
      ]
    ]
