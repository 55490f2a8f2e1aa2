-- ===== src/Database/Statements/Rows.antt =====
-- What a statement selects after an insertion or an update.
use signalstream.Common.{◌≡◌, refl, Bool, true, List, [], ◌∷◌, ◌++◌, map, arith}
use signalstream.Database.Statements.{select_rows, update_rows}

pub select_rows-append :
    {A : Type 0} (selected : A → Bool) (rows : List A) (row : A)
    → selected row ≡ true
    → select_rows selected (rows ++ row ∷ []) ≡ select_rows selected rows ++ row ∷ []
unfolding select_rows
select_rows-append selected [] row h = ground arith
select_rows-append selected (r ∷ rows) row h =
    ground (arith, select_rows-append selected rows row h)

pub select-update_rows :
    {A : Type 0} (selected : A → Bool) (change : A → A)
    → ((row : A) → selected (change row) ≡ selected row)
    → (rows : List A)
    → select_rows selected (update_rows selected change rows)
      ≡ map change (select_rows selected rows)
unfolding select_rows update_rows
select-update_rows selected change keeps [] = refl
select-update_rows selected change keeps (row ∷ rows) =
    ground (arith, keeps row, select-update_rows selected change keeps rows)
