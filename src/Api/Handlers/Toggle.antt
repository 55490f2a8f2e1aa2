-- ===== src/Api/Handlers/Toggle.antt =====
-- internal/api/strategies.go: what a successful toggle answers and stores.
use signalstream.Common.{
  ℕ, ◌≡◌, ◌≢◌, refl, sym, ap, ◌∙◌, false, not, List, [], ◌∷◌, map, some, Result, ok, Text, codes,
  is_empty, arith,
}
use signalstream.Database.{Uuid, Strategy}
use signalstream.Database.Statements.{
  Db, strategy_selected, select_rows, update_rows, set_strategy, get_strategy, update_strategy,
}
use signalstream.Database.Statements.Rows.{select-update_rows}
use signalstream.Database.Statements.Faults.{next_fault-quiet}
use signalstream.Database.Statements.Ownership.{get_strategy-Finds}
use signalstream.Api.{Claims, Request, strategy_body}
use signalstream.Api.Handlers.{with_id, run_toggle, handle_toggle_strategy}

select-set_strategy :
    (id user : Uuid) (s : Strategy) (now : ℕ) (row : Strategy)
    → strategy_selected id user (set_strategy s now row) ≡ strategy_selected id user row
unfolding strategy_selected set_strategy
select-set_strategy id user s now row = refl

-- The row after a toggle at the time `now`.
abbrev pub toggled : ℕ → Strategy → Strategy
toggled now row = record row { is_active = not row.is_active; updated_at = now }

pub set_strategy-toggled :
    (now : ℕ) (row : Strategy)
    → set_strategy (record row { is_active = not row.is_active }) now row ≡ toggled now row
unfolding set_strategy
set_strategy-toggled now row = refl

-- A strategy that is found heads the rows that the statement selects.
pub get_strategy-found :
    (id user : Uuid) (row : Strategy) (db : Db)
    → db.faults ≡ []
    → (get_strategy id user db).0 ≡ ok (some row)
    → (rest : List Strategy) × (select_rows (strategy_selected id user) db.strategies ≡ row ∷ rest)
      × (get_strategy id user db ≡ (ok (some row), db))
unfolding get_strategy
get_strategy-found id user row db quiet there =
    go (select_rows (strategy_selected id user) db.strategies) refl
  where
    go :
        (found : List Strategy)
        → select_rows (strategy_selected id user) db.strategies ≡ found
        → (rest : List Strategy) × (select_rows (strategy_selected id user) db.strategies
            ≡ row ∷ rest)
          × (get_strategy id user db ≡ (ok (some row), db))
    go [] q = absurd (ground (arith, next_fault-quiet db quiet))
    go (r ∷ rest) q =
        (rest, ground (arith, next_fault-quiet db quiet), ground (arith, next_fault-quiet db quiet))

-- The update of a strategy that the statement finds.
module _ (id user : Uuid) (s row : Strategy) (rest : List Strategy) (db : Db)
    (quiet : db.faults ≡ [])
    (found : select_rows (strategy_selected id user) db.strategies ≡ row ∷ rest)
    (same_id : s.id ≡ id) (same_user : s.user_id ≡ user) where
  -- The database after the update.
  abbrev pub stored : Db
  stored = record db {
    strategies = update_rows (strategy_selected id user) (set_strategy s db.clock) db.strategies;
  }

  pub update_strategy-found :
      update_strategy s db ≡ (ok (record s { updated_at = db.clock }), stored)
  unfolding update_strategy
  update_strategy-found = ground (arith, next_fault-quiet db quiet)

  pub select_rows-stored :
      select_rows (strategy_selected id user) stored.strategies
      ≡ set_strategy s db.clock row ∷ map (set_strategy s db.clock) rest
  select_rows-stored =
      select-update_rows (strategy_selected id user) (set_strategy s db.clock)
        (select-set_strategy id user s db.clock) db.strategies
      ∙ ap (map (set_strategy s db.clock)) found

  pub get_strategy-stored :
      (get_strategy id user stored).0 ≡ ok (some (set_strategy s db.clock row))
  unfolding get_strategy
  get_strategy-stored = ground (arith, next_fault-quiet stored quiet, select_rows-stored)

-- The strategy that the toggle writes.
abbrev pub flipped : Strategy → Strategy
flipped row = record row { is_active = not row.is_active }

-- If the user has a strategy of the id that the request names and the database does not fail, the
-- toggle answers 200 with the strategy inverted, and the database then holds it so.
pub toggle-stores :
    (parse_uuid : Text → Result Uuid) (r : Request) (claims : Claims) (id : Uuid) (row : Strategy)
    (db : Db)
    → r.claims ≡ some claims
    → r.parameter (codes "id") ≢ []
    → parse_uuid (r.parameter (codes "id")) ≡ ok id
    → db.faults ≡ []
    → (get_strategy id claims.user_id db).0 ≡ ok (some row)
    → let (answer, db') = handle_toggle_strategy parse_uuid r db in
      (answer ≡ record { status = 200; body = strategy_body (toggled db.clock row) })
      × ((get_strategy id claims.user_id db').0 ≡ ok (some (toggled db.clock row)))
unfolding handle_toggle_strategy with_id run_toggle
toggle-stores parse_uuid r claims id row db known given parsed quiet there =
    let user = claims.user_id in
    let (rest, found, got) = get_strategy-found id user row db quiet there in
    let own = get_strategy-Finds id user db row there in
    let after = stored id user (flipped row) row rest db quiet found own.same_id own.same_user in
    let updated =
      update_strategy-found id user (flipped row) row rest db quiet found own.same_id
        own.same_user in
    let held =
      get_strategy-stored id user (flipped row) row rest db quiet found own.same_id own.same_user in
    let named : is_empty (r.parameter (codes "id")) ≡ false = ground arith in
    let run : handle_toggle_strategy parse_uuid r db
        ≡ (record { status = 200; body = strategy_body (toggled db.clock row) }, after) =
      ground (arith, got, updated) in
    rw run (refl, rw (sym (set_strategy-toggled db.clock row)) held)
