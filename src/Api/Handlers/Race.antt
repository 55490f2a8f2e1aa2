-- ===== src/Api/Handlers/Race.antt =====
-- internal/api/strategies.go, `handleToggleStrategy`: it reads the strategy and writes it back in two
-- statements without a transaction, so that the statements of two requests interleave.
use signalstream.Common.{
  ℕ, ◌≡◌, refl, ap, ◌∙◌, inl, inr, Bool, true, false, not, List, [], ◌∷◌, none, some, ok, err,
  codes, Option-cases, Result-cases, arith,
}
use signalstream.Database.{Uuid, Strategy}
use signalstream.Database.Statements.{Db, get_strategy, update_strategy, set_strategy}
use signalstream.Database.Statements.Ownership.{get_strategy-Finds}
use signalstream.Api.{Claims, Response, strategy_body, error_response}
use signalstream.Api.Handlers.{run_toggle}
use signalstream.Api.Handlers.Toggle.{
  toggled, flipped, stored, set_strategy-toggled, get_strategy-found, update_strategy-found,
  get_strategy-stored,
}

-- How far a request has come.
pub data Toggling : Type 0 where
  waiting : Toggling
  holding : Strategy → Toggling
  answered : Response → Toggling

module _ (id : Uuid) (claims : Claims) where
  -- `GetStrategy` and what follows it
  unfoldable pub read_step : Db → Toggling × Db
  read_step db =
      let (found, db') = get_strategy id claims.user_id db in
      elim found [
        | err e ↦ (answered (error_response 500 (codes "database error")), db')
        | ok row ↦ elim row [
          | none ↦ (answered (error_response 404 (codes "strategy not found")), db')
          | some s ↦ (holding s, db')
        ]
      ]

  -- `UpdateStrategy` and what follows it
  unfoldable pub write_step : Strategy → Db → Toggling × Db
  write_step s db =
      let (updated, db') = update_strategy (flipped s) db in
      elim updated [
        | err e ↦ (answered (error_response 500 (codes "failed to update strategy")), db')
        | ok row ↦ (answered (record { status = 200; body = strategy_body row }), db')
      ]

  unfoldable pub toggle_step : Toggling → Db → Toggling × Db
  toggle_step waiting db = read_step db
  toggle_step (holding s) db = write_step s db
  toggle_step (answered r) db = (answered r, db)

  -- The steps of two requests; each entry says whether the second one takes the next step.
  unfoldable pub interleave : List Bool → (Toggling × Toggling) × Db → (Toggling × Toggling) × Db
  interleave [] s = s
  interleave (false ∷ turns) ((p, q), db) =
      let (p', db') = toggle_step p db in interleave turns ((p', q), db')
  interleave (true ∷ turns) ((p, q), db) =
      let (q', db') = toggle_step q db in interleave turns ((p, q'), db')

  -- The handler's body is its two steps, one after the other.
  pub run_toggle-steps :
      (db : Db)
      → let (p, db') = toggle_step waiting db in
        toggle_step p db' ≡ (answered (run_toggle id claims db).0, (run_toggle id claims db).1)
  unfolding toggle_step read_step write_step run_toggle
  run_toggle-steps db =
      let g = get_strategy id claims.user_id db in
      elim (Result-cases g.0) [
        | inr (e, failed) ↦ ground arith
        | inl (row, found) ↦ elim (Option-cases row) [
          | inl missing ↦ ground arith
          | inr (s, there) ↦ elim (Result-cases (update_strategy (flipped s) g.1).0) [
            | inr (e, failed) ↦ ground arith
            | inl (after, done) ↦ ground arith
          ]
        ]
      ]

  -- The answer of a toggle that leaves the strategy so.
  abbrev pub shows : Strategy → Toggling
  shows row = answered (record { status = 200; body = strategy_body row })

  module _ (row : Strategy) (db : Db) (quiet : db.faults ≡ [])
      (there : (get_strategy id claims.user_id db).0 ≡ ok (some row)) where
    reads : toggle_step waiting db ≡ (holding row, db)
    unfolding toggle_step read_step
    reads =
        let (rest, found, got) = get_strategy-found id claims.user_id row db quiet there in
        ground (arith, got)

    -- What a request writes that holds `s`, with the id and the user of the row.
    writes :
        (s : Strategy)
        → s.id ≡ row.id
        → s.user_id ≡ row.user_id
        → (db' : Db) × (toggle_step (holding s) db ≡ (shows (toggled db.clock s), db'))
          × (db'.faults ≡ [])
          × (db'.clock ≡ db.clock)
          × ((get_strategy id claims.user_id db').0
              ≡ ok (some (set_strategy (flipped s) db.clock row)))
    unfolding toggle_step write_step
    writes s same_id same_user =
        let user = claims.user_id in
        let (rest, found, got) = get_strategy-found id user row db quiet there in
        let own = get_strategy-Finds id user db row there in
        let i = same_id ∙ own.same_id in
        let u = same_user ∙ own.same_user in
        let updated = update_strategy-found id user (flipped s) row rest db quiet found i u in
        (
          stored id user (flipped s) row rest db quiet found i u,
          ground (arith, updated),
          quiet,
          refl,
          get_strategy-stored id user (flipped s) row rest db quiet found i u,
        )

  set_strategy-again :
      (now : ℕ) (s row : Strategy)
      → set_strategy s now (set_strategy s now row) ≡ set_strategy s now row
  unfolding set_strategy
  set_strategy-again now s row = refl

  -- Two requests to toggle one strategy of the user that the database has, where no statement fails and
  -- the clock stands still. One after the other, they leave the strategy as active as it was, and the
  -- second one answers so. If both read before either writes, both answer with the strategy inverted
  -- once, and the database holds it so: one toggle is lost.
  pub toggles_may_collide :
      (row : Strategy) (db : Db)
      → db.faults ≡ []
      → (get_strategy id claims.user_id db).0 ≡ ok (some row)
      → let once = toggled db.clock row in
        let twice = toggled db.clock once in
        let apart = interleave (false ∷ false ∷ true ∷ true ∷ []) ((waiting, waiting), db) in
        let across = interleave (false ∷ true ∷ false ∷ true ∷ []) ((waiting, waiting), db) in
        (apart.0 ≡ (shows once, shows twice))
        × ((get_strategy id claims.user_id apart.1).0 ≡ ok (some twice))
        × (twice.is_active ≡ row.is_active)
        × (across.0 ≡ (shows once, shows once))
        × ((get_strategy id claims.user_id across.1).0 ≡ ok (some once))
  unfolding interleave
  toggles_may_collide row db quiet there =
      let now = db.clock in
      let once = toggled now row in
      let read = reads row db quiet there in
      let (db₁, wrote, quiet₁, same₁, held) = writes row db quiet there row refl refl in
      let inverted = set_strategy-toggled now row in
      let there₁ : (get_strategy id claims.user_id db₁).0 ≡ ok (some once) =
        held ∙ ap (λ r. ok (some r)) inverted in
      let read₁ = reads once db₁ quiet₁ there₁ in
      let (db₂, wrote₂, quiet₂, same₂, held₂) = writes once db₁ quiet₁ there₁ once refl refl in
      let (db₃, wrote₃, quiet₃, same₃, held₃) = writes once db₁ quiet₁ there₁ row refl refl in
      let last₂ = set_strategy-toggled db₁.clock once in
      let last₃ = set_strategy-again now (flipped row) row in
      let back : not (not row.is_active) ≡ row.is_active = ground arith in
      (
        ground (arith, read, wrote, read₁, wrote₂),
        ground (arith, read, wrote, read₁, wrote₂, last₂),
        back,
        ground (arith, read, wrote, wrote₃),
        ground (arith, read, wrote, wrote₃, inverted, last₃),
      )
