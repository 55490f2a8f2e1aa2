-- ===== src/Pipeline/Alerts/Adds.antt =====
-- cmd/signalstream/main.go: what alerts add to the table.
use signalstream.Common.{
  ◌≡◌, refl, sym, ◌∙◌, ap, Bool, true, false, List, [], ◌∷◌, ◌++◌, some, codes, is_empty, In, inl,
  inr, ◌==◌, Bool-cases, arith,
}
use mathlib.Core.List.{append_assoc, append-nil}
use signalstream.Platform.{NormalizedEvent, World}
use signalstream.Database.{Strategy, Alert}
use signalstream.Database.Schema.{has_columns}
use signalstream.Database.Statements.{Db, select_rows}
use signalstream.Database.Alerts.{inserted_columns}
use signalstream.Database.Postgres.{Postgres}
use signalstream.Database.Strategies.Active.{IsActiveOf}
use signalstream.Sse.{Broker}
use signalstream.Sse.Invariant.{IsSound}
use signalstream.Notification.Delivery.{Site}

-- No row of the table has the next identifier.
abbrev pub NewIds : Postgres → Type 0
NewIds pg = (db : Db) → is_empty (select_rows (λ row. row.id == pg.new_uuid db) db.alerts) ≡ true

-- The table has the columns that are named, no statement fails, and the broker works.
pub record IsReady (w : World Site) : Type 0 where
  pub quiet : w.env.db.faults ≡ []
  pub columns : has_columns (codes "alerts") inserted_columns w.env.db.schema ≡ true
  pub broker : Broker
  pub there : w.env.broker ≡ some broker
  pub sound : IsSound broker

-- One alert for each strategy, in the order of the strategies.
abbrev pub AlertsFor : NormalizedEvent → List Strategy → List Alert → Type 0
AlertsFor event [] [] = Unit
AlertsFor event [] (_ ∷ _) = ⊥
AlertsFor event (_ ∷ _) [] = ⊥
AlertsFor event (s ∷ ss) (row ∷ rows) =
    (row.user_id ≡ s.user_id)
    × (row.strategy_id ≡ s.id)
    × (row.event_id ≡ event.id)
    × AlertsFor event ss rows

-- The rows of a strategy and its user exist.
abbrev pub Referred : Db → Strategy → Type 0
Referred db s =
    (is_empty (select_rows (λ row. row.id == s.user_id) db.users) ≡ false)
    × (is_empty (select_rows (λ row. row.id == s.id) db.strategies) ≡ false)

-- What some strategies have added.
pub record Adds (event : NormalizedEvent) (w w' : World Site) (alerted : List Strategy)
    : Type 0 where
  pub ready : IsReady w'
  pub users : w'.env.db.users ≡ w.env.db.users
  pub strategies : w'.env.db.strategies ≡ w.env.db.strategies
  pub rows : List Alert
  pub added : w'.env.db.alerts ≡ w.env.db.alerts ++ rows
  pub for_them : AlertsFor event alerted rows

is_empty-select_rows :
    {A : Type 0} (selected : A → Bool) (a : A) (rows : List A)
    → In a rows
    → selected a ≡ true
    → is_empty (select_rows selected rows) ≡ false
unfolding select_rows
is_empty-select_rows selected a [] m e = absurd m
is_empty-select_rows selected a (row ∷ rows) m e = elim (Bool-cases (selected row)) [
  | inl hit ↦ rw hit refl
  | inr miss ↦ elim m [
    | inl same ↦ absurd (ground (arith, ap selected same))
    | inr later ↦ rw miss (is_empty-select_rows selected a rows later e)
  ]
]

pub Referred-active : (db : Db) (t : Strategy) → IsActiveOf db.users db.strategies t → Referred db t
Referred-active db t (s, user, i, j, (owner, active), e) =
    let user_id : t.user_id ≡ user.id = ap (λ (x : Strategy). x.user_id) e ∙ owner in
    let id : t.id ≡ s.id = ap (λ (x : Strategy). x.id) e in
    (
      is_empty-select_rows (λ row. row.id == t.user_id) user db.users j (ground arith),
      is_empty-select_rows (λ row. row.id == t.id) s db.strategies i (ground arith),
    )

-- Every strategy of a list refers to rows that exist.
abbrev pub AllReferred : Db → List Strategy → Type 0
AllReferred db [] = Unit
AllReferred db (s ∷ rest) = Referred db s × AllReferred db rest

pub AllReferred-same :
    (db db' : Db) (ss : List Strategy)
    → db'.users ≡ db.users
    → db'.strategies ≡ db.strategies
    → AllReferred db ss
    → AllReferred db' ss
AllReferred-same db db' [] u v h = tt
AllReferred-same db db' (s ∷ rest) u v h = (rw u (rw v h.0), AllReferred-same db db' rest u v h.1)

pub AllReferred-active :
    (db : Db) (ts : List Strategy)
    → ((t : Strategy) → In t ts → IsActiveOf db.users db.strategies t)
    → AllReferred db ts
AllReferred-active db [] h = tt
AllReferred-active db (t ∷ ts) h =
    (Referred-active db t (h t (inl refl)), AllReferred-active db ts (λ u m. h u (inr m)))

module _ (event : NormalizedEvent) where
  pub Adds-same : (w w' : World Site) → IsReady w → w'.env ≡ w.env → Adds event w w' []
  Adds-same w w' h e = record {
    ready = record {
      quiet = rw e h.quiet;
      columns = rw e h.columns;
      broker = h.broker;
      there = rw e h.there;
      sound = h.sound;
    };
    users = rw e refl;
    strategies = rw e refl;
    rows = [];
    added = ap (λ (x : Site). x.db.alerts) e ∙ sym (append-nil w.env.db.alerts);
    for_them = tt;
  }

  AlertsFor-append :
      (ss ts : List Strategy) (rows more : List Alert)
      → AlertsFor event ss rows
      → AlertsFor event ts more
      → AlertsFor event (ss ++ ts) (rows ++ more)
  AlertsFor-append [] ts [] more h k = k
  AlertsFor-append [] ts (_ ∷ _) more h k = absurd h
  AlertsFor-append (s ∷ ss) ts [] more h k = absurd h
  AlertsFor-append (s ∷ ss) ts (row ∷ rows) more (u, i, e, h) k =
      (u, i, e, AlertsFor-append ss ts rows more h k)

  pub Adds-trans :
      (w w₁ w₂ : World Site) (ss ts : List Strategy)
      → Adds event w w₁ ss
      → Adds event w₁ w₂ ts
      → Adds event w w₂ (ss ++ ts)
  Adds-trans w w₁ w₂ ss ts h k = record {
    ready = k.ready;
    users = k.users ∙ h.users;
    strategies = k.strategies ∙ h.strategies;
    rows = h.rows ++ k.rows;
    added = k.added ∙ ap (λ l. l ++ k.rows) h.added ∙ append_assoc w.env.db.alerts h.rows k.rows;
    for_them = AlertsFor-append ss ts h.rows k.rows h.for_them k.for_them;
  }
