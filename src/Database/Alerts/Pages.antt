-- ===== src/Database/Alerts/Pages.antt =====
-- internal/database/alerts.go: what a page of `GetUserAlerts` shows, and how pages fit together.
use mathlib.Core.Logic.Or
use mathlib.Core.List.Perm
use mathlib.Core.List.{Perm, Mem, mem-cons, mem-cons_self, mem-cons_of_mem, not-mem-nil}
use signalstream.Common.{
  ℕ, zero, suc, ◌+◌, ◌≤◌, ◌≡◌, refl, ap, sym, subst, ◌∙◌, Bool, true, List, [], ◌∷◌, ◌++◌, ok,
  codes, length, take, drop, All, ◌==◌, Bool-cases, inl, inr, arith,
}
use signalstream.Common.Int.{pos}
use signalstream.Database.{Uuid, Alert}
use signalstream.Database.Schema.{has_columns}
use signalstream.Database.Statements.{Db, select_rows}
use signalstream.Database.Statements.Faults.{next_fault-quiet}
use signalstream.Database.Postgres.{Postgres, Descends, OrderLaw}
use signalstream.Database.Alerts.{selected_columns, user_alerts, get_user_alerts}

module _ {A : Type 0} where
  All-take : (P : A → Type 0) (n : ℕ) (xs : List A) → All P xs → All P (take n xs)
  All-take P zero xs h = tt
  All-take P (suc n) [] h = tt
  All-take P (suc n) (x ∷ xs) h = (h.0, All-take P n xs h.1)

  All-drop : (P : A → Type 0) (n : ℕ) (xs : List A) → All P xs → All P (drop n xs)
  All-drop P zero xs h = h
  All-drop P (suc n) [] h = tt
  All-drop P (suc n) (x ∷ xs) h = All-drop P n xs h.1

  All-mem :
      (P : A → Type 0)
      → ((a : A) → IsProp (P a))
      → (xs : List A) → All P xs
      → (a : A) → Mem a xs
      → P a
  All-mem P prop [] h a m = absurd (not-mem-nil m)
  All-mem P prop (x ∷ xs) h a m =
      Or.elim (prop a) (mem-cons.0 m) (λ e. subst P (sym e) h.0) (All-mem P prop xs h.1 a)

  All-of_mem : (P : A → Type 0) (xs : List A) → ((a : A) → Mem a xs → P a) → All P xs
  All-of_mem P [] h = tt
  All-of_mem P (x ∷ xs) h = (h x mem-cons_self, All-of_mem P xs (λ a m. h a (mem-cons_of_mem x m)))

  All-perm :
      (P : A → Type 0)
      → ((a : A) → IsProp (P a))
      → (xs ys : List A) → Perm xs ys
      → All P xs
      → All P ys
  All-perm P prop xs ys p h = All-of_mem P ys (λ a m. All-mem P prop xs h a ((Perm.mem_iff p).1 m))

  Descends-take :
      (time : A → ℕ) (n : ℕ) (xs : List A) → Descends time xs → Descends time (take n xs)
  Descends-take time zero xs h = tt
  Descends-take time (suc n) [] h = tt
  Descends-take time (suc n) (x ∷ xs) h =
      (All-take (λ b. time b ≤ time x) n xs h.0, Descends-take time n xs h.1)

  Descends-drop :
      (time : A → ℕ) (n : ℕ) (xs : List A) → Descends time xs → Descends time (drop n xs)
  Descends-drop time zero xs h = h
  Descends-drop time (suc n) [] h = tt
  Descends-drop time (suc n) (x ∷ xs) h = Descends-drop time n xs h.1

  length-take_le : (n : ℕ) (xs : List A) → length (take n xs) ≤ n
  length-take_le zero xs = omega arith
  length-take_le (suc n) [] = omega arith
  length-take_le (suc n) (x ∷ xs) = omega (arith, length-take_le n xs)

  take-nil : (n : ℕ) → take {A = A} n [] ≡ []
  take-nil zero = refl
  take-nil (suc n) = refl

  take-add : (n m k : ℕ) (xs : List A) → n + m ≡ k → take n xs ++ take m (drop n xs) ≡ take k xs
  take-add zero m k xs e = let same : m ≡ k = omega arith in ap (λ j. take j xs) same
  take-add (suc n) m zero xs e = absurd (omega arith)
  take-add (suc n) m (suc k) [] e = take-nil m
  take-add (suc n) m (suc k) (x ∷ xs) e = ap (λ l. x ∷ l) (take-add n m k xs (omega arith))

  drop-nil : (n : ℕ) → drop {A = A} n [] ≡ []
  drop-nil zero = refl
  drop-nil (suc n) = refl

  drop-add : (n m k : ℕ) (xs : List A) → n + m ≡ k → drop m (drop n xs) ≡ drop k xs
  drop-add zero m k xs e = let same : m ≡ k = omega arith in ap (λ j. drop j xs) same
  drop-add (suc n) m zero xs e = absurd (omega arith)
  drop-add (suc n) m (suc k) [] e = drop-nil m
  drop-add (suc n) m (suc k) (x ∷ xs) e = drop-add n m k xs (omega arith)

  All-select :
      (selected : A → Bool) (rows : List A)
      → All (λ row. selected row ≡ true) (select_rows selected rows)
  unfolding select_rows
  All-select selected [] = tt
  All-select selected (row ∷ rows) = elim (Bool-cases (selected row)) [
    | inl hit ↦ rw hit (hit, All-select selected rows)
    | inr miss ↦ rw miss (All-select selected rows)
  ]

module _ (pg : Postgres) (user : Uuid) (db : Db) where
  -- The page of `limit` alerts behind the first `offset`.
  abbrev pub page : ℕ → ℕ → List Alert
  page limit offset = take limit (drop offset (user_alerts pg user db))

  -- A page shows alerts of the user only, the newest first, and no more than asked for.
  pub record IsPage (limit : ℕ) (shown : List Alert) : Type 0 where
    pub own : All (λ row. (row.user_id == user) ≡ true) shown
    pub newest_first : Descends (λ row. row.created_at) shown
    pub short : length shown ≤ limit

  pub page-IsPage : OrderLaw pg → (limit offset : ℕ) → IsPage limit (page limit offset)
  unfolding user_alerts
  page-IsPage law limit offset =
      let mine = select_rows (λ row. row.user_id == user) db.alerts in
      let time = λ (row : Alert). row.created_at in
      let sorted = pg.newest_first time mine in
      let own =
        All-perm (λ (row : Alert). (row.user_id == user) ≡ true) (λ row. hlevel) mine sorted
          (law.same_rows time mine) (All-select (λ row. row.user_id == user) db.alerts) in
      record {
        own = All-take _ limit (drop offset sorted) (All-drop _ offset sorted own);
        newest_first =
            Descends-take time limit (drop offset sorted)
              (Descends-drop time offset sorted (law.descends time mine));
        short = length-take_le limit (drop offset sorted);
      }

  page-append : (n m offset : ℕ) → page n offset ++ page m (offset + n) ≡ page (n + m) offset
  page-append n m offset =
      let all = user_alerts pg user db in
      ap (λ l. take n (drop offset all) ++ take m l) (sym (drop-add offset n (offset + n) all refl))
      ∙ take-add n m (n + m) (drop offset all) refl

pub get_user_alerts-page :
    (pg : Postgres) (user : Uuid) (n offset : ℕ) (db : Db)
    → db.faults ≡ []
    → has_columns (codes "alerts") selected_columns db.schema ≡ true
    → get_user_alerts pg user (pos n) (pos offset) db ≡ (ok (page pg user db n offset), db)
unfolding get_user_alerts
get_user_alerts-page pg user n offset db quiet columns = ground (arith, next_fault-quiet db quiet)

-- Alerts are read page by page without gap or repetition: if the database fails no statement and the
-- table has the columns that are named, a page of `n` alerts behind the first `offset` and the page of
-- `m` behind it are together the page of `n + m`. Each page shows alerts of the user only, the newest
-- first, and no more than asked for. The hypothesis: `ORDER BY created_at DESC` obeys `OrderLaw`.
pub get_user_alerts-pages :
    (pg : Postgres) (user : Uuid) (n m offset : ℕ) (db : Db)
    → OrderLaw pg
    → db.faults ≡ []
    → has_columns (codes "alerts") selected_columns db.schema ≡ true
    → (first second both : List Alert) × (get_user_alerts pg user (pos n) (pos offset) db
        ≡ (ok first, db))
      × (get_user_alerts pg user (pos m) (pos (offset + n)) db ≡ (ok second, db))
      × (get_user_alerts pg user (pos (n + m)) (pos offset) db ≡ (ok both, db))
      × (first ++ second ≡ both)
      × IsPage pg user db (n + m) both
get_user_alerts-pages pg user n m offset db law quiet columns =
    let shown = page pg user db in
    (
      shown n offset,
      shown m (offset + n),
      shown (n + m) offset,
      get_user_alerts-page pg user n offset db quiet columns,
      get_user_alerts-page pg user m (offset + n) db quiet columns,
      get_user_alerts-page pg user (n + m) offset db quiet columns,
      page-append pg user db n m offset,
      page-IsPage pg user db law (n + m) offset,
    )
