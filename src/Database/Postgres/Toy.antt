-- ===== src/Database/Postgres/Toy.antt =====
-- A stand-in for PostgreSQL that sorts by insertion.
use signalstream.Common.{◌≡◌, true, refl, suc, ◌<◌, ◌==◌, is_empty}
use signalstream.Database.{Alert}
use signalstream.Database.Statements.{Db, select_rows}
use mathlib.Core.List.{Perm}
use mathlib.Core.List.Perm
use signalstream.Common.{
  ℕ, ◌+◌, ◌≤◌, List, [], ◌∷◌, All, plain, codes, length, leb, Bool-cases, inl, inr, if◌then◌else◌,
  arith,
}
use signalstream.Database.Postgres.{Postgres, OrderLaw, Descends}

module _ {A : Type 0} (time : A → ℕ) where
  unfoldable pub insert_row : A → List A → List A
  insert_row a [] = a ∷ []
  insert_row a (b ∷ rest) =
      let later = insert_row a rest in if leb (time b) (time a) then a ∷ b ∷ rest else b ∷ later

  unfoldable pub sort_rows : List A → List A
  sort_rows [] = []
  sort_rows (a ∷ rest) = insert_row a (sort_rows rest)

  insert_row-same : (a : A) (rows : List A) → Perm (a ∷ rows) (insert_row a rows)
  unfolding insert_row
  insert_row-same a [] = Perm.refl (a ∷ [])
  insert_row-same a (b ∷ rest) = elim (Bool-cases (leb (time b) (time a))) [
    | inl newer ↦ rw newer (Perm.refl (a ∷ b ∷ rest))
    | inr older ↦ rw older (Perm.trans (Perm.swap b a rest) (Perm.cons b (insert_row-same a rest)))
  ]

  sort_rows-same : (rows : List A) → Perm rows (sort_rows rows)
  unfolding sort_rows
  sort_rows-same [] = Perm.nil
  sort_rows-same (a ∷ rest) =
      Perm.trans (Perm.cons a (sort_rows-same rest)) (insert_row-same a (sort_rows rest))

  insert_row-All :
      (n : ℕ) (a : A) (rows : List A)
      → time a ≤ n
      → All (λ b. time b ≤ n) rows
      → All (λ b. time b ≤ n) (insert_row a rows)
  unfolding insert_row
  insert_row-All n a [] h k = (h, tt)
  insert_row-All n a (b ∷ rest) h k = elim (Bool-cases (leb (time b) (time a))) [
    | inl newer ↦ rw newer (h, k)
    | inr older ↦ rw older (k.0, insert_row-All n a rest h k.1)
  ]

  All-le :
      (m n : ℕ) (rows : List A) → m ≤ n → All (λ b. time b ≤ m) rows → All (λ b. time b ≤ n) rows
  All-le m n [] h k = tt
  All-le m n (b ∷ rest) h k = (omega (arith, k.0), All-le m n rest h k.1)

  insert_row-Descends :
      (a : A) (rows : List A) → Descends time rows → Descends time (insert_row a rows)
  unfolding insert_row
  insert_row-Descends a [] h = (tt, tt)
  insert_row-Descends a (b ∷ rest) h = elim (Bool-cases (leb (time b) (time a))) [
    | inl newer ↦
        let le : time b ≤ time a = ground arith in
        rw newer ((le, All-le (time b) (time a) rest le h.0), h)
    | inr older ↦
        let le : time a ≤ time b = ground arith in
        rw older (insert_row-All (time b) a rest le h.0, insert_row-Descends a rest h.1)
  ]

  sort_rows-Descends : (rows : List A) → Descends time (sort_rows rows)
  unfolding sort_rows
  sort_rows-Descends [] = tt
  sort_rows-Descends (a ∷ rest) = insert_row-Descends a (sort_rows rest) (sort_rows-Descends rest)

abbrev pub sum_ids : List Alert → ℕ
sum_ids [] = 0
sum_ids (row ∷ rows) = row.id + sum_ids rows

select_rows-above :
    (n : ℕ) (rows : List Alert)
    → sum_ids rows < n
    → is_empty (select_rows (λ row. row.id == n) rows) ≡ true
unfolding select_rows
select_rows-above n [] h = refl
select_rows-above n (row ∷ rows) h = ground (arith, select_rows-above n rows (omega arith))

abbrev pub toy : Postgres
toy = record {
  new_uuid = λ db. suc (sum_ids db.alerts + length db.users);
  violation = plain (codes "violates a constraint");
  undefined_column = plain (codes "column does not exist");
  negative_limit = plain (codes "LIMIT must not be negative");
  newest_first = λ time rows. sort_rows time rows;
}

pub toy-law : OrderLaw toy
toy-law = record { same_rows = sort_rows-same; descends = sort_rows-Descends }

pub toy-new_ids :
    (db : Db) → is_empty (select_rows (λ row. row.id == toy.new_uuid db) db.alerts) ≡ true
toy-new_ids db = select_rows-above (toy.new_uuid db) db.alerts (omega arith)
