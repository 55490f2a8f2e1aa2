-- ===== src/Database/Schema/Repeated.antt =====
-- internal/database/database.go: `Migrate` on a database that it has migrated before, as at every start.
use signalstream.Common.{
  ◌≡◌, refl, true, List, [], ◌∷◌, none, some, Err, ok, Text, text_eq_iff, Bool-cases, Option-cases,
  Result-cases, inl, inr, arith,
}
use signalstream.Database.Schema.{
  Schema, Statement, create_table, create_index, columns_of, names, has_column, run_statement, exec,
  Entry, run_entries, migrate,
}

-- A schema that has what another one has.
pub record Extends (s s' : Schema) : Type 0 where
  pub tables :
      (name : Text) (columns : List Text)
      → columns_of name s.tables ≡ some columns
      → columns_of name s'.tables ≡ some columns
  pub indexes : (name : Text) → names name s.indexes ≡ true → names name s'.indexes ≡ true

Extends-refl : (s : Schema) → Extends s s
Extends-refl s = record { tables = λ n c e. e; indexes = λ n e. e }

Extends-trans : (s t u : Schema) → Extends s t → Extends t u → Extends s u
Extends-trans s t u h k = record {
  tables = λ n c e. k.tables n c (h.tables n c e);
  indexes = λ n e. k.indexes n (h.indexes n e);
}

has_column-Extends :
    (table column : Text) (s s' : Schema)
    → Extends s s'
    → has_column table column s ≡ true
    → has_column table column s' ≡ true
unfolding has_column
has_column-Extends table column s s' h e = elim (Option-cases (columns_of table s.tables)) [
  | inl missing ↦ absurd (ground arith)
  | inr (columns, there) ↦ ground (arith, h.tables table columns there)
]

-- The statement has nothing left to do.
abbrev Settled : Statement → Schema → Type 0
Settled (create_table name columns) s = (old : List Text) × (columns_of name s.tables ≡ some old)
Settled (create_index name table column) s =
    (has_column table column s ≡ true) × (names name s.indexes ≡ true)

module _ (sql_error : Statement → Err) where
  run_statement-Extends :
      (st : Statement) (s s' : Schema) → run_statement sql_error st s ≡ ok s' → Extends s s'
  unfolding run_statement columns_of names
  run_statement-Extends (create_table name columns) s s' e =
      elim (Option-cases (columns_of name s.tables)) [
        | inr (old, there) ↦ let same : s ≡ s' = ground arith in rw (← same) (Extends-refl s)
        | inl missing ↦
            let new : Schema = record s { tables = (name, columns) ∷ s.tables } in
            let same : new ≡ s' = ground arith in
            rw (← same)
              (record { tables = λ n c h. ground (arith, text_eq_iff name n); indexes = λ n h. h })
      ]
  run_statement-Extends (create_index name table column) s s' e =
      elim (Bool-cases (has_column table column s)) [
        | inr missing ↦ absurd (ground arith)
        | inl there ↦ elim (Bool-cases (names name s.indexes)) [
          | inl old ↦ let same : s ≡ s' = ground arith in rw (← same) (Extends-refl s)
          | inr fresh ↦
              let new : Schema = record s { indexes = name ∷ s.indexes } in
              let same : new ≡ s' = ground arith in
              rw (← same) (record { tables = λ n c h. h; indexes = λ n h. ground arith })
        ]
      ]

  run_statement-Settled :
      (st : Statement) (s s' : Schema) → run_statement sql_error st s ≡ ok s' → Settled st s'
  unfolding run_statement columns_of names has_column
  run_statement-Settled (create_table name columns) s s' e =
      elim (Option-cases (columns_of name s.tables)) [
        | inr (old, there) ↦ (old, ground arith)
        | inl missing ↦ (columns, ground (arith, text_eq_iff name name))
      ]
  run_statement-Settled (create_index name table column) s s' e =
      elim (Bool-cases (has_column table column s)) [
        | inr missing ↦ absurd (ground arith)
        | inl there ↦ elim (Bool-cases (names name s.indexes)) [
          | inl old ↦ let same : s ≡ s' = ground arith in rw (← same) (there, old)
          | inr fresh ↦
              let same : record s { indexes = name ∷ s.indexes } ≡ s' = ground arith in
              rw (← same) (there, ground (arith, text_eq_iff name name))
        ]
      ]

  Settled-Extends : (st : Statement) (s s' : Schema) → Extends s s' → Settled st s → Settled st s'
  Settled-Extends (create_table name columns) s s' h (old, e) = (old, h.tables name old e)
  Settled-Extends (create_index name table column) s s' h (e, n) =
      (has_column-Extends table column s s' h e, h.indexes name n)

  Settled-run : (st : Statement) (s : Schema) → Settled st s → run_statement sql_error st s ≡ ok s
  unfolding run_statement
  Settled-run (create_table name columns) s (old, e) = ground arith
  Settled-run (create_index name table column) s (e, n) = ground arith

  -- The statements have gone through on the way from `s` to `s'`, and change nothing from there on.
  pub exec-Extends :
      (sts : List Statement) (s s' : Schema)
      → exec sql_error sts s ≡ ok s'
      → Extends s s' × ((t : Schema) → Extends s' t → exec sql_error sts t ≡ ok t)
  unfolding exec
  exec-Extends [] s s' e =
      let same : s ≡ s' = ground arith in rw (← same) (Extends-refl s, λ t h. refl)
  exec-Extends (st ∷ sts) s s' e = elim (Result-cases (run_statement sql_error st s)) [
    | inr (failure, failed) ↦ absurd (ground arith)
    | inl (s₁, run) ↦
        let (more, quiet) = exec-Extends sts s₁ s' (ground arith) in
        (
          Extends-trans s s₁ s' (run_statement-Extends st s s₁ run) more,
          λ t h.
              let settled =
                Settled-Extends st s₁ t (Extends-trans s₁ s' t more h)
                  (run_statement-Settled st s s₁ run) in
              ground (arith, Settled-run st t settled, quiet t h),
        )
  ]

  run_entries-Extends :
      (entries : List Entry) (s s' : Schema)
      → run_entries sql_error entries s ≡ (none, s')
      → Extends s s' × ((t : Schema) → Extends s' t → run_entries sql_error entries t ≡ (none, t))
  unfolding run_entries
  run_entries-Extends [] s s' e =
      let same : s ≡ s' = ground arith in rw (← same) (Extends-refl s, λ t h. refl)
  run_entries-Extends (entry ∷ entries) s s' e = elim (Bool-cases entry.is_dir) [
    | inl dir ↦
        let (more, quiet) = run_entries-Extends entries s s' (ground arith) in
        (more, λ t h. ground (arith, quiet t h))
    | inr file ↦ elim (Result-cases entry.content) [
      | inr (failure, failed) ↦ absurd (ground arith)
      | inl (statements, read) ↦ elim (Result-cases (exec sql_error statements s)) [
        | inr (failure, failed) ↦ absurd (ground arith)
        | inl (s₁, run) ↦
            let (here, still) = exec-Extends statements s s₁ run in
            let (more, quiet) = run_entries-Extends entries s₁ s' (ground arith) in
            (
              Extends-trans s s₁ s' here more,
              λ t h. ground (arith, still t (Extends-trans s₁ s' t more h), quiet t h),
            )
      ]
    ]
  ]

  -- A migration that went through can be run again, as every start of the program does: on the schema
  -- that it left it succeeds and changes nothing. It has only added: every table keeps the columns that
  -- it had, and every index is still there.
  pub migrate-Extends :
      (entries : List Entry) (s s' : Schema)
      → migrate sql_error (ok entries) s ≡ (none, s')
      → Extends s s' × (migrate sql_error (ok entries) s' ≡ (none, s'))
  unfolding migrate
  migrate-Extends entries s s' e =
      let (more, quiet) = run_entries-Extends entries s s' e in (more, quiet s' (Extends-refl s'))
