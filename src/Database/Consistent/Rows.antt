-- ===== src/Database/Consistent/Rows.antt =====
-- Keys and references of a table after an insertion, an update or a deletion.
use signalstream.Common.{
  All-In, ◌≡◌, ◌≢◌, refl, sym, ◌∙◌, inl, inr, Bool, true, false, List, [], ◌∷◌, ◌++◌, map, In, All,
  Bool-cases, is_empty, ap, subst, arith,
}
use signalstream.Database.Statements.{select_rows, update_rows, delete_rows}
use signalstream.Database.Consistent.{Distinct}

module _ {A : Type 0} (P Q : A → Type 0) where
  pub All-update_rows :
      (selected : A → Bool) (change : A → A)
      → ((row : A) → selected row ≡ true → P row → Q (change row))
      → ((row : A) → selected row ≡ false → P row → Q row)
      → (rows : List A) → All P rows
      → All Q (update_rows selected change rows)
  unfolding update_rows
  All-update_rows selected change changed kept [] h = tt
  All-update_rows selected change changed kept (row ∷ rows) h =
      let later = All-update_rows selected change changed kept rows h.1 in
      elim (Bool-cases (selected row)) [
        | inl hit ↦ rw hit (changed row hit h.0, later)
        | inr miss ↦ rw miss (kept row miss h.0, later)
      ]

module _ {A : Type 0} (P : A → Type 0) where
  pub All-append : (rows : List A) (row : A) → All P rows → P row → All P (rows ++ row ∷ [])
  All-append [] row h p = (p, tt)
  All-append (r ∷ rows) row h p = (h.0, All-append rows row h.1 p)

  pub All-delete_rows :
      (selected : A → Bool) (rows : List A) → All P rows → All P (delete_rows selected rows)
  unfolding delete_rows
  All-delete_rows selected [] h = tt
  All-delete_rows selected (row ∷ rows) h = elim (Bool-cases (selected row)) [
    | inl hit ↦ rw hit (All-delete_rows selected rows h.1)
    | inr miss ↦ rw miss (h.0, All-delete_rows selected rows h.1)
  ]

module _ {A : Type 0} (selected : A → Bool) where
  -- A statement that selects no row.
  pub none_selected :
      (rows : List A)
      → is_empty (select_rows selected rows) ≡ true
      → All (λ row. selected row ≡ false) rows
  unfolding select_rows
  none_selected [] h = tt
  none_selected (row ∷ rows) h = elim (Bool-cases (selected row)) [
    | inl hit ↦ absurd (ground arith)
    | inr miss ↦ (miss, none_selected rows (ground arith))
  ]

  -- A statement that selects some row.
  pub some_selected :
      (rows : List A)
      → is_empty (select_rows selected rows) ≡ false
      → (row : A) × In row rows × (selected row ≡ true)
  unfolding select_rows
  some_selected [] h = absurd (ground arith)
  some_selected (row ∷ rows) h = elim (Bool-cases (selected row)) [
    | inl hit ↦ (row, inl refl, hit)
    | inr miss ↦ let (found, m, hit) = some_selected rows (ground arith) in (found, inr m, hit)
  ]

  pub In-delete_rows :
      (rows : List A) (a : A) → In a rows → selected a ≡ false → In a (delete_rows selected rows)
  unfolding delete_rows
  In-delete_rows [] a m e = absurd m
  In-delete_rows (row ∷ rows) a m e = elim (Bool-cases (selected row)) [
    | inl hit ↦ elim m [
      | inl same ↦ absurd (ground (arith, ap selected same))
      | inr later ↦ rw hit (In-delete_rows rows a later e)
    ]
    | inr miss ↦ elim m [
      | inl same ↦ rw miss (inl same)
      | inr later ↦ rw miss (inr (In-delete_rows rows a later e))
    ]
  ]

  pub In-select_rows :
      (rows : List A) (a : A) → In a (select_rows selected rows) → In a rows × (selected a ≡ true)
  unfolding select_rows
  In-select_rows [] a m = absurd m
  In-select_rows (row ∷ rows) a m = elim (Bool-cases (selected row)) [
    | inl hit ↦ elim (rw hit at m) [
      | inl same ↦ (inl same, ap selected same ∙ hit)
      | inr later ↦ let (i, e) = In-select_rows rows a later in (inr i, e)
    ]
    | inr miss ↦ let (i, e) = In-select_rows rows a (rw miss at m) in (inr i, e)
  ]

  pub In-selected :
      (rows : List A) (a : A) → In a rows → selected a ≡ true → In a (select_rows selected rows)
  unfolding select_rows
  In-selected [] a m e = absurd m
  In-selected (row ∷ rows) a m e = elim (Bool-cases (selected row)) [
    | inl hit ↦ elim m [
      | inl same ↦ rw hit (inl same)
      | inr later ↦ rw hit (inr (In-selected rows a later e))
    ]
    | inr miss ↦ elim m [
      | inl same ↦ absurd (ground (arith, ap selected same))
      | inr later ↦ rw miss (In-selected rows a later e)
    ]
  ]

module _ {A : Type 0} where
  pub In-append_left : (rows more : List A) (a : A) → In a rows → In a (rows ++ more)
  In-append_left [] more a m = absurd m
  In-append_left (row ∷ rows) more a (inl e) = inl e
  In-append_left (row ∷ rows) more a (inr m) = inr (In-append_left rows more a m)

module _ {A K : Type 0} (key : A → K) where
  -- A column holds a value in some row.
  pub In-of_map : (rows : List A) (k : K) → In k (map key rows) → (a : A) × In a rows × (k ≡ key a)
  In-of_map [] k m = absurd m
  In-of_map (row ∷ rows) k (inl e) = (row, inl refl, e)
  In-of_map (row ∷ rows) k (inr m) = let (a, i, e) = In-of_map rows k m in (a, inr i, e)

  pub In-map-append :
      (rows more : List A) (k : K) → In k (map key rows) → In k (map key (rows ++ more))
  In-map-append [] more k m = absurd m
  In-map-append (row ∷ rows) more k (inl e) = inl e
  In-map-append (row ∷ rows) more k (inr m) = inr (In-map-append rows more k m)

  pub map-update_rows :
      (selected : A → Bool) (change : A → A)
      → ((row : A) → key (change row) ≡ key row)
      → (rows : List A) → map key (update_rows selected change rows) ≡ map key rows
  unfolding update_rows
  map-update_rows selected change keeps [] = refl
  map-update_rows selected change keeps (row ∷ rows) = elim (Bool-cases (selected row)) [
    | inl hit ↦ rw (hit, keeps row, map-update_rows selected change keeps rows)
    | inr miss ↦ rw (miss, map-update_rows selected change keeps rows)
  ]

  pub Distinct-append :
      (rows : List A) (row : A)
      → Distinct key rows
      → All (λ r. key r ≢ key row) rows
      → Distinct key (rows ++ row ∷ [])
  Distinct-append [] row d h = (tt, tt)
  Distinct-append (r ∷ rows) row d h = (
    All-append (λ other. key other ≢ key r) rows row d.0 (λ e. h.0 (sym e)),
    Distinct-append rows row d.1 h.1,
  )

  pub Distinct-delete_rows :
      (selected : A → Bool) (rows : List A)
      → Distinct key rows
      → Distinct key (delete_rows selected rows)
  unfolding delete_rows
  Distinct-delete_rows selected [] d = tt
  Distinct-delete_rows selected (row ∷ rows) d = elim (Bool-cases (selected row)) [
    | inl hit ↦ rw hit (Distinct-delete_rows selected rows d.1)
    | inr miss ↦ rw miss (
      All-delete_rows (λ other. key other ≢ key row) selected rows d.0,
      Distinct-delete_rows selected rows d.1,
    )
  ]

  pub Distinct-update_rows :
      (selected : A → Bool) (change : A → A)
      → ((row : A) → key (change row) ≡ key row)
      → (rows : List A) → Distinct key rows
      → Distinct key (update_rows selected change rows)
  unfolding update_rows
  Distinct-update_rows selected change keeps [] d = tt
  Distinct-update_rows selected change keeps (row ∷ rows) d =
      let others =
        All-update_rows (λ other. key other ≢ key row) (λ other. key other ≢ key row) selected
          change (λ r _ ne e. ne (sym (keeps r) ∙ e)) (λ r _ ne. ne) rows d.0 in
      let later = Distinct-update_rows selected change keeps rows d.1 in
      elim (Bool-cases (selected row)) [
        | inl hit ↦ rw hit (
          subst (λ k. All (λ other. key other ≢ k) (update_rows selected change rows))
              (sym (keeps row)) others,
          later,
        )
        | inr miss ↦ rw miss (others, later)
      ]

  -- Two rows with one key are one row.
  pub Distinct-eq :
      (rows : List A) (a b : A) → Distinct key rows → In a rows → In b rows → key a ≡ key b → a ≡ b
  Distinct-eq [] a b d m n e = absurd m
  Distinct-eq (row ∷ rows) a b d (inl p) (inl q) e = p ∙ sym q
  Distinct-eq (row ∷ rows) a b d (inl p) (inr n) e =
      absurd (All-In (λ other. key other ≢ key row) rows b d.0 n (sym e ∙ ap key p))
  Distinct-eq (row ∷ rows) a b d (inr m) (inl q) e =
      absurd (All-In (λ other. key other ≢ key row) rows a d.0 m (e ∙ ap key q))
  Distinct-eq (row ∷ rows) a b d (inr m) (inr n) e = Distinct-eq rows a b d.1 m n e
