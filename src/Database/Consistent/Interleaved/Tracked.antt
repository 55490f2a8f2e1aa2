-- ===== src/Database/Consistent/Interleaved/Tracked.antt =====
-- internal/database: what every interleaving of the statements keeps.
use signalstream.Common.{
  ◌≡◌, refl, sym, ◌∙◌, ap, subst, inl, inr, List, [], ◌∷◌, ◌++◌, ok, In, All, All-In, All-imp,
  All-of_In, Option-cases, arith,
}
use signalstream.Database.{User, Uuid, Strategy, Alert}
use signalstream.Database.Postgres.{Postgres}
use signalstream.Database.Statements.{Db, next_fault, set_strategy}
use signalstream.Database.Strategies.{new_strategy, get_all_active_strategies, join_users}
use signalstream.Database.Strategies.Active.{IsActiveOf, join_users_iff}
use signalstream.Database.Consistent.{IsConsistent, owned}
use signalstream.Database.Consistent.Kept.{
  next_fault-strategies, create_user-strategies, add_api_key-strategies, delete_api_key-strategies,
  mark_alert_read-strategies, create_alert-strategies, create_strategy-All, update_strategy-All,
  delete_strategy-All,
}
use signalstream.Database.Consistent.Lookups.{next_fault-IsConsistent, moment-IsConsistent}
use signalstream.Database.Consistent.Strategies.{
  create_strategy-IsConsistent, update_strategy-IsConsistent,
}
use signalstream.Database.Consistent.Deletion.{delete_strategy-IsConsistent}
use signalstream.Database.Consistent.Alerts.{
  NamesOwn, create_alert-IsConsistent, mark_alert_read-IsConsistent,
}
use signalstream.Database.Consistent.Accounts.{
  create_user-IsConsistent, add_api_key-IsConsistent, delete_api_key-IsConsistent,
}
use signalstream.Database.Consistent.Interleaved.{
  Tables, Step, registers, creates, updates, deletes, adds_key, deletes_key, reads_alert, loads,
  alerts, passes, Reach, here, later, IsTracked,
}

module _ (pg : Postgres) where
  -- A strategy that the alerter is given has the id and the user of a row.
  loaded-listed :
      (db db' : Db) (strategies : List Strategy) (history : List (Uuid × Uuid))
      → get_all_active_strategies db ≡ (ok strategies, db')
      → All (λ s. In (owned s) history) db.strategies
      → All (λ s. In (owned s) history) strategies × (db' ≡ (next_fault db).1)
  unfolding get_all_active_strategies
  loaded-listed db db' strategies history h rows = elim (Option-cases (next_fault db).0) [
    | inr (e, failed) ↦ absurd (ground arith)
    | inl fine ↦
        let read = (next_fault db).1 in
        let rows' =
          subst (All (λ s. In (owned s) history)) (sym (next_fault-strategies pg db)) rows in
        let listed : strategies ≡ join_users read.users read.strategies = ground arith in
        (
          All-of_In (λ s. In (owned s) history) strategies
              (λ t m.
                row_of t read.users read.strategies rows'
                  ((join_users_iff read.users read.strategies t).0 (subst (In t) listed m))),
          ground arith,
        )
  ]
    where
      row_of :
          (t : Strategy) (users : List User) (strategies : List Strategy)
          → All (λ s. In (owned s) history) strategies
          → IsActiveOf users strategies t
          → In (owned t) history
      row_of t users strategies rows (s, user, i, j, a, e) =
          subst (λ p. In p history) (sym (ap owned e))
            (All-In (λ s. In (owned s) history) strategies s rows i)

  All-append_lists :
      {A : Type 0} (P : A → Type 0) (xs ys : List A) → All P xs → All P ys → All P (xs ++ ys)
  All-append_lists P [] ys h k = k
  All-append_lists P (x ∷ xs) ys h k = (h.0, All-append_lists P xs ys h.1 k)

  -- A new pair in the history.
  more_inserted :
      (p : Uuid × Uuid) (history : List (Uuid × Uuid)) (rows : List Strategy)
      → All (λ s. In (owned s) history) rows
      → All (λ s. In (owned s) (p ∷ history)) rows
  more_inserted p history rows h =
      All-imp (λ s. In (owned s) history) (λ s. In (owned s) (p ∷ history)) (λ s m. inr m) rows h

  one_user-fresh :
      (id user : Uuid) (history : List (Uuid × Uuid))
      → ((u : Uuid) → ¬ In (id, u) history)
      → ((i u v : Uuid) → In (i, u) history → In (i, v) history → u ≡ v)
      → (i u v : Uuid) → In (i, u) ((id, user) ∷ history)
      → In (i, v) ((id, user) ∷ history)
      → u ≡ v
  one_user-fresh id user history fresh one i u v (inl p) (inl q) = ground arith
  one_user-fresh id user history fresh one i u v (inl p) (inr n) =
      let same : i ≡ id = ap (λ (x : Uuid × Uuid). x.0) p in
      absurd (fresh v (subst (λ k. In (k, v) history) same n))
  one_user-fresh id user history fresh one i u v (inr m) (inl q) =
      let same : i ≡ id = ap (λ (x : Uuid × Uuid). x.0) q in
      absurd (fresh u (subst (λ k. In (k, u) history) same m))
  one_user-fresh id user history fresh one i u v (inr m) (inr n) = one i u v m n

  -- A statement that leaves the strategies alone.
  other_table :
      (t : Tables) (db : Db)
      → IsTracked pg t
      → db.strategies ≡ t.db.strategies
      → IsConsistent db
      → IsTracked pg (record t { db = db })
  other_table t db k same c = record {
    consistent = c;
    one_user = k.one_user;
    rows = subst (All (λ s. In (owned s) t.inserted)) (sym same) k.rows;
    loaded = k.loaded;
  }

  alert-NamesOwn :
      (t : Tables) (s : Strategy) (alert : Alert)
      → IsTracked pg t
      → In s t.given
      → alert.strategy_id ≡ s.id
      → alert.user_id ≡ s.user_id
      → NamesOwn t.db.strategies alert
  alert-NamesOwn t s alert k m same_id same_user row there named =
      let mine = All-In (λ s. In (owned s) t.inserted) t.given s k.loaded m in
      let its = All-In (λ s. In (owned s) t.inserted) t.db.strategies row k.rows there in
      let ids : row.id ≡ s.id = named ∙ same_id in
      k.one_user s.id row.user_id s.user_id (subst (λ i. In (i, row.user_id) t.inserted) ids its)
        mine
      ∙ sym same_user

  Step-IsTracked : {t t' : Tables} → Step pg t t' → IsTracked pg t → IsTracked pg t'
  unfolding new_strategy set_strategy
  Step-IsTracked {t = t} (registers email hash) k =
      other_table t _ k (create_user-strategies pg t.db email hash)
        (create_user-IsConsistent pg.new_uuid email hash t.db k.consistent)
  Step-IsTracked {t = t} (creates s nonzero fresh) k =
      let pair : Uuid × Uuid = (pg.new_uuid (next_fault t.db).1, s.user_id) in
      record {
        consistent = create_strategy-IsConsistent pg s t.db nonzero k.consistent;
        one_user = one_user-fresh _ s.user_id t.inserted fresh k.one_user;
        rows =
            create_strategy-All pg t.db (λ s. In (owned s) (pair ∷ t.inserted))
              (more_inserted pair t.inserted t.db.strategies k.rows) s (inl refl);
        loaded = more_inserted pair t.inserted t.given k.loaded;
      }
  Step-IsTracked {t = t} (updates s) k = record {
    consistent = update_strategy-IsConsistent s t.db k.consistent;
    one_user = k.one_user;
    rows = update_strategy-All pg t.db (λ s. In (owned s) t.inserted) k.rows s (λ row m. m);
    loaded = k.loaded;
  }
  Step-IsTracked {t = t} (deletes id user) k = record {
    consistent = delete_strategy-IsConsistent id user t.db k.consistent;
    one_user = k.one_user;
    rows = delete_strategy-All pg t.db (λ s. In (owned s) t.inserted) k.rows id user;
    loaded = k.loaded;
  }
  Step-IsTracked {t = t} (adds_key user provider key) k =
      other_table t _ k (add_api_key-strategies pg t.db user provider key)
        (add_api_key-IsConsistent pg.new_uuid pg.violation user provider key t.db k.consistent)
  Step-IsTracked {t = t} (deletes_key user provider) k =
      other_table t _ k (delete_api_key-strategies pg t.db user provider)
        (delete_api_key-IsConsistent user provider t.db k.consistent)
  Step-IsTracked {t = t} (reads_alert id user) k =
      other_table t _ k (mark_alert_read-strategies pg t.db id user)
        (mark_alert_read-IsConsistent id user t.db k.consistent)
  Step-IsTracked {t = t} (loads strategies db h) k =
      let (listed, same) = loaded-listed t.db db strategies t.inserted h k.rows in
      record {
        consistent = rw same (next_fault-IsConsistent t.db k.consistent);
        one_user = k.one_user;
        rows =
            subst (All (λ s. In (owned s) t.inserted))
              (sym (ap (λ (d : Db). d.strategies) same ∙ next_fault-strategies pg t.db)) k.rows;
        loaded = All-append_lists (λ s. In (owned s) t.inserted) strategies t.given listed k.loaded;
      }
  Step-IsTracked {t = t} (alerts s alert m same_id same_user) k =
      other_table t _ k (create_alert-strategies pg t.db alert) (
        create_alert-IsConsistent pg alert t.db (alert-NamesOwn t s alert k m same_id same_user)
          k.consistent)
  Step-IsTracked {t = t} (passes clock faults) k =
      other_table t _ k refl (moment-IsConsistent clock faults t.db k.consistent)

  -- In every interleaving of the statements that requests and the alerter execute, from a consistent database
  -- without strategies, the ids of each table, the emails, and the user and provider of the API keys
  -- are distinct, every row's user exists, and an alert's strategy is NULL or exists and belongs to the
  -- alert's user, also if the strategy was deleted or changed after the alerter was given it; whichever
  -- statements the driver fails. The condition on the steps: the database generates no zero UUID and no
  -- UUID again for a strategy.
  pub Reach-IsTracked :
      (db : Db) (t : Tables)
      → IsConsistent db
      → db.strategies ≡ []
      → Reach pg (record { db = db; inserted = []; given = [] }) t
      → IsTracked pg t
  Reach-IsTracked db t c no_rows here = record {
    consistent = c;
    one_user = λ id u v m. absurd m;
    rows = rw no_rows tt;
    loaded = tt;
  }
  Reach-IsTracked db t c no_rows (later before step) =
      Step-IsTracked step (Reach-IsTracked db _ c no_rows before)
