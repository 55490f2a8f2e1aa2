-- ===== src/Database/Strategies/Once.antt =====
-- internal/database/strategies.go: how often the alerter is given a strategy.
use signalstream.Common.{
  ◌≡◌, ◌≢◌, ◌↔◌, refl, arith, sym, ◌∙◌, ap, List, [], ◌∷◌, ◌++◌, ok, In, inl, inr, All, All-In,
  All-of_In,
}
use signalstream.Database.{Uuid, User, Strategy}
use signalstream.Database.Statements.{Db}
use signalstream.Database.Statements.Faults.{next_fault-quiet}
use signalstream.Database.Consistent.{Distinct}
use signalstream.Database.Consistent.Rows.{Distinct-eq}
use signalstream.Database.Strategies.{join_user, join_users, get_all_active_strategies}
use signalstream.Database.Strategies.Active.{
  IsActiveOf, join_user-In, join_user-cases, join_users_iff,
}

module _ {A K : Type 0} (key : A → K) where
  All-join : (P : A → Type 0) (xs ys : List A) → All P xs → All P ys → All P (xs ++ ys)
  All-join P [] ys p q = q
  All-join P (x ∷ xs) ys p q = (p.0, All-join P xs ys p.1 q)

  Distinct-join :
      (xs ys : List A)
      → Distinct key xs
      → Distinct key ys
      → ((x y : A) → In x xs → In y ys → key y ≢ key x)
      → Distinct key (xs ++ ys)
  Distinct-join [] ys d d' apart = d'
  Distinct-join (x ∷ xs) ys d d' apart = (
    All-join _ xs ys d.0 (All-of_In (λ y. key y ≢ key x) ys (λ y m. apart x y (inl refl) m)),
    Distinct-join xs ys d.1 d' (λ x' y m n. apart x' y (inr m) n),
  )

-- The identifier of a strategy.
abbrev key : Strategy → Uuid
key s = s.id

join_user-Distinct :
    (user : User) (strategies : List Strategy)
    → Distinct key strategies
    → Distinct key (join_user user strategies)
unfolding join_user
join_user-Distinct user [] d = tt
join_user-Distinct user (s ∷ rest) d =
    let ih = join_user-Distinct user rest d.1 in
    elim (join_user-cases user s rest) [
      | inr (_, same) ↦ rw same ih
      | inl (_, same) ↦ rw same (
        All-of_In (λ (t : Strategy). t.id ≢ s.id) (join_user user rest)
            (λ t m e.
              let (s', i, _, from) = join_user-In user rest t m in
              All-In (λ (other : Strategy). other.id ≢ s.id) rest s' d.0 i (sym (ap key from) ∙ e)),
        ih,
      )
    ]

join_users-Distinct :
    (users : List User) (strategies : List Strategy)
    → Distinct (λ (u : User). u.id) users
    → Distinct key strategies
    → Distinct key (join_users users strategies)
unfolding join_users
join_users-Distinct [] strategies d d' = tt
join_users-Distinct (user ∷ users) strategies d d' =
    Distinct-join key (join_user user strategies) (join_users users strategies)
      (join_user-Distinct user strategies d') (join_users-Distinct users strategies d.1 d')
      (λ t t' m n e.
        let (s, i, (owner, _), from) = join_user-In user strategies t m in
        let (s', user', i', j, (owner', _), from') = (join_users_iff users strategies t').0 n in
        let same : s' ≡ s =
          Distinct-eq key strategies s' s d' i' i (sym (ap key from') ∙ e ∙ ap key from) in
        All-In (λ (other : User). other.id ≢ user.id) users user' d.0 j
          (sym owner' ∙ ap (λ (r : Strategy). r.user_id) same ∙ owner))

-- The strategies that the alerter is given, if no two users and no two strategies have the same
-- identifier and the database fails no statement: each active one of an existing user, and each once.
pub get_all_active_once :
    (db : Db)
    → db.faults ≡ []
    → Distinct (λ (u : User). u.id) db.users
    → Distinct (λ (s : Strategy). s.id) db.strategies
    → (given : List Strategy) × (get_all_active_strategies db ≡ (ok given, db))
      × ((t : Strategy) → In t given ↔ IsActiveOf db.users db.strategies t)
      × Distinct (λ (s : Strategy). s.id) given
unfolding get_all_active_strategies
get_all_active_once db quiet d d' = (
  join_users db.users db.strategies,
  ground (arith, next_fault-quiet db quiet),
  join_users_iff db.users db.strategies,
  join_users-Distinct db.users db.strategies d d',
)
