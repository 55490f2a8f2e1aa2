-- ===== src/Database/Strategies/Active.antt =====
-- internal/database/strategies.go: which strategies the alerter is given.
use signalstream.Common.{
  ◌≡◌, ◌↔◌, ◌⊎◌, refl, subst, ap, sym, ◌∙◌, inl, inr, true, ◌&&◌, List, [], ◌∷◌, ◌++◌, ok, In, ◌==◌,
  Bool-cases, arith,
}
use signalstream.Database.{User, Strategy}
use signalstream.Database.Statements.{Db}
use signalstream.Database.Statements.Faults.{next_fault-quiet}
use signalstream.Database.Strategies.{join_user, join_users, get_all_active_strategies}

In-append : {A : Type 0} (a : A) (xs ys : List A) → In a (xs ++ ys) ↔ (In a xs ⊎ In a ys)
In-append a [] ys = (λ h. inr h, λ h. elim h [ inl n ↦ absurd n | inr m ↦ m ])
In-append a (x ∷ xs) ys = ground (arith, In-append a xs ys)

-- The strategy as the query returns it for its owner.
abbrev pub with_owner : Strategy → User → Strategy
with_owner s user = record s { owner_email = user.email }

-- An active strategy, and the user that it belongs to.
abbrev pub ActiveOf : Strategy → User → Type 0
ActiveOf s user = (s.user_id ≡ user.id) × (s.is_active ≡ true)

module _ (user : User) (s : Strategy) (rest : List Strategy) where
  pub join_user-cases :
      (ActiveOf s user × (join_user user (s ∷ rest) ≡ with_owner s user ∷ join_user user rest))
      ⊎ ((¬ ActiveOf s user) × (join_user user (s ∷ rest) ≡ join_user user rest))
  unfolding join_user
  join_user-cases = elim (Bool-cases ((s.user_id == user.id) && s.is_active)) [
    | inl joined ↦ inl (ground arith, ground arith)
    | inr left_out ↦ inr ((λ a. ground arith), ground arith)
  ]

pub join_user-In :
    (user : User) (strategies : List Strategy) (t : Strategy)
    → In t (join_user user strategies)
    → (s : Strategy) × In s strategies × ActiveOf s user × (t ≡ with_owner s user)
unfolding join_user
join_user-In user [] t m = absurd m
join_user-In user (s ∷ rest) t m = elim (join_user-cases user s rest) [
  | inl (a, same) ↦ elim (subst (In t) same m) [
    | inl e ↦ (s, inl refl, a, e)
    | inr later ↦ let (s', i, a', e) = join_user-In user rest t later in (s', inr i, a', e)
  ]
  | inr (_, same) ↦
      let (s', i, a, e) = join_user-In user rest t (subst (In t) same m) in (s', inr i, a, e)
]

In-join_user :
    (user : User) (strategies : List Strategy) (s : Strategy)
    → In s strategies
    → ActiveOf s user
    → In (with_owner s user) (join_user user strategies)
In-join_user user [] s m a = absurd m
In-join_user user (s' ∷ rest) s m a = elim (join_user-cases user s' rest) [
  | inl (_, same) ↦ rw same elim m [
    | inl e ↦ inl (ap (λ r. with_owner r user) e)
    | inr later ↦ inr (In-join_user user rest s later a)
  ]
  | inr (inactive, same) ↦ rw same elim m [
    | inl e ↦ absurd (inactive (subst (λ r. ActiveOf r user) e a))
    | inr later ↦ In-join_user user rest s later a
  ]
]

-- What a strategy is, that the query returns for some owner among the users.
abbrev pub IsActiveOf : List User → List Strategy → Strategy → Type 0
IsActiveOf users strategies t =
    (s : Strategy) × (user : User) × In s strategies
    × In user users
    × ActiveOf s user
    × (t ≡ with_owner s user)

pub join_users_iff :
    (users : List User) (strategies : List Strategy) (t : Strategy)
    → In t (join_users users strategies) ↔ IsActiveOf users strategies t
unfolding join_users
join_users_iff [] strategies t = (λ m. absurd m, λ (s, user, i, j, a, e). j)
join_users_iff (user ∷ users) strategies t =
    let ih = join_users_iff users strategies t in
    let split = In-append t (join_user user strategies) (join_users users strategies) in
    (
      λ m. elim (split.0 m) [
        | inl here ↦
            let (s, i, a, e) = join_user-In user strategies t here in (s, user, i, inl refl, a, e)
        | inr later ↦ let (s, u, i, j, a, e) = ih.0 later in (s, u, i, inr j, a, e)
      ],
      λ (s, u, i, j, a, e). split.1 elim j [
        | inl same ↦ inl (
            subst (λ r. In r (join_user user strategies)) (sym (e ∙ ap (with_owner s) same))
              (In-join_user user strategies s i (subst (ActiveOf s) same a)))
        | inr later ↦ inr (ih.1 (s, u, i, later, a, e))
      ],
    )

-- If the database fails no statement, the alerter is given exactly the active strategies whose user
-- exists, each with the email of that user, and the query changes nothing.
pub get_all_active_iff :
    (db : Db)
    → db.faults ≡ []
    → (given : List Strategy) × (get_all_active_strategies db ≡ (ok given, db))
      × ((t : Strategy) → In t given ↔ IsActiveOf db.users db.strategies t)
unfolding get_all_active_strategies
get_all_active_iff db quiet = (
  join_users db.users db.strategies,
  ground (arith, next_fault-quiet db quiet),
  join_users_iff db.users db.strategies,
)
