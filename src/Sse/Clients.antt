-- ===== src/Sse/Clients.antt =====
-- internal/sse/broker.go: the map of clients under registration and removal.
use signalstream.Common.{
  ℕ, ◌≡◌, ◌↔◌, refl, ap, Bool, true, false, List, [], ◌∷◌, Text, In, text_eq, text_eq_iff, is_empty,
  ◌==◌, if◌then◌else◌, arith,
}
use signalstream.Sse.{Clients, user_clients, contains, erase, add_client, remove_client}

unfoldable pub has_user : Text → Clients → Bool
has_user u [] = false
has_user u ((v, cs) ∷ m) = if text_eq v u then true else has_user u m

-- Every user is listed once, with at least one channel.
abbrev pub IsTidy : Clients → Type 0
IsTidy [] = Unit
IsTidy ((v, cs) ∷ m) = (has_user v m ≡ false) × (is_empty cs ≡ false) × IsTidy m

pub contains_iff : (i : ℕ) (js : List ℕ) → (contains i js ≡ true) ↔ In i js
unfolding contains
contains_iff i [] = ground arith
contains_iff i (j ∷ js) = ground (arith, contains_iff i js)

pub contains-erase :
    (i j : ℕ) (js : List ℕ) → contains i (erase j js) ≡ (if j == i then false else contains i js)
unfolding contains erase
contains-erase i j [] = ground arith
contains-erase i j (k ∷ ks) = ground (arith, contains-erase i j ks)

pub user_clients-absent : (u : Text) (m : Clients) → has_user u m ≡ false → user_clients u m ≡ []
unfolding has_user user_clients
user_clients-absent u [] h = refl
user_clients-absent u ((v, cs) ∷ m) h = ground (arith, user_clients-absent u m)

pub contains-add_client :
    (u v : Text) (i j : ℕ) (m : Clients)
    → contains j (user_clients v (add_client u i m)) ≡ (
        if text_eq u v
        then if j == i then true else contains j (user_clients v m)
        else contains j (user_clients v m))
unfolding user_clients add_client contains
contains-add_client u v i j [] = ground arith
contains-add_client u v i j ((k, cs) ∷ m) =
    ground (arith, text_eq_iff k u, text_eq_iff k v, text_eq_iff u v, contains-add_client u v i j m)

pub has_user-add_client :
    (u v : Text) (i : ℕ) (m : Clients)
    → has_user v (add_client u i m) ≡ (if text_eq u v then true else has_user v m)
unfolding has_user add_client
has_user-add_client u v i [] = ground arith
has_user-add_client u v i ((k, cs) ∷ m) =
    ground (arith, text_eq_iff k u, text_eq_iff k v, text_eq_iff u v, has_user-add_client u v i m)

pub add_client-IsTidy : (u : Text) (i : ℕ) (m : Clients) → IsTidy m → IsTidy (add_client u i m)
unfolding add_client has_user
add_client-IsTidy u i [] h = ground arith
add_client-IsTidy u i ((k, cs) ∷ m) h = ground (
  arith,
  text_eq_iff k u,
  text_eq_iff u k,
  has_user-add_client u k i m,
  add_client-IsTidy u i m h.2,
)

pub has_user-remove_client :
    (u v : Text) (i : ℕ) (m : Clients)
    → has_user v m ≡ false
    → has_user v (remove_client u i m) ≡ false
unfolding has_user remove_client
has_user-remove_client u v i [] h = refl
has_user-remove_client u v i ((k, cs) ∷ m) h = ground (arith, has_user-remove_client u v i m)

pub remove_client-IsTidy :
    (u : Text) (i : ℕ) (m : Clients) → IsTidy m → IsTidy (remove_client u i m)
unfolding remove_client
remove_client-IsTidy u i [] h = h
remove_client-IsTidy u i ((k, cs) ∷ m) h =
    ground (arith, has_user-remove_client u k i m, remove_client-IsTidy u i m h.2)

is_empty-contains : (i : ℕ) (js : List ℕ) → is_empty js ≡ true → contains i js ≡ false
unfolding contains
is_empty-contains i [] h = refl
is_empty-contains i (j ∷ js) h = cc

pub contains-remove_client :
    (u v : Text) (i j : ℕ) (m : Clients)
    → IsTidy m
    → contains j (user_clients v (remove_client u i m)) ≡ (
        if text_eq u v
        then if i == j then false else contains j (user_clients v m)
        else contains j (user_clients v m))
unfolding user_clients remove_client contains
contains-remove_client u v i j [] h = ground arith
contains-remove_client u v i j ((k, cs) ∷ m) h = ground (
  arith,
  text_eq_iff k u,
  text_eq_iff k v,
  text_eq_iff u v,
  user_clients-absent k m,
  contains-erase j i cs,
  is_empty-contains j (erase i cs),
  contains-remove_client u v i j m h.2,
)

-- No channel is listed twice.
abbrev pub IsDistinct : List ℕ → Type 0
IsDistinct [] = Unit
IsDistinct (i ∷ is) = (contains i is ≡ false) × IsDistinct is

pub erase-IsDistinct : (i : ℕ) (is : List ℕ) → IsDistinct is → IsDistinct (erase i is)
unfolding erase
erase-IsDistinct i [] h = tt
erase-IsDistinct i (j ∷ js) h = ground (arith, contains-erase j i js, erase-IsDistinct i js h.1)

pub user_clients-add_client-IsDistinct :
    (u v : Text) (i : ℕ) (m : Clients)
    → IsDistinct (user_clients v m)
    → IsDistinct (user_clients v (add_client u i m))
unfolding user_clients add_client contains
user_clients-add_client-IsDistinct u v i [] h = ground arith
user_clients-add_client-IsDistinct u v i ((k, cs) ∷ m) h = ground (
  arith,
  text_eq_iff k u,
  text_eq_iff k v,
  text_eq_iff u v,
  user_clients-add_client-IsDistinct u v i m,
)

pub user_clients-remove_client-IsDistinct :
    (u v : Text) (i : ℕ) (m : Clients)
    → IsTidy m
    → IsDistinct (user_clients v m)
    → IsDistinct (user_clients v (remove_client u i m))
unfolding user_clients remove_client
user_clients-remove_client-IsDistinct u v i [] t h = h
user_clients-remove_client-IsDistinct u v i ((k, cs) ∷ m) t h = ground (
  arith,
  text_eq_iff k v,
  text_eq_iff k u,
  user_clients-absent k m,
  erase-IsDistinct i cs,
  user_clients-remove_client-IsDistinct u v i m t.2,
  ap IsDistinct (user_clients-absent k m t.0),
)
