-- ===== src/Handles/Ownership.antt =====
-- Which environment owns which connection, over every history of handle calls
-- (src/driver/cpp/SnappyEnvironment.cpp, SnappyConnection.cpp).
use mathlib.Core.List.{append-nil}
use snappy_odbc.Common.{
  ℕ, ◌<◌, ◌≡◌, refl, sym, ap, ◌∙◌, true, false, none, some, List, [], ◌∷◌, ◌++◌, map, arith, ◌==◌,
  is_some, All, All-append, Bool-cases, inl, inr, ◌≢◌,
}
use snappy_odbc.Handles.{
  Env, Conn, Driver, find_env, find_conn, set_env, set_conn, delete_env, delete_conn, erase,
  contains, new_env, new_conn, add_new_active_connection, remove_active_connection,
}
use snappy_odbc.Handles.Store.{
  find_env-set_env, find_env-id, find_env-delete_env, find_env-append, All-find_env, All-delete_env,
  All-delete_conn, conns_of, conns_of-append, conns_of-delete_conn, conns_of-set_conn, conns_of-nil,
}

abbrev pub Registers : List Conn → Env → Type 0
Registers cs e = e.connections ≡ conns_of e.env_id cs

abbrev pub OwnerLives : List Env → Conn → Type 0
OwnerLives es c = is_some (find_env c.env_ref es) ≡ true

-- Each live environment registers just the live connections that refer to it, in their order, and
-- each live connection refers to a live environment.
pub record Inv (d : Driver) : Type 0 where
  pub registered : All (Registers d.conns) d.envs
  pub owned : All (OwnerLives d.envs) d.conns
  pub tracked : d.env_handles ≡ map (λ e. e.env_id) d.envs
  pub fresh : All (λ e. e.env_id < d.next_id) d.envs

-- What the lists of one driver state satisfy does not depend on the other fields.
abbrev pub Owns : List Env → List Conn → Type 0
Owns es cs = All (Registers cs) es × All (OwnerLives es) cs

pub OwnerLives-All :
    (es es' : List Env) (cs : List Conn)
    → ((i : ℕ) → is_some (find_env i es) ≡ true → is_some (find_env i es') ≡ true)
    → All (OwnerLives es) cs
    → All (OwnerLives es') cs
OwnerLives-All es es' [] f a = tt
OwnerLives-All es es' (c ∷ cs) f a = (f c.env_ref a.0, OwnerLives-All es es' cs f a.1)

-- A fresh address is registered nowhere, and owns nothing.
conns_of-stranger :
    (i : ℕ) (es : List Env) (cs : List Conn)
    → find_env i es ≡ none
    → All (OwnerLives es) cs
    → conns_of i cs ≡ []
unfolding conns_of
conns_of-stranger i es [] h a = refl
conns_of-stranger i es (c ∷ cs) h a = elim (Bool-cases (c.env_ref == i)) [
  | inl hit ↦ absurd (ground (arith, a.0))
  | inr miss ↦ rw miss (conns_of-stranger i es cs h a.1)
]

pub push_env-Owns :
    (i : ℕ) (es : List Env) (cs : List Conn)
    → find_env i es ≡ none
    → Owns es cs
    → Owns (es ++ new_env i ∷ []) cs
push_env-Owns i es cs h (r, o) = (
  All-append (Registers cs) es (new_env i ∷ []) r (sym (conns_of-stranger i es cs h o), tt),
  OwnerLives-All es (es ++ new_env i ∷ []) cs (λ j. find_env-append j es (new_env i)) o,
)

register_one :
    (n i : ℕ) (cs : List Conn) (es : List Env)
    → All (Registers cs) es
    → All (Registers (cs ++ new_conn n i ∷ [])) (set_env i (add_new_active_connection n) es)
unfolding set_env
register_one n i cs [] a = tt
register_one n i cs (e ∷ es) a = elim (Bool-cases (e.env_id == i)) [
  | inl hit ↦
      rw hit
        (ground (arith, conns_of-append e.env_id cs (new_conn n i)), register_one n i cs es a.1)
  | inr miss ↦ rw miss (
    ground (arith, append-nil (conns_of e.env_id cs), conns_of-append e.env_id cs (new_conn n i)),
    register_one n i cs es a.1,
  )
]

pub lives-set_env :
    (i j : ℕ) (f : Env → Env) (es : List Env)
    → ((e : Env) → (f e).env_id ≡ e.env_id)
    → is_some (find_env j es) ≡ true
    → is_some (find_env j (set_env i f es)) ≡ true
lives-set_env i j f es keep h = ground (arith, find_env-set_env i j f es keep)

pub new_connection-Owns :
    (n i : ℕ) (es : List Env) (cs : List Conn) (e : Env)
    → find_env i es ≡ some e
    → Owns es cs
    → Owns (set_env i (add_new_active_connection n) es) (cs ++ new_conn n i ∷ [])
new_connection-Owns n i es cs e h (r, o) = (
  register_one n i cs es r,
  All-append (OwnerLives (set_env i (add_new_active_connection n) es)) cs (new_conn n i ∷ [])
      (OwnerLives-All es _ cs (λ j. lives-set_env i j (add_new_active_connection n) es (λ x. refl))
        o)
      (lives-set_env i i (add_new_active_connection n) es (λ x. refl) (rw h), tt),
)

erase_absent : (i : ℕ) (xs : List ℕ) → contains i xs ≡ false → erase i xs ≡ xs
unfolding erase contains
erase_absent i [] h = refl
erase_absent i (x ∷ xs) h = ground (arith, erase_absent i xs)

pub remove_active_connection-erase :
    (i : ℕ) (e : Env)
    → ((remove_active_connection i e).0.connections ≡ erase i e.connections)
      × ((remove_active_connection i e).0.env_id ≡ e.env_id)
unfolding remove_active_connection
remove_active_connection-erase i e = ground (arith, erase_absent i e.connections)

unregister_one :
    (i : ℕ) (cs : List Conn) (c : Conn) (es : List Env)
    → find_conn i cs ≡ some c
    → All (Registers cs) es
    → All
        (Registers (delete_conn i cs))
        (set_env c.env_ref (λ e'. (remove_active_connection i e').0) es)
unfolding set_env
unregister_one i cs c [] h a = tt
unregister_one i cs c (e ∷ es) h a = (
  ground (arith, remove_active_connection-erase i e, conns_of-delete_conn e.env_id i cs c h),
  unregister_one i cs c es h a.1,
)

pub free_connection-Owns :
    (i : ℕ) (es : List Env) (cs : List Conn) (c : Conn)
    → find_conn i cs ≡ some c
    → Owns es cs
    → Owns (set_env c.env_ref (λ e'. (remove_active_connection i e').0) es) (delete_conn i cs)
free_connection-Owns i es cs c h (r, o) = (
  unregister_one i cs c es h r,
  All-delete_conn _ i cs (
      OwnerLives-All es _ cs
        (λ j. lives-set_env c.env_ref j _ es (λ e. (remove_active_connection-erase i e).1)) o),
)

without_owner :
    (i : ℕ) (es : List Env) (cs : List Conn)
    → All (λ c. c.env_ref ≢ i) cs
    → All (OwnerLives es) cs
    → All (OwnerLives (delete_env i es)) cs
without_owner i es [] f a = tt
without_owner i es (c ∷ cs) f a =
    (rw (find_env-delete_env i c.env_ref es (λ e. f.0 (sym e))) a.0, without_owner i es cs f.1 a.1)

pub free_environment-Owns :
    (i : ℕ) (es : List Env) (cs : List Conn) (e : Env)
    → find_env i es ≡ some e
    → e.connections ≡ []
    → Owns es cs
    → Owns (delete_env i es) cs
free_environment-Owns i es cs e h k (r, o) =
    (All-delete_env (Registers cs) i es r, without_owner i es cs (conns_of-nil i cs unregistered) o)
  where
    unregistered : conns_of i cs ≡ []
    unregistered =
        ap (λ j. conns_of j cs) (sym (find_env-id i es e h))
        ∙ sym (All-find_env (Registers cs) i es e r h)
        ∙ k

-- Updates that keep the address and the owner keep who owns what.
pub set_conn-Owns :
    (i : ℕ) (f : Conn → Conn) (es : List Env) (cs : List Conn)
    → ((c : Conn) → ((f c).conn_id ≡ c.conn_id) × ((f c).env_ref ≡ c.env_ref))
    → Owns es cs
    → Owns es (set_conn i f cs)
unfolding set_conn
set_conn-Owns i f es cs keep (r, o) = (registers es r, owners cs o)
  where
    registers : (es : List Env) → All (Registers cs) es → All (Registers (set_conn i f cs)) es
    registers [] a = tt
    registers (e ∷ es) a = (a.0 ∙ sym (conns_of-set_conn e.env_id i f cs keep), registers es a.1)

    owners : (cs : List Conn) → All (OwnerLives es) cs → All (OwnerLives es) (set_conn i f cs)
    owners [] a = tt
    owners (c ∷ cs) a = (ground (arith, keep c, a.0), owners cs a.1)

pub set_env-Owns :
    (i : ℕ) (f : Env → Env) (es : List Env) (cs : List Conn)
    → ((e : Env) → ((f e).env_id ≡ e.env_id) × ((f e).connections ≡ e.connections))
    → Owns es cs
    → Owns (set_env i f es) cs
unfolding set_env
set_env-Owns i f es cs keep (r, o) =
    (registers es r, OwnerLives-All es _ cs (λ j. lives-set_env i j f es (λ e. (keep e).0)) o)
  where
    registers : (es : List Env) → All (Registers cs) es → All (Registers cs) (set_env i f es)
    registers [] a = tt
    registers (e ∷ es) a = (ground (arith, keep e, a.0), registers es a.1)
