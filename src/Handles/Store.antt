-- ===== src/Handles/Store.antt =====
-- Laws of the heap of handles: lookups after updates and deletions.
use mathlib.Core.Option
use snappy_odbc.Common.{
  ℕ, ◌≡◌, refl, true, some, List, [], ◌∷◌, arith, ◌==◌, if◌then◌else◌, is_some, All, Bool-cases,
  inl, inr, ◌≢◌, ◌++◌,
}
use mathlib.Core.Path.{subst}
use snappy_odbc.Handles.{
  erase, Conn, Env, find_conn, set_conn, find_env, set_env, delete_conn, delete_env,
}

pub find_conn-set_conn :
    (i j : ℕ) (f : Conn → Conn) (cs : List Conn)
    → ((c : Conn) → (f c).conn_id ≡ c.conn_id)
    → find_conn j (set_conn i f cs)
      ≡ (if i == j then Option.map f (find_conn j cs) else find_conn j cs)
unfolding find_conn set_conn
find_conn-set_conn i j f [] keep = ground arith
find_conn-set_conn i j f (c ∷ cs) keep = ground (arith, keep c, find_conn-set_conn i j f cs keep)

pub find_env-set_env :
    (i j : ℕ) (f : Env → Env) (es : List Env)
    → ((e : Env) → (f e).env_id ≡ e.env_id)
    → find_env j (set_env i f es) ≡ (if i == j then Option.map f (find_env j es) else find_env j es)
unfolding find_env set_env
find_env-set_env i j f [] keep = ground arith
find_env-set_env i j f (e ∷ es) keep = ground (arith, keep e, find_env-set_env i j f es keep)

pub find_env-id : (i : ℕ) (es : List Env) (e : Env) → find_env i es ≡ some e → e.env_id ≡ i
unfolding find_env
find_env-id i [] e h = cc
find_env-id i (x ∷ es) e h = ground (arith, find_env-id i es e)

pub find_conn-id : (i : ℕ) (cs : List Conn) (c : Conn) → find_conn i cs ≡ some c → c.conn_id ≡ i
unfolding find_conn
find_conn-id i [] c h = cc
find_conn-id i (x ∷ cs) c h = ground (arith, find_conn-id i cs c)

pub find_env-delete_env :
    (i j : ℕ) (es : List Env) → i ≢ j → find_env j (delete_env i es) ≡ find_env j es
unfolding find_env delete_env
find_env-delete_env i j [] h = refl
find_env-delete_env i j (e ∷ es) h = ground (arith, find_env-delete_env i j es h)

pub find_env-append :
    (i : ℕ) (es : List Env) (e : Env)
    → is_some (find_env i es) ≡ true
    → is_some (find_env i (es ++ e ∷ [])) ≡ true
unfolding find_env
find_env-append i [] e h = cc
find_env-append i (x ∷ es) e h = ground (arith, find_env-append i es e)

pub All-find_env :
    (P : Env → Type 0) (i : ℕ) (es : List Env) (e : Env) → All P es → find_env i es ≡ some e → P e
unfolding find_env
All-find_env P i [] e a h = absurd (cc)
All-find_env P i (x ∷ es) e a h = elim (Bool-cases (x.env_id == i)) [
  | inl hit ↦ subst P (ground arith) a.0
  | inr miss ↦ All-find_env P i es e a.1 (ground arith)
]

pub All-find_conn :
    (P : Conn → Type 0) (i : ℕ) (cs : List Conn) (c : Conn)
    → All P cs
    → find_conn i cs ≡ some c
    → P c
unfolding find_conn
All-find_conn P i [] c a h = absurd (cc)
All-find_conn P i (x ∷ cs) c a h = elim (Bool-cases (x.conn_id == i)) [
  | inl hit ↦ subst P (ground arith) a.0
  | inr miss ↦ All-find_conn P i cs c a.1 (ground arith)
]

pub All-delete_env : (P : Env → Type 0) (i : ℕ) (es : List Env) → All P es → All P (delete_env i es)
unfolding delete_env
All-delete_env P i [] a = tt
All-delete_env P i (e ∷ es) a = elim (Bool-cases (e.env_id == i)) [
  | inl hit ↦ rw hit a.1
  | inr miss ↦ rw miss (a.0, All-delete_env P i es a.1)
]

pub All-delete_conn :
    (P : Conn → Type 0) (i : ℕ) (cs : List Conn) → All P cs → All P (delete_conn i cs)
unfolding delete_conn
All-delete_conn P i [] a = tt
All-delete_conn P i (c ∷ cs) a = elim (Bool-cases (c.conn_id == i)) [
  | inl hit ↦ rw hit a.1
  | inr miss ↦ rw miss (a.0, All-delete_conn P i cs a.1)
]

-- The connections that belong to an environment.
unfoldable pub conns_of : ℕ → List Conn → List ℕ
conns_of e [] = []
conns_of e (c ∷ cs) = if c.env_ref == e then c.conn_id ∷ conns_of e cs else conns_of e cs

pub conns_of-append :
    (e : ℕ) (cs : List Conn) (c : Conn)
    → conns_of e (cs ++ c ∷ []) ≡ conns_of e cs ++ (if c.env_ref == e then c.conn_id ∷ [] else [])
unfolding conns_of
conns_of-append e [] c = ground arith
conns_of-append e (x ∷ cs) c = ground (arith, conns_of-append e cs c)

pub conns_of-delete_conn :
    (e i : ℕ) (cs : List Conn) (c : Conn)
    → find_conn i cs ≡ some c
    → conns_of e (delete_conn i cs)
      ≡ (if c.env_ref == e then erase i (conns_of e cs) else conns_of e cs)
unfolding conns_of delete_conn find_conn erase
conns_of-delete_conn e i [] c h = cc
conns_of-delete_conn e i (x ∷ cs) c h = ground (arith, conns_of-delete_conn e i cs c)

pub conns_of-set_conn :
    (e i : ℕ) (f : Conn → Conn) (cs : List Conn)
    → ((c : Conn) → ((f c).conn_id ≡ c.conn_id) × ((f c).env_ref ≡ c.env_ref))
    → conns_of e (set_conn i f cs) ≡ conns_of e cs
unfolding conns_of set_conn
conns_of-set_conn e i f [] keep = refl
conns_of-set_conn e i f (c ∷ cs) keep = ground (arith, keep c, conns_of-set_conn e i f cs keep)

pub conns_of-nil : (e : ℕ) (cs : List Conn) → conns_of e cs ≡ [] → All (λ c. c.env_ref ≢ e) cs
unfolding conns_of
conns_of-nil e [] h = tt
conns_of-nil e (c ∷ cs) h = elim (Bool-cases (c.env_ref == e)) [
  | inl hit ↦ absurd (ground arith)
  | inr miss ↦ (ground arith, conns_of-nil e cs (ground arith))
]
