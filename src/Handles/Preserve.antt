-- ===== src/Handles/Preserve.antt =====
-- Each operation on handles keeps the ownership invariant
-- (src/driver/cpp/SnappyEnvironment.cpp, SnappyConnection.cpp, SnappyDriverAPIs.cpp).
use snappy_odbc.Common.{
  ℕ, suc, ◌<◌, ◌≡◌, refl, sym, ap, ◌∙◌, Bool, true, false, Option, none, some, List, [], ◌∷◌, ◌++◌,
  map, arith, All, All-append, Bool-cases, Option-cases, inl, inr,
}
use snappy_odbc.Driver.{SqlReturn, SqlError, Outcome, HandleType, success}
use snappy_odbc.Handles.{
  Env, Conn, Driver, Server, Completion, commit, rollback, bad_completion, find_env, find_conn,
  set_env, set_conn, delete_env, erase, new_env, add_new_active_connection,
  remove_active_connection, new_environment, free_environment, new_connection, free_connection,
  global_initialize, push_env, after_initialize, release_connection, release_environment,
  for_each_active_connection, delete_connection, end_tran, end_tran_env, end_tran_dbc,
  complete_transaction,
}
use snappy_odbc.Handles.Store.{find_conn-id, All-delete_env}
use snappy_odbc.Handles.Ownership.{
  Inv, push_env-Owns, new_connection-Owns, free_connection-Owns, free_environment-Owns,
  set_conn-Owns, set_env-Owns, remove_active_connection-erase,
}
use snappy_odbc.Handles.Transactions.{run_all, run_all_active, run_all_idle}

abbrev pub initial : Driver
initial = record {
  envs = [];
  conns = [];
  env_handles = [];
  initialized = false;
  global_error = none;
  next_id = 0;
}

pub initial-Inv : Inv initial
initial-Inv = record { registered = tt; owned = tt; tracked = refl; fresh = tt }

abbrev Fresh : ℕ → List Env → Type 0
Fresh n es = All (λ e. e.env_id < n) es

find_env-Fresh : (n : ℕ) (es : List Env) → Fresh n es → find_env n es ≡ none
unfolding find_env
find_env-Fresh n [] a = refl
find_env-Fresh n (e ∷ es) a = ground (arith, find_env-Fresh n es a.1)

Fresh-suc : (n : ℕ) (es : List Env) → Fresh n es → Fresh (suc n) es
Fresh-suc n [] a = tt
Fresh-suc n (e ∷ es) a = (omega arith, Fresh-suc n es a.1)

Fresh-set_env :
    (n i : ℕ) (f : Env → Env) (es : List Env)
    → ((e : Env) → (f e).env_id ≡ e.env_id)
    → Fresh n es
    → Fresh n (set_env i f es)
unfolding set_env
Fresh-set_env n i f [] keep a = tt
Fresh-set_env n i f (e ∷ es) keep a = (ground (arith, keep e), Fresh-set_env n i f es keep a.1)

ids : List Env → List ℕ
ids = map (λ e. e.env_id)

ids-set_env :
    (i : ℕ) (f : Env → Env) (es : List Env)
    → ((e : Env) → (f e).env_id ≡ e.env_id)
    → ids (set_env i f es) ≡ ids es
unfolding set_env ids
ids-set_env i f [] keep = refl
ids-set_env i f (e ∷ es) keep = ground (arith, keep e, ids-set_env i f es keep)

ids-delete_env : (i : ℕ) (es : List Env) → ids (delete_env i es) ≡ erase i (ids es)
unfolding delete_env ids erase
ids-delete_env i [] = refl
ids-delete_env i (e ∷ es) = ground (arith, ids-delete_env i es)

ids-append : (i : ℕ) (es : List Env) → ids (es ++ new_env i ∷ []) ≡ ids es ++ i ∷ []
unfolding ids
ids-append i [] = refl
ids-append i (e ∷ es) = ground (arith, ids-append i es)

-- The invariant does not read the global exception nor the initialisation flag.
relabel-Inv :
    (g : Option SqlError) (b : Bool) (d : Driver)
    → Inv d
    → Inv (record d { global_error = g; initialized = b })
relabel-Inv g b d v = record {
  registered = v.registered;
  owned = v.owned;
  tracked = v.tracked;
  fresh = v.fresh;
}

global_initialize-Inv :
    (keys : Option SqlError) (d : Driver) → Inv d → Inv (global_initialize keys d).0
unfolding global_initialize
global_initialize-Inv (some e) d v = elim (Bool-cases d.initialized) [
  | inl ready ↦ rw ready (relabel-Inv _ _ d v)
  | inr first ↦ rw first (relabel-Inv _ _ d v)
]
global_initialize-Inv none d v = elim (Bool-cases d.initialized) [
  | inl ready ↦ rw ready (relabel-Inv _ _ d v)
  | inr first ↦ rw first (relabel-Inv _ _ d v)
]

push_env-Inv : (d : Driver) → Inv d → Inv (push_env d).0
unfolding push_env ids
push_env-Inv d v =
    let o =
      push_env-Owns d.next_id d.envs d.conns (find_env-Fresh d.next_id d.envs v.fresh)
        (v.registered, v.owned) in
    record {
      registered = o.0;
      owned = o.1;
      tracked = ap (λ xs. xs ++ d.next_id ∷ []) v.tracked ∙ sym (ids-append d.next_id d.envs);
      fresh =
          All-append (λ e. e.env_id < suc d.next_id) d.envs (new_env d.next_id ∷ [])
            (Fresh-suc d.next_id d.envs v.fresh) (omega arith, tt);
    }

after_initialize-Inv : (r : SqlReturn) (d : Driver) → Inv d → Inv (after_initialize r d).0
unfolding after_initialize
after_initialize-Inv success d v = push_env-Inv d v
after_initialize-Inv _ d v = v

pub new_environment-Inv :
    (keys : Option SqlError) (d : Driver) → Inv d → Inv (new_environment keys d).0
unfolding new_environment
new_environment-Inv keys d v =
    after_initialize-Inv (global_initialize keys d).1 (global_initialize keys d).0
      (global_initialize-Inv keys d v)

-- A step that may fault keeps the invariant wherever it does not.
abbrev pub Keeps {ℓ} : {A : Type ℓ} → (A → Driver) → Option A → Type 0
Keeps state none = Unit {0}
Keeps state (some r) = Inv (state r)

pub new_connection-Keeps :
    (p : Option ℕ) (d : Driver) → Inv d → Keeps (λ r. r.0) (new_connection p d)
unfolding new_connection ids
new_connection-Keeps none d v = relabel-Inv _ _ d v
new_connection-Keeps (some i) d v = elim (Option-cases (find_env i d.envs)) [
  | inl lost ↦ rw lost tt
  | inr (e, found) ↦ rw found (
      let o = new_connection-Owns d.next_id i d.envs d.conns e found (v.registered, v.owned) in
      record {
        registered = o.0;
        owned = o.1;
        tracked =
            v.tracked
            ∙ sym (ids-set_env i (add_new_active_connection d.next_id) d.envs (λ x. refl));
        fresh =
            Fresh-set_env (suc d.next_id) i (add_new_active_connection d.next_id) d.envs (λ x. refl)
              (Fresh-suc d.next_id d.envs v.fresh);
      })
]

release_environment-Inv :
    (i : ℕ) (e : Env) (cs : List ℕ) (d : Driver)
    → find_env i d.envs ≡ some e
    → e.connections ≡ cs
    → Inv d
    → Inv (release_environment i cs d).0
unfolding release_environment ids
release_environment-Inv i e (c ∷ cs) d found k v = relabel-Inv _ _ d v
release_environment-Inv i e [] d found k v =
    let o = free_environment-Owns i d.envs d.conns e found k (v.registered, v.owned) in
    record {
      registered = o.0;
      owned = o.1;
      tracked = ap (erase i) v.tracked ∙ sym (ids-delete_env i d.envs);
      fresh = All-delete_env (λ e. e.env_id < d.next_id) i d.envs v.fresh;
    }

pub free_environment-Keeps :
    (p : Option ℕ) (d : Driver) → Inv d → Keeps (λ r. r.0) (free_environment p d)
unfolding free_environment
free_environment-Keeps none d v = relabel-Inv _ _ d v
free_environment-Keeps (some i) d v = elim (Option-cases (find_env i d.envs)) [
  | inl lost ↦ rw lost tt
  | inr (e, found) ↦ rw found (release_environment-Inv i e e.connections d found refl v)
]

set_conn-Inv :
    (i : ℕ) (f : Conn → Conn) (d : Driver)
    → ((c : Conn) → ((f c).conn_id ≡ c.conn_id) × ((f c).env_ref ≡ c.env_ref))
    → Inv d
    → Inv (record d { conns = set_conn i f d.conns })
set_conn-Inv i f d keep v =
    let o = set_conn-Owns i f d.envs d.conns keep (v.registered, v.owned) in
    record { registered = o.0; owned = o.1; tracked = v.tracked; fresh = v.fresh }

set_env-Inv :
    (i : ℕ) (f : Env → Env) (d : Driver)
    → ((e : Env) → ((f e).env_id ≡ e.env_id) × ((f e).connections ≡ e.connections))
    → Inv d
    → Inv (record d { envs = set_env i f d.envs })
unfolding ids
set_env-Inv i f d keep v =
    let o = set_env-Owns i f d.envs d.conns keep (v.registered, v.owned) in
    let same = λ (e : Env). (keep e).0 in
    record {
      registered = o.0;
      owned = o.1;
      tracked = v.tracked ∙ sym (ids-set_env i f d.envs same);
      fresh = Fresh-set_env d.next_id i f d.envs same v.fresh;
    }

delete_connection-Inv :
    (c : Conn) (closing : Outcome (Unit {0})) (d : Driver)
    → find_conn c.conn_id d.conns ≡ some c
    → Inv d
    → Inv
        (delete_connection c.conn_id closing (record d {
          envs = set_env c.env_ref (λ e'. (remove_active_connection c.conn_id e').0) d.envs;
        })).0
unfolding delete_connection ids
delete_connection-Inv c closing d found v =
    let o = free_connection-Owns c.conn_id d.envs d.conns c found (v.registered, v.owned) in
    let same = λ (e : Env). (remove_active_connection-erase c.conn_id e).1 in
    record {
      registered = o.0;
      owned = o.1;
      tracked = v.tracked ∙ sym (ids-set_env c.env_ref _ d.envs same);
      fresh = Fresh-set_env d.next_id c.env_ref _ d.envs same v.fresh;
    }

release_connection-Keeps :
    (c : Conn) (is_open : Bool) (closing : Outcome (Unit {0})) (d : Driver)
    → find_conn c.conn_id d.conns ≡ some c
    → Inv d
    → Keeps (λ r. r.0) (release_connection c is_open closing d)
unfolding release_connection
release_connection-Keeps c true closing d found v =
    set_conn-Inv c.conn_id _ d (λ c'. (refl, refl)) v
release_connection-Keeps c false closing d found v =
    elim (Option-cases (find_env c.env_ref d.envs)) [
      | inl lost ↦ rw lost tt
      | inr (e, owner) ↦ rw owner (delete_connection-Inv c closing d found v)
    ]

pub free_connection-Keeps :
    (p : Option ℕ) (is_open : Bool) (closing : Outcome (Unit {0})) (d : Driver)
    → Inv d
    → Keeps (λ r. r.0) (free_connection p is_open closing d)
unfolding free_connection
free_connection-Keeps none is_open closing d v = relabel-Inv _ _ d v
free_connection-Keeps (some i) is_open closing d v = elim (Option-cases (find_conn i d.conns)) [
  | inl lost ↦ rw lost tt
  | inr (c, found) ↦ rw found (
      release_connection-Keeps c is_open closing d
        (ap (λ j. find_conn j d.conns) (find_conn-id i d.conns c found) ∙ found) v)
]

complete_transaction-Inv :
    (complete : ℕ → Outcome (Unit {0})) (i : ℕ) (d : Driver)
    → Inv d
    → Inv (complete_transaction complete i d).0
unfolding complete_transaction
complete_transaction-Inv complete i d v =
    relabel-Inv none d.initialized _ (set_conn-Inv i _ d (λ c. (refl, refl)) v)

run_all-Inv :
    (is_active : ℕ → Bool) (complete : ℕ → Outcome (Unit {0})) (cs : List ℕ) (r : SqlReturn)
    (d : Driver)
    → Inv d
    → Inv (run_all is_active complete cs r d).0
run_all-Inv is_active complete [] r d v = unfold for_each_active_connection in v
run_all-Inv is_active complete (i ∷ cs) r d v = elim (Bool-cases (is_active i)) [
  | inl active ↦
      rw (run_all_active is_active complete i cs r d active)
        (run_all-Inv is_active complete cs _ _ (complete_transaction-Inv complete i d v))
  | inr idle ↦
      rw (run_all_idle is_active complete i cs r d idle) (run_all-Inv is_active complete cs r d v)
]

end_tran_dbc-Inv :
    (sv : Server) (i : ℕ) (how : Completion) (d : Driver) → Inv d → Inv (end_tran_dbc sv i how d).0
unfolding end_tran_dbc
end_tran_dbc-Inv sv i commit d v = complete_transaction-Inv sv.commit_outcome i d v
end_tran_dbc-Inv sv i rollback d v = complete_transaction-Inv sv.rollback_outcome i d v
end_tran_dbc-Inv sv i (bad_completion n) d v = set_conn-Inv i _ d (λ c. (refl, refl)) v

end_tran_env-Inv :
    (sv : Server) (e : Env) (how : Completion) (d : Driver)
    → Inv d
    → Inv (end_tran_env sv e how d).0
unfolding end_tran_env
end_tran_env-Inv sv e commit d v =
    run_all-Inv sv.is_active sv.commit_outcome e.connections success d v
end_tran_env-Inv sv e rollback d v =
    run_all-Inv sv.is_active sv.rollback_outcome e.connections success d v
end_tran_env-Inv sv e (bad_completion n) d v = set_env-Inv e.env_id _ d (λ x. (refl, refl)) v

pub end_tran-Keeps :
    (sv : Server) (t : HandleType) (p : Option ℕ) (how : Completion) (d : Driver)
    → Inv d
    → Keeps (λ r. r.0) (end_tran sv t p how d)
unfolding end_tran
end_tran-Keeps sv t none how d v = relabel-Inv _ _ d v
end_tran-Keeps sv HandleType.dbc (some i) how d v = elim (Option-cases (find_conn i d.conns)) [
  | inl lost ↦ rw lost tt
  | inr (c, found) ↦ rw found (end_tran_dbc-Inv sv c.conn_id how d v)
]
end_tran-Keeps sv HandleType.env (some i) how d v = elim (Option-cases (find_env i d.envs)) [
  | inl lost ↦ rw lost tt
  | inr (e, found) ↦ rw found (end_tran_env-Inv sv e how d v)
]
end_tran-Keeps sv _ (some i) how d v =
    set_conn-Inv i _ (record d { envs = set_env i _ d.envs }) (λ c. (refl, refl))
      (set_env-Inv i _ d (λ e. (refl, refl)) v)
