-- ===== src/Handles/Reach.antt =====
-- What holds of the handles after every history of calls
-- (SQLAllocHandle, SQLFreeHandle and SQLEndTran of src/driver/cpp/SnappyDriverAPIs.cpp).
use mathlib.Core.Path.{subst}
use snappy_odbc.Common.{
  ℕ, ◌≡◌, refl, sym, ap, ◌∙◌, Bool, true, false, Option, none, some, List, [], ◌∷◌, arith,
  Option-cases, inl, inr, ◌≢◌,
}
use snappy_odbc.Driver.{
  SqlReturn, SqlError, Outcome, HandleType, success, error, function_sequence_error,
}
use snappy_odbc.Handles.{
  Env, Conn, Driver, Server, Completion, find_env, find_conn, new_environment, free_environment,
  new_connection, free_connection, end_tran, release_connection, release_environment, delete_env,
  erase,
}
use snappy_odbc.Handles.Store.{find_env-id, All-find_env, All-find_conn, conns_of}
use snappy_odbc.Handles.Ownership.{Inv, Registers, OwnerLives}
use snappy_odbc.Handles.Preserve.{
  Keeps, initial, initial-Inv, new_environment-Inv, new_connection-Keeps, free_environment-Keeps,
  free_connection-Keeps, end_tran-Keeps,
}

-- One call of the application, with whatever the client library answers, that does not fault.
pub data Step (d : Driver) : Driver → Type 0 where
  alloc_env : (keys : Option SqlError) → Step d (new_environment keys d).0
  alloc_conn :
      (p : Option ℕ) {r : Driver × SqlReturn × Option ℕ} → new_connection p d ≡ some r → Step d r.0
  free_env : (p : Option ℕ) {r : Driver × SqlReturn} → free_environment p d ≡ some r → Step d r.0
  free_conn :
      (p : Option ℕ) (is_open : Bool) (closing : Outcome (Unit {0})) {r : Driver × SqlReturn}
      → free_connection p is_open closing d ≡ some r
      → Step d r.0
  end_transaction :
      (sv : Server) (t : HandleType) (p : Option ℕ) (how : Completion) {r : Driver × SqlReturn}
      → end_tran sv t p how d ≡ some r
      → Step d r.0

pub data Reach (d : Driver) : Driver → Type 0 where
  here : Reach d d
  next : {d' d'' : Driver} → Reach d d' → Step d' d'' → Reach d d''

kept : {A : Type 0} (f : A → Driver) (o : Option A) (r : A) → Keeps f o → o ≡ some r → Inv (f r)
kept f none r k h = absurd (cc)
kept f (some x) r k h = subst (λ y. Inv (f y)) (unwrapped h) k
  where
    unwrapped : some x ≡ some r → x ≡ r
    unwrapped e = cc

Step-Inv : {d d' : Driver} → Step d d' → Inv d → Inv d'
Step-Inv {d} (alloc_env keys) v = new_environment-Inv keys d v
Step-Inv {d} (alloc_conn p {r} h) v = kept (λ x. x.0) _ r (new_connection-Keeps p d v) h
Step-Inv {d} (free_env p {r} h) v = kept (λ x. x.0) _ r (free_environment-Keeps p d v) h
Step-Inv {d} (free_conn p b closing {r} h) v =
    kept (λ x. x.0) _ r (free_connection-Keeps p b closing d v) h
Step-Inv {d} (end_transaction sv t p how {r} h) v =
    kept (λ x. x.0) _ r (end_tran-Keeps sv t p how d v) h

-- After any history of allocations, releases and transaction ends, whatever the native client
-- answers, each live environment registers just the live connections that refer to it, each live
-- connection refers to a live environment, and g_envHandles lists the live environments.
pub Reach-Inv : {d : Driver} → Reach initial d → Inv d
Reach-Inv here = initial-Inv
Reach-Inv (next r s) = Step-Inv s (Reach-Inv r)

owner_found :
    (d : Driver) (i : ℕ) (c : Conn)
    → Inv d
    → find_conn i d.conns ≡ some c
    → (e : Env) × (find_env c.env_ref d.envs ≡ some e)
owner_found d i c v h = elim (Option-cases (find_env c.env_ref d.envs)) [
  | inr owner ↦ owner
  | inl lost ↦ absurd (ground (arith, All-find_conn (OwnerLives d.envs) i d.conns c v.owned h))
]

-- After any history the release of a live connection does not touch freed memory, be the
-- connection open or not and whatever its close does.
pub free_connection_safe :
    {d : Driver}
    → Reach initial d
    → (i : ℕ) (c : Conn) → find_conn i d.conns ≡ some c
    → (is_open : Bool) (closing : Outcome (Unit {0}))
    → free_connection (some i) is_open closing d ≢ none
unfolding free_connection release_connection
free_connection_safe {d} r i c h true closing = rw h (λ e. cc)
free_connection_safe {d} r i c h false closing =
    let (e, owner) = owner_found d i c (Reach-Inv r) h in rw (h, owner) (λ e. cc)

-- After any history the release of a live environment is refused with SQL_ERROR, and changes
-- nothing but the global exception, while some live connection refers to it; where none does, the
-- environment is deleted and unlisted, and the answer is SQL_SUCCESS.
pub free_environment_refusal :
    {d : Driver}
    → Reach initial d
    → (i : ℕ) (e : Env) → find_env i d.envs ≡ some e
    → ((conns_of i d.conns ≢ [])
        → free_environment (some i) d
          ≡ some (record d { global_error = some function_sequence_error }, error))
      × (conns_of i d.conns ≡ []
          → free_environment (some i) d
            ≡ some (
              record d { envs = delete_env i d.envs; env_handles = erase i d.env_handles },
              success,
            ))
unfolding free_environment release_environment
free_environment_refusal {d} r i e h = rw (h) (decide e.connections owned)
  where
    owned : e.connections ≡ conns_of i d.conns
    owned =
        All-find_env (Registers d.conns) i d.envs e (Reach-Inv r).registered h
        ∙ ap (λ j. conns_of j d.conns) (find_env-id i d.envs e h)

    decide :
        (cs : List ℕ)
        → cs ≡ conns_of i d.conns
        → ((conns_of i d.conns ≢ [])
            → some (release_environment i cs d)
              ≡ some (record d { global_error = some function_sequence_error }, error))
          × (conns_of i d.conns ≡ []
              → some (release_environment i cs d)
                ≡ some (
                  record d { envs = delete_env i d.envs; env_handles = erase i d.env_handles },
                  success,
                ))
    decide [] k = (λ n. absurd (n (sym k)), λ z. refl)
    decide (c ∷ cs) k = (λ n. refl, λ z. absurd (cons_ne (k ∙ z)))
      where
        cons_ne : ((c ∷ cs) ≡ []) → ⊥
        cons_ne e = cc
