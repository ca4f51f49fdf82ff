-- ===== src/Handles/Transactions.antt =====
-- SQLEndTran on an environment (src/driver/cpp/SnappyEnvironment.cpp, forEachActiveConnection).

use snappy_odbc.Common.{
  ℕ, ◌≡◌, refl, Bool, true, false, ◌&&◌, Option, none, some, List, [], ◌∷◌, arith, ◌==◌,
  if◌then◌else◌, ◌⊎◌, Bool-cases, Option-cases, inl, inr, is_some,
}
use snappy_odbc.Driver.{SqlReturn, success, error, HandleType, Outcome, exception_of, SqlError}
use snappy_odbc.Handles.{
  Conn, Env, Driver, Server, Completion, commit, rollback, find_conn, find_env, contains,
  for_each_active_connection, complete_transaction, end_tran, join_result,
}
use snappy_odbc.Handles.Store.{find_conn-set_conn}

abbrev pub with_error : Conn → Option SqlError → Conn
with_error c e = record c { conn_error = e }

module _ (is_active : ℕ → Bool) (complete : ℕ → Outcome (Unit {0})) where
  abbrev pub run_all : List ℕ → SqlReturn → Driver → Driver × SqlReturn
  run_all = for_each_active_connection is_active (complete_transaction complete)

  complete_transaction-conns :
      (i j : ℕ) (d : Driver) (c : Conn)
      → find_conn j d.conns ≡ some c
      → find_conn j (complete_transaction complete i d).0.conns
        ≡ some (with_error c (if j == i then exception_of (complete j) else c.conn_error))
  unfolding complete_transaction
  complete_transaction-conns i j d c h = ground (
    arith,
    find_conn-set_conn i j (λ c. record c { conn_error = exception_of (complete i) }) d.conns
        (λ c. refl),
  )

  pub run_all_active :
      (i : ℕ) (cs : List ℕ) (result : SqlReturn) (d : Driver)
      → is_active i ≡ true
      → run_all (i ∷ cs) result d
        ≡ run_all cs
            (join_result result (complete_transaction complete i d).1)
            (complete_transaction complete i d).0
  unfolding for_each_active_connection
  run_all_active i cs result d h = rw h

  pub run_all_idle :
      (i : ℕ) (cs : List ℕ) (result : SqlReturn) (d : Driver)
      → is_active i ≡ false
      → run_all (i ∷ cs) result d ≡ run_all cs result d
  unfolding for_each_active_connection
  run_all_idle i cs result d h = rw h

  run_all-conns :
      (cs : List ℕ) (result : SqlReturn) (d : Driver) (j : ℕ) (c : Conn)
      → find_conn j d.conns ≡ some c
      → find_conn j (run_all cs result d).0.conns
        ≡ some (
            with_error c
              (if contains j cs && is_active j then exception_of (complete j) else c.conn_error))
  unfolding contains
  run_all-conns [] result d j c h = unfold for_each_active_connection in h
  run_all-conns (i ∷ cs) result d j c h = elim (Bool-cases (is_active i)) [
    | inl active ↦ rw (run_all_active i cs result d active) (
        ground (
          arith,
          active,
          run_all-conns cs (join_result result (complete_transaction complete i d).1)
              (complete_transaction complete i d).0 j _ (complete_transaction-conns i j d c h),
        ))
    | inr idle ↦
        rw (run_all_idle i cs result d idle) (ground (arith, idle, run_all-conns cs result d j c h))
  ]

  -- Every active connection in a list succeeds.
  abbrev pub AllComplete : List ℕ → Type 0
  AllComplete [] = Unit {0}
  AllComplete (c ∷ cs) = (is_active c ≡ true → exception_of (complete c) ≡ none) × AllComplete cs

  pub complete_transaction-result :
      (i : ℕ) (d : Driver)
      → (complete_transaction complete i d).1
        ≡ (if is_some (exception_of (complete i)) then error else success)
  unfolding complete_transaction
  complete_transaction-result i d = refl

  run_all_error : (cs : List ℕ) (d : Driver) → (run_all cs error d).1 ≡ error
  run_all_error [] d = unfold for_each_active_connection in refl
  run_all_error (i ∷ cs) d = elim (Bool-cases (is_active i)) [
    | inl active ↦ rw (run_all_active i cs error d active) (
        ground (
          arith,
          complete_transaction-result i d,
          run_all_error cs (complete_transaction complete i d).0,
          join_error (complete_transaction complete i d).1,
        ))
    | inr idle ↦ rw (run_all_idle i cs error d idle) (run_all_error cs d)
  ]
    where
      join_error : (r : SqlReturn) → join_result error r ≡ error
      join_error r = unfold join_result in ground arith

  join_success :
      (e : SqlError) → join_result success (if is_some (some e) then error else success) ≡ error
  unfolding join_result
  join_success e = refl

  run_all_result :
      (cs : List ℕ) (d : Driver)
      → (((run_all cs success d).1 ≡ success) × AllComplete cs)
        ⊎ (((run_all cs success d).1 ≡ error) × (¬ AllComplete cs))
  unfolding join_result
  run_all_result [] d = inl (unfold for_each_active_connection in (refl, tt))
  run_all_result (i ∷ cs) d = elim (Bool-cases (is_active i)) [
    | inr idle ↦ rw (run_all_idle i cs success d idle) (ground (arith, idle, run_all_result cs d))
    | inl active ↦
        rw (run_all_active i cs success d active, complete_transaction-result i d)
          (elim (Option-cases (exception_of (complete i))) [
            | inl fine ↦ rw fine (
                ground
                  (arith, fine, active, run_all_result cs (complete_transaction complete i d).0))
            | inr (e, failed) ↦ rw failed (
                inr (
                  run_all_error cs (complete_transaction complete i d).0,
                  λ all. ground (arith, failed, active),
                ))
          ])
  ]

-- SQLEndTran with an environment reaches every active connection that is registered in it, also
-- behind one that failed: each of these holds afterwards the exception of its own commit or
-- rollback, or none, every other connection holds what it held, and the answer is SQL_SUCCESS
-- exactly where no active registered connection threw, and SQL_ERROR elsewhere.
pub end_tran_completes_all :
    (sv : Server) (i : ℕ) (e : Env) (d : Driver)
    → find_env i d.envs ≡ some e
    → (how : Completion) → (complete : ℕ → Outcome (Unit {0}))
    → ((how ≡ commit) × (complete ≡ sv.commit_outcome))
      ⊎ ((how ≡ rollback) × (complete ≡ sv.rollback_outcome))
    → (d' : Driver) × (r : SqlReturn) × (end_tran sv HandleType.env (some i) how d ≡ some (d', r))
      × ((j : ℕ) (c : Conn)
          → find_conn j d.conns ≡ some c
          → find_conn j d'.conns
            ≡ some (
                with_error c (
                  if contains j e.connections && sv.is_active j
                  then exception_of (complete j)
                  else c.conn_error)))
      × ((((r ≡ success) × AllComplete sv.is_active complete e.connections))
          ⊎ ((r ≡ error) × (¬ AllComplete sv.is_active complete e.connections)))
unfolding end_tran
end_tran_completes_all sv i e d found how complete way =
    let (d', r) = run_all sv.is_active complete e.connections success d in
    (
      d',
      r,
      ran way,
      run_all-conns sv.is_active complete e.connections success d,
      run_all_result sv.is_active complete e.connections d,
    )
  where
    ran :
        ((how ≡ commit) × (complete ≡ sv.commit_outcome))
          ⊎ ((how ≡ rollback) × (complete ≡ sv.rollback_outcome))
        → end_tran sv HandleType.env (some i) how d
          ≡ some (run_all sv.is_active complete e.connections success d)
    ran (inl (h, k)) = rw (found, h, k)
    ran (inr (h, k)) = rw (found, h, k)
