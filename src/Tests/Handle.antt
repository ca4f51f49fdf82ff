-- ===== src/Tests/Handle.antt =====
-- Histories of handles.
use snappy_odbc.Common.{
  ℕ, zero, suc, ◌≡◌, refl, ◌≢◌, true, false, none, some, [], ◌∷◌, ◌&&◌, inl, if◌then◌else◌, ◌⊎◌,
}
use snappy_odbc.Driver.{
  SqlReturn, success, error, HandleType, returned, threw, sql_exception, exception_of,
  function_sequence_error,
}
use snappy_odbc.Handles.{
  Conn, Driver, Server, commit, find_env, find_conn, new_conn, new_environment, new_connection,
  free_environment, free_connection, end_tran, contains, erase, delete_env, set_env,
}
use snappy_odbc.Handles.Store.{conns_of}
use snappy_odbc.Handles.Ownership.{Inv}
use snappy_odbc.Handles.Preserve.{initial}
use snappy_odbc.Handles.Reach.{
  Reach, here, next, alloc_env, alloc_conn, Reach-Inv, free_connection_safe,
  free_environment_refusal,
}
use snappy_odbc.Handles.Transactions.{end_tran_completes_all, with_error, AllComplete}

-- One environment, 0, with the connections 1 and 2.
abbrev two_conns : Driver
two_conns = record {
  envs =
      record { env_id = 0; connections = 1 ∷ 2 ∷ []; app_is_version2x = false; env_error = none }
      ∷ [];
  conns = new_conn 1 0 ∷ new_conn 2 0 ∷ [];
  env_handles = 0 ∷ [];
  initialized = true;
  global_error = none;
  next_id = 3;
}

history : Reach initial two_conns
unfolding new_environment new_connection find_env set_env
history =
    next (next (next here (alloc_env none)) (alloc_conn (some 0) refl)) (alloc_conn (some 0) refl)

Reach-Inv_example : Inv two_conns
Reach-Inv_example = Reach-Inv history

free_connection_safe_example : free_connection (some 2) false (returned tt) two_conns ≢ none
unfolding find_conn
free_connection_safe_example =
    free_connection_safe history 2 (new_conn 2 0) refl false (returned tt)

free_environment_refusal_example :
    ((conns_of 0 two_conns.conns ≢ [])
      → free_environment (some 0) two_conns
        ≡ some (record two_conns { global_error = some function_sequence_error }, error))
    × (conns_of 0 two_conns.conns ≡ []
        → free_environment (some 0) two_conns
          ≡ some (
            record two_conns {
              envs = delete_env 0 two_conns.envs;
              env_handles = erase 0 two_conns.env_handles;
            },
            success,
          ))
unfolding find_env
free_environment_refusal_example = free_environment_refusal history 0 _ refl

-- The commit of connection 1 fails.
abbrev server : Server
server = record {
  commit_outcome = elim [
    | zero ↦ returned tt
    | suc n ↦ elim n [ zero ↦ threw (sql_exception 9) | suc m ↦ returned tt ]
  ];
  rollback_outcome = λ i. returned tt;
  is_active = λ i. true;
}

end_tran_completes_all_example :
    (d' : Driver) × (r : SqlReturn) × (end_tran server HandleType.env (some 0) commit two_conns
      ≡ some (d', r))
    × ((j : ℕ) (c : Conn)
        → find_conn j two_conns.conns ≡ some c
        → find_conn j d'.conns
          ≡ some (
              with_error c (
                if contains j (1 ∷ 2 ∷ []) && true
                then exception_of (server.commit_outcome j)
                else c.conn_error)))
    × (((r ≡ success) × AllComplete server.is_active server.commit_outcome (1 ∷ 2 ∷ []))
        ⊎ ((r ≡ error) × (¬ AllComplete server.is_active server.commit_outcome (1 ∷ 2 ∷ []))))
unfolding find_env
end_tran_completes_all_example =
    end_tran_completes_all server 0
      (record { env_id = 0; connections = 1 ∷ 2 ∷ []; app_is_version2x = false; env_error = none })
      two_conns refl commit server.commit_outcome (inl (refl, refl))
