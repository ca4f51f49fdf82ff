-- ===== src/Handles.antt =====
-- Environments and connections as handles: allocation, registration and release, and SQLEndTran.
-- src/driver/cpp/SnappyEnvironment.cpp, SnappyConnection.cpp and SnappyDriverAPIs.cpp. The heap of live
-- SnappyEnvironment and SnappyConnection objects is explicit: a pointer is a number, and the use of
-- a pointer to no live object is the fault `none`. Locks are taken to succeed.
pub mod Store
pub mod Ownership
pub mod Transactions
pub mod Preserve
pub mod Reach
use snappy_odbc.Common.{
  ℕ, suc, ◌+◌, Bool, true, false, Option, none, some, List, [], ◌∷◌, ◌++◌, ◌==◌, if◌then◌else◌,
  ◌>>=◌, is_some,
}
use snappy_odbc.Driver.{
  SqlReturn, success, success_with_info, error, invalid_handle, no_data, need_data, HandleType,
  SqlError, null_handle, function_sequence_error, invalid_transaction_operation,
  invalid_handle_type, Outcome, returned, exception_of,
}

pub record Env : Type 0 where
  pub env_id : ℕ
  pub connections : List ℕ
  pub app_is_version2x : Bool
  pub env_error : Option SqlError

pub record Conn : Type 0 where
  pub conn_id : ℕ
  pub env_ref : ℕ
  pub conn_error : Option SqlError

-- `env_handles` is g_envHandles, `next_id` the address of the next object.
pub record Driver : Type 0 where
  pub envs : List Env
  pub conns : List Conn
  pub env_handles : List ℕ
  pub initialized : Bool
  pub global_error : Option SqlError
  pub next_id : ℕ

unfoldable pub find_env : ℕ → List Env → Option Env
find_env i [] = none
find_env i (e ∷ es) = if e.env_id == i then some e else find_env i es

unfoldable pub find_conn : ℕ → List Conn → Option Conn
find_conn i [] = none
find_conn i (c ∷ cs) = if c.conn_id == i then some c else find_conn i cs

unfoldable pub set_env : ℕ → (Env → Env) → List Env → List Env
set_env i f [] = []
set_env i f (e ∷ es) = (if e.env_id == i then f e else e) ∷ set_env i f es

unfoldable pub set_conn : ℕ → (Conn → Conn) → List Conn → List Conn
set_conn i f [] = []
set_conn i f (c ∷ cs) = (if c.conn_id == i then f c else c) ∷ set_conn i f cs

-- delete
unfoldable pub delete_env : ℕ → List Env → List Env
delete_env i [] = []
delete_env i (e ∷ es) = if e.env_id == i then es else e ∷ delete_env i es

unfoldable pub delete_conn : ℕ → List Conn → List Conn
delete_conn i [] = []
delete_conn i (c ∷ cs) = if c.conn_id == i then cs else c ∷ delete_conn i cs

-- The loops that look an element up in a vector and erase it.
unfoldable pub erase : ℕ → List ℕ → List ℕ
erase i [] = []
erase i (j ∷ js) = if i == j then js else j ∷ erase i js

unfoldable pub contains : ℕ → List ℕ → Bool
contains i [] = false
contains i (j ∷ js) = if i == j then true else contains i js

-- `keys` is what OdbcIniKeys::init throws, if anything: it is reported as the global exception.
unfoldable pub global_initialize : Option SqlError → Driver → Driver × SqlReturn
global_initialize keys d = if d.initialized then (d, success) else elim keys [
  | some e ↦ (record d { global_error = some e }, error)
  | none ↦ (record d { initialized = true }, success)
]

abbrev pub new_env : ℕ → Env
new_env i = record { env_id = i; connections = []; app_is_version2x = false; env_error = none }

push_env : Driver → Driver × SqlReturn × Option ℕ
push_env d = (
  record d {
    envs = d.envs ++ new_env d.next_id ∷ [];
    env_handles = d.env_handles ++ d.next_id ∷ [];
    next_id = suc d.next_id;
  },
  success,
  some d.next_id,
)

-- newEnvironment goes on only if the initialisation succeeded.
after_initialize : SqlReturn → Driver → Driver × SqlReturn × Option ℕ
unfolding push_env
after_initialize success d = push_env d
after_initialize result d = (d, result, none)

unfoldable pub new_environment : Option SqlError → Driver → Driver × SqlReturn × Option ℕ
unfolding global_initialize after_initialize
new_environment keys d = let (d', result) = global_initialize keys d in after_initialize result d'

release_environment : ℕ → List ℕ → Driver → Driver × SqlReturn
release_environment i (c ∷ cs) d = (record d { global_error = some function_sequence_error }, error)
release_environment i [] d =
    (record d { envs = delete_env i d.envs; env_handles = erase i d.env_handles }, success)

unfoldable pub free_environment : Option ℕ → Driver → Option (Driver × SqlReturn)
unfolding release_environment
free_environment none d =
    some (record d { global_error = some (null_handle HandleType.env) }, invalid_handle)
free_environment (some i) d = do e ← find_env i d.envs; some (release_environment i e.connections d)

abbrev pub add_new_active_connection : ℕ → Env → Env
add_new_active_connection c e = record e { connections = e.connections ++ c ∷ [] }

abbrev pub new_conn : ℕ → ℕ → Conn
new_conn i e = record { conn_id = i; env_ref = e; conn_error = none }

unfoldable pub new_connection : Option ℕ → Driver → Option (Driver × SqlReturn × Option ℕ)
new_connection none d =
    some (record d { global_error = some (null_handle HandleType.env) }, invalid_handle, none)
new_connection (some i) d = do
  e ← find_env i d.envs
  some (
    record d {
      conns = d.conns ++ new_conn d.next_id i ∷ [];
      envs = set_env i (add_new_active_connection d.next_id) d.envs;
      next_id = suc d.next_id;
    },
    success,
    some d.next_id,
  )

unfoldable pub remove_active_connection : ℕ → Env → Env × SqlReturn
remove_active_connection c e =
    if contains c e.connections
    then (record e { connections = erase c e.connections }, success)
    else (e, no_data)

-- What is left to do once the connection is unregistered: delete it, and report what its
-- destructor found when it closed the native connection.
delete_connection : ℕ → Outcome (Unit {0}) → Driver → Driver × SqlReturn
delete_connection i closing d =
    let d' = record d { conns = delete_conn i d.conns; global_error = exception_of closing } in
    (d', if is_some (exception_of closing) then error else success)

-- `is_open` is the answer of the native connection, `closing` what its close() does.
release_connection : Conn → Bool → Outcome (Unit {0}) → Driver → Option (Driver × SqlReturn)
unfolding remove_active_connection delete_connection exception_of
release_connection c true closing d = some (
  record d {
    conns =
        set_conn c.conn_id (λ c'. record c' { conn_error = some function_sequence_error }) d.conns;
  },
  error,
)
release_connection c false closing d = do
  e ← find_env c.env_ref d.envs
  some (
      delete_connection c.conn_id closing (record d {
        envs = set_env c.env_ref (λ e'. (remove_active_connection c.conn_id e').0) d.envs;
      }))

unfoldable pub free_connection :
    Option ℕ → Bool → Outcome (Unit {0}) → Driver → Option (Driver × SqlReturn)
unfolding release_connection
free_connection none is_open closing d =
    some (record d { global_error = some (null_handle HandleType.dbc) }, invalid_handle)
free_connection (some i) is_open closing d = do
  c ← find_conn i d.conns
  release_connection c is_open closing d

-- The switch of forEachActiveConnection that joins the result of one more connection.
unfoldable pub join_result : SqlReturn → SqlReturn → SqlReturn
join_result result success = result
join_result result error = error
join_result success success_with_info = success_with_info
join_result result success_with_info = result
join_result error res = error
join_result result res = res

-- The operation is handed each registered connection that is active, in their order.
unfoldable pub for_each_active_connection {ℓ} :
    {S : Type ℓ} → (ℕ → Bool) → (ℕ → S → S × SqlReturn) → List ℕ → SqlReturn → S → S × SqlReturn
for_each_active_connection is_active op [] result s = (s, result)
for_each_active_connection is_active op (c ∷ cs) result s =
    let (s', result') =
      if is_active c
      then (let (s₁, res) = op c s in (s₁, join_result result res))
      else (s, result) in
    for_each_active_connection is_active op cs result' s'

-- commit() and rollback(): `complete` is what the native connection's call does.
unfoldable pub complete_transaction : (ℕ → Outcome (Unit {0})) → ℕ → Driver → Driver × SqlReturn
unfolding exception_of
complete_transaction complete i d =
    let failed = exception_of (complete i) in
    (
      record d {
        conns = set_conn i (λ c. record c { conn_error = failed }) d.conns;
        global_error = none;
      },
      if is_some failed then error else success,
    )

pub data Completion : Type 0 where
  commit rollback : Completion
  bad_completion : ℕ → Completion

-- What commitTransaction and rollbackTransaction of the native connections do.
pub record Server : Type 0 where
  pub commit_outcome : ℕ → Outcome (Unit {0})
  pub rollback_outcome : ℕ → Outcome (Unit {0})
  pub is_active : ℕ → Bool

end_tran_dbc : Server → ℕ → Completion → Driver → Driver × SqlReturn
unfolding complete_transaction
end_tran_dbc sv i commit d = complete_transaction sv.commit_outcome i d
end_tran_dbc sv i rollback d = complete_transaction sv.rollback_outcome i d
end_tran_dbc sv i (bad_completion n) d = (
  record d {
    conns = set_conn i (λ c. record c { conn_error = some invalid_transaction_operation }) d.conns;
  },
  error,
)

end_tran_env : Server → Env → Completion → Driver → Driver × SqlReturn
unfolding complete_transaction for_each_active_connection
end_tran_env sv e commit d =
    for_each_active_connection sv.is_active (complete_transaction sv.commit_outcome) e.connections
      success d
end_tran_env sv e rollback d =
    for_each_active_connection sv.is_active (complete_transaction sv.rollback_outcome) e.connections
      success d
end_tran_env sv e (bad_completion n) d = (
  record d {
    envs =
        set_env e.env_id (λ e'. record e' { env_error = some invalid_transaction_operation })
          d.envs;
  },
  error,
)

-- SQLEndTran; no environment of the driver is shared, so the isShared() branches are not taken.
unfoldable pub end_tran :
    Server → HandleType → Option ℕ → Completion → Driver → Option (Driver × SqlReturn)
unfolding end_tran_dbc end_tran_env
end_tran sv t none how d = some (record d { global_error = some (null_handle t) }, invalid_handle)
end_tran sv HandleType.dbc (some i) how d = do
  c ← find_conn i d.conns
  some (end_tran_dbc sv c.conn_id how d)
end_tran sv HandleType.env (some i) how d = do e ← find_env i d.envs; some (end_tran_env sv e how d)
end_tran sv t (some i) how d = some (
  record d {
    envs = set_env i (λ e. record e { env_error = some invalid_handle_type }) d.envs;
    conns = set_conn i (λ c. record c { conn_error = some invalid_handle_type }) d.conns;
  },
  error,
)
