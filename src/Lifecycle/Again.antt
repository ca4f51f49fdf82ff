-- ===== src/Lifecycle/Again.antt =====
-- Executing again after SQLFreeStmt (src/driver/cpp/SnappyStatement.cpp).
use snappy_odbc.Common.{ℕ, ◌≡◌, refl, true, false, Option, none, some, is_some, arith}
use snappy_odbc.Driver.{SqlReturn, success, is_succeeded, Outcome, returned, threw, Diag}
use snappy_odbc.Lifecycle.{
  Life, initialized, Warnings, clear, set_result_set, handle_warnings, one_set, Execution,
  run_prepared, bind_and_run, execute, close_result_set, close_cursor, free_statement,
}

free_statement-result_set :
    (s : Life) (closing : Outcome (Unit {0}))
    → (free_statement close_cursor closing s).1 ≡ success
    → is_some (free_statement close_cursor closing s).0.result_set ≡ false
unfolding free_statement close_result_set
free_statement-result_set s (threw t) h = ground (arith, h)
free_statement-result_set s (returned u) h = ground (arith, h)

free_statement-pstmt :
    (s : Life) (closing : Outcome (Unit {0}))
    → (free_statement close_cursor closing s).0.pstmt ≡ s.pstmt
unfolding free_statement close_result_set
free_statement-pstmt s (threw t) = ground arith
free_statement-pstmt s (returned u) = ground arith

-- An execution where nothing throws and nothing warns.
abbrev pub plain_execution : Option ℕ → Warnings → Execution
plain_execution rs w = record {
  ran = returned tt;
  results = returned rs;
  cursor_set = initialized;
  filled = returned tt;
  has_warnings = false;
  warnings = w;
}

abbrev pub after_run : Option ℕ → (Diag → Diag) → Life → Life
after_run rs noted s = record s {
  result = true;
  result_set = rs;
  cursor = rs;
  diag = noted (clear s).diag;
}

execute-runs :
    (rs : Option ℕ) (w : Warnings) (noted : Diag → Diag) (code : SqlReturn) (s : Life)
    → is_some s.result_set ≡ false
    → is_some s.pstmt ≡ true
    → is_succeeded code ≡ true
    → execute (one_set noted (returned code)) (plain_execution rs w) s
      ≡ some (after_run rs noted s, success)
unfolding execute bind_and_run run_prepared set_result_set handle_warnings
execute-runs none w noted code s r p k = rw (r, p, k) refl
execute-runs (some n) w noted code s r p k = rw (r, p, k) refl

-- Where SQLFreeStmt with SQL_CLOSE succeeds on a prepared statement, whether a cursor was open or
-- not, the statement can be executed again: if there is one parameter set and binding it answers
-- SQL_SUCCESS or SQL_SUCCESS_WITH_INFO, the native execution, getResultSet, the initialisation of
-- the cursor and fillOutParameters do not throw, and the result has no warnings, then the answer
-- is SQL_SUCCESS, the statement is still the one prepared, and its cursor runs over the new result
-- set, or is cleared where there is none.
pub free-then-execute :
    (s : Life) (closing : Outcome (Unit {0})) (rs : Option ℕ) (w : Warnings) (noted : Diag → Diag)
    (code : SqlReturn)
    → (free_statement close_cursor closing s).1 ≡ success
    → is_some s.pstmt ≡ true
    → is_succeeded code ≡ true
    → (s' : Life) × (execute
          (one_set noted (returned code))
          (plain_execution rs w)
          (free_statement close_cursor closing s).0
        ≡ some (s', success))
      × (s'.result_set ≡ rs)
      × (s'.cursor ≡ rs)
      × (s'.result ≡ true)
      × (s'.pstmt ≡ s.pstmt)
free-then-execute s closing rs w noted code h p k =
    let t = (free_statement close_cursor closing s).0 in
    let kept = free_statement-pstmt s closing in
    (
      after_run rs noted t,
      execute-runs rs w noted code t (free_statement-result_set s closing h) (rw kept p) k,
      refl,
      refl,
      refl,
      kept,
    )
