-- ===== src/Tests/Lives.antt =====
-- Concrete lives of statements.
use snappy_odbc.Common.{◌≡◌, refl, false, true, none, some}
use snappy_odbc.Driver.{success, returned}
use snappy_odbc.Lifecycle.{
  Life, new_life, Binding, one_set, prepare, execute, bind_and_run, run_prepared, set_result_set,
  handle_warnings, close_result_set, close_cursor, free_statement,
}
use snappy_odbc.Lifecycle.Histories.{
  Reach, here, next, call, prepares, executes, IsSynced, Reach-IsSynced,
}
use snappy_odbc.Lifecycle.Again.{plain_execution, free-then-execute}

abbrev prepared_life : Life
prepared_life = record new_life { pstmt = some 1 }

abbrev executed_life : Life
executed_life = record new_life {
  pstmt = some 1;
  result_set = some 2;
  cursor = some 2;
  result = true;
}

abbrev nothing_bound : Binding
nothing_bound = one_set (λ d. d) (returned success)

executed-Reach : Reach executed_life
unfolding call prepare execute bind_and_run run_prepared set_result_set handle_warnings
executed-Reach =
    next {s = prepared_life} {r = success}
      (executes nothing_bound (plain_execution (some 2) (returned none)))
      (next {s = new_life} {r = success}
        (prepares (returned (record { object = some 1; has_warnings = false })) (returned none))
        here refl refl)
      refl refl

Reach-IsSynced_example : IsSynced executed_life
Reach-IsSynced_example = Reach-IsSynced executed_life executed-Reach

closing_succeeds : (free_statement close_cursor (returned tt) executed_life).1 ≡ success
unfolding free_statement close_result_set
closing_succeeds = refl

free-then-execute_example :
    (s' : Life) × (execute nothing_bound
        (plain_execution (some 3) (returned none))
        (free_statement close_cursor (returned tt) executed_life).0
      ≡ some (s', success))
    × (s'.result_set ≡ some 3)
    × (s'.cursor ≡ some 3)
    × (s'.result ≡ true)
    × (s'.pstmt ≡ some 1)
free-then-execute_example =
    free-then-execute executed_life (returned tt) (some 3) (returned none) (λ d. d) success
      closing_succeeds refl refl
