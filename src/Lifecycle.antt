-- ===== src/Lifecycle.antt =====
-- The life of a statement: prepare, execute, getMoreResults, closeResultSet, freeStatement and
-- setResultSet of src/driver/cpp/SnappyStatement.cpp, and handleWarnings of SnappyStatement.h. Native
-- prepared statements and result sets are numbers; what a call of the client library does is an
-- Outcome, an argument of the operation, and a null dereference is the fault `none`. Parameters are in
-- the module Parameters.
pub mod Histories
pub mod Again
pub mod Faults
use snappy_odbc.Common.{
  ℕ, Bool, true, false, Option, none, some, is_some, if◌then◌else◌, ◌&&◌, ◌||◌, not,
}
use snappy_odbc.Driver.{
  SqlReturn, success, success_with_info, error, no_data, SqlError, invalid_cursor_state1,
  invalid_cursor_state2, is_succeeded, statement_not_prepared, option_type_out_of_range,
  server_warning, Thrown, Outcome, returned, threw, error_of, Diag, set_exception, clear_last_error,
}

-- `cursor` is the result set that m_cursor was initialised with; `result` says whether m_result
-- is there.
pub record Life : Type 0 where
  pub pstmt : Option ℕ
  pub result_set : Option ℕ
  pub cursor : Option ℕ
  pub result : Bool
  pub diag : Diag

abbrev pub new_life : Life
new_life = record {
  pstmt = none;
  result_set = none;
  cursor = none;
  result = false;
  diag = record { last_error = none; global_error = none };
}

-- A prepared statement or result set that a native call hands out, null where `object` is missing,
-- and its hasWarnings.
pub record Native : Type 0 where
  pub object : Option ℕ
  pub has_warnings : Bool

-- m_cursor.initialize, of the client library: it runs over the result set, or throws and leaves
-- some cursor. The clear of the cursor, isOpen and hasWarnings throw nothing.
pub data Initialize : Type 0 where
  initialized : Initialize
  not_initialized : Option ℕ → Thrown → Initialize

-- m_result->getWarnings, where it is called.
abbrev pub Warnings : Type 0
Warnings = Outcome (Option ℕ)

abbrev pub fail : SqlError → Life → Life × SqlReturn
fail e s = (record s { diag = set_exception e s.diag }, error)

abbrev pub clear : Life → Life
clear s = record s { diag = clear_last_error s.diag }

-- Code inside a try block: a null dereference, or the state with what it returns or throws.
abbrev pub Run {ℓ} : Type ℓ → Type ℓ
Run A = Option (Life × Outcome A)

infixl 5 ◌>>=◌
abbrev pub ◌>>=◌ {ℓ κ} : {A : Type ℓ} {B : Type κ} → Run A → (A → Life → Run B) → Run B
none >>= k = none
some (s, threw t) >>= k = some (s, threw t)
some (s, returned a) >>= k = k a s

-- The catch blocks.
abbrev pub caught : Run SqlReturn → Option (Life × SqlReturn)
caught none = none
caught (some (s, threw t)) = some (fail (error_of t) s)
caught (some (s, returned r)) = some (s, r)

-- setResultSet: the cursor is initialised with the result set, which is held already, or cleared.
unfoldable pub set_result_set : Option ℕ → Initialize → Life → Run (Unit {0})
set_result_set none i s = some (record s { result_set = none; cursor = none }, returned tt)
set_result_set (some r) initialized s =
    some (record s { result_set = some r; cursor = some r }, returned tt)
set_result_set (some r) (not_initialized left t) s =
    some (record s { result_set = some r; cursor = left }, threw t)

abbrev pub warned : Warnings → Life → Run SqlReturn
warned (threw t) s = some (s, threw t)
warned (returned none) s = some (s, returned success)
warned (returned (some w)) s =
    some (record s { diag = set_exception (server_warning w) s.diag }, returned success_with_info)

-- handleWarnings: without a handle, or where it has warnings, it reads those of m_result.
unfoldable pub handle_warnings : Native → Warnings → Life → Run SqlReturn
handle_warnings n w s =
    if is_some n.object && not n.has_warnings
    then some (s, returned success)
    else if s.result
    then warned w s
    else none

unfoldable pub prepare : Outcome Native → Warnings → Life → Option (Life × SqlReturn)
prepare (threw t) w s = some (fail (error_of t) (clear s))
prepare (returned n) w s = caught (handle_warnings n w (record (clear s) { pstmt = n.object }))

-- What goes before the native execution: bindParameters, or executeWithArrayOfParams where
-- m_paramSetSize is above 1. Both are in the module Parameters; here they are what they do to the
-- diagnostics and how they end.
pub data Binding : Type 0 where
  one_set many_sets : (Diag → Diag) → Outcome SqlReturn → Binding

-- The native calls of one execution. m_pstmt->execute gives a result, which is not null, or throws;
-- then come getResultSet, initialize, fillOutParameters and the result's warnings.
pub record Execution : Type 0 where
  pub ran : Outcome (Unit {0})
  pub results : Outcome (Option ℕ)
  pub cursor_set : Initialize
  pub filled : Outcome (Unit {0})
  pub has_warnings : Bool
  pub warnings : Warnings

-- From the native execution on.
unfoldable pub run_prepared : Execution → Life → Run SqlReturn
run_prepared x s = some (s, x.ran) >>= λ _ s.
    some (record s { result = true }, x.results) >>= λ rs s.
    set_result_set rs x.cursor_set s >>= λ _ s. some (s, x.filled) >>= λ _ s.
    handle_warnings (record { object = some 0; has_warnings = x.has_warnings }) x.warnings s

unfoldable pub bind_and_run : Binding → Execution → Life → Run SqlReturn
bind_and_run (many_sets noted o) x s = some (record s { diag = noted s.diag }, o)
bind_and_run (one_set noted o) x s = some (record s { diag = noted s.diag }, o) >>= λ r s.
    if is_succeeded r then run_prepared x s else some (s, returned r)

unfoldable pub execute : Binding → Execution → Life → Option (Life × SqlReturn)
execute b x s =
    if is_some s.result_set
    then some (fail invalid_cursor_state1 (clear s))
    else if is_some s.pstmt
    then caught (bind_and_run b x (record (clear s) { result = false }))
    else some (fail statement_not_prepared (record (clear s) { result = false }))

-- What is answered of the next results; they may be there and not open.
unfoldable pub take_results : Native → Initialize → Bool → Warnings → Life → Run SqlReturn
take_results n i is_open w s = set_result_set n.object i s >>= λ _ s.
    if is_some n.object && is_open then handle_warnings n w s else some (s, returned no_data)

unfoldable pub get_more_results :
    Outcome Native → Initialize → Bool → Warnings → Life → Option (Life × SqlReturn)
get_more_results o i is_open w s =
    if is_some s.pstmt || is_some s.result_set
    then caught (some (clear s, o) >>= λ n s. take_results n i is_open w s)
    else some (clear s, no_data)

unfoldable pub close_result_set : Bool → Outcome (Unit {0}) → Life → Life × SqlReturn
close_result_set if_present closing s =
    if is_some s.result_set
    then elim closing [
      | threw t ↦ fail (error_of t) (clear s)
      | returned u ↦ (record (clear s) { result_set = none; cursor = none }, success)
    ]
    else if if_present
    then (clear s, success)
    else fail invalid_cursor_state2 (clear s)

-- SQL_DROP ends the statement, and is left out.
pub data FreeOption : Type 0 where
  close_cursor unbind reset_params : FreeOption
  other_option : ℕ → FreeOption

unfoldable pub free_statement : FreeOption → Outcome (Unit {0}) → Life → Life × SqlReturn
free_statement close_cursor closing s = (
  record (close_result_set true closing s).0 { result = false },
  (close_result_set true closing s).1,
)
free_statement unbind closing s = (s, success)
free_statement reset_params closing s = (clear s, success)
free_statement (other_option n) closing s = fail option_type_out_of_range s
