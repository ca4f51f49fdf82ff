-- ===== src/Driver.antt =====
-- Return codes and diagnostics: src/driver/cpp/DriverBase.h and DriverBase.cpp, SnappyHandleBase.
-- SqlReturn and HandleType stand for the codes of the ODBC headers, SqlError for the SQLException
-- that a message of SQLStateMessage makes (the text is left out), with a constructor for each
-- message that the modelled code uses.
use snappy_odbc.Common.{ℕ, Bool, true, false, Option, none, some, ℤ, List}

pub data SqlReturn : Type 0 where
  success success_with_info error invalid_handle no_data need_data : SqlReturn

-- SQL_SUCCEEDED
abbrev pub is_succeeded : SqlReturn → Bool
is_succeeded success = true
is_succeeded success_with_info = true
is_succeeded _ = false

pub data HandleType : Type 0 where
  env dbc stmt desc : HandleType
  other : ℕ → HandleType

pub data SqlError : Type 0 where
  null_handle : HandleType → SqlError
  not_implemented : SqlError
  feature_not_implemented : SqlError
  invalid_buffer_length : ℤ → SqlError
  function_sequence_error : SqlError
  invalid_cursor_state1 : SqlError
  invalid_cursor_state2 : SqlError
  statement_not_prepared : SqlError
  connection_in_use : SqlError
  no_current_connection : SqlError
  invalid_attribute_value : SqlError
  unknown_attribute : SqlError
  option_value_changed : SqlError
  option_cannot_be_set : SqlError
  attribute_cannot_be_set_now : SqlError
  column_not_found : ℕ → SqlError
  string_truncated : ℤ → SqlError
  invalid_ctype : SqlError
  numeric_truncated : SqlError
  outside_range_for_numeric : SqlError
  invalid_parameter_type : SqlError
  type_attribute_violation : SqlError
  option_type_out_of_range : SqlError
  null_cursor : SqlError
  invalid_handle_type : SqlError
  invalid_transaction_operation : SqlError
  invalid_connection_property : List ℕ → SqlError
  invalid_connection_property_value : SqlError
  invalid_driver_name : SqlError
  out_of_memory : SqlError
  unknown_exception : SqlError
  server_exception : ℕ → SqlError
  server_warning : ℕ → SqlError

-- What a call into the client library throws: an SQLException, a std::bad_alloc or another
-- std::exception.
pub data Thrown : Type 0 where
  sql_exception : ℕ → Thrown
  bad_alloc other_exception : Thrown

pub data Outcome {ℓ} (A : Type ℓ) : Type ℓ where
  returned : A → Outcome A
  threw : Thrown → Outcome A

-- getUnknownException, and the clone that setException keeps of an SQLException.
unfoldable pub error_of : Thrown → SqlError
error_of (sql_exception n) = server_exception n
error_of bad_alloc = out_of_memory
error_of other_exception = unknown_exception

-- What was returned is no exception.
unfoldable pub exception_of {ℓ} : {A : Type ℓ} → Outcome A → Option SqlError
unfolding error_of
exception_of (returned a) = none
exception_of (threw t) = some (error_of t)

-- m_lastError of one handle, and s_globalError.
pub record Diag : Type 0 where
  pub last_error : Option SqlError
  pub global_error : Option SqlError

abbrev pub set_exception : SqlError → Diag → Diag
set_exception e d = record d { last_error = some e }

abbrev pub set_global_exception : SqlError → Diag → Diag
set_global_exception e d = record d { global_error = some e }

abbrev pub clear_last_global_error : Diag → Diag
clear_last_global_error d = record d { global_error = none }

abbrev pub clear_last_error : Diag → Diag
clear_last_error d = record { last_error = none; global_error = none }

-- The three utilities that answer for a missing handle, a missing function and a bad length;
-- the flag says whether a handle was given.
unfoldable pub error_null_handle : HandleType → Bool → Diag → Diag × SqlReturn
error_null_handle t true d = (set_exception (null_handle t) d, invalid_handle)
error_null_handle t false d = (set_global_exception (null_handle t) d, invalid_handle)

unfoldable pub error_not_implemented : Bool → Diag → Diag × SqlReturn
error_not_implemented true d = (set_exception not_implemented d, error)
error_not_implemented false d = (set_global_exception not_implemented d, error)

unfoldable pub error_invalid_buffer_length : ℤ → Diag → Diag × SqlReturn
error_invalid_buffer_length len d = (set_exception (invalid_buffer_length len) d, error)
