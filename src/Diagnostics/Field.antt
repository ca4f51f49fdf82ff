-- ===== src/Diagnostics/Field.antt =====
-- SQLGetDiagField: handleDiagFieldT of src/driver/cpp/SnappyEnvironment.cpp for characters of one
-- byte.
use snappy_odbc.Common.{
  ℕ, Bool, true, false, ◌&&◌, Option, none, some, List, [], ◌∷◌, ◌==◌, if◌then◌else◌, ◌>>=◌, ℤ, pos,
  negsuc, ltb_ℤ, leb_ℤ, ◌==ℤ◌,
}
use snappy_odbc.Strings.{
  IntType, sqllen, sqlinteger, sqluinteger, sqlsmallint, restrict_length, copy_string,
}
use snappy_odbc.Driver.{
  SqlReturn, success, success_with_info, error, no_data, is_succeeded, HandleType, dbc, stmt,
}
use snappy_odbc.Diagnostics.{
  Exceptions, Errors, FoundRecord, found, refused, max_message_length, get_exception_record,
  DiagRec, handle_error, buffer_of, is_given, length_of,
}

pub data DiagId : Type 0 where
  cursor_row_count number row_count class_origin subclass_origin column_number : DiagId
  row_number connection_name server_name sqlstate native message_text : DiagId
  other_field : DiagId

-- What the handle knows beside its errors: whether a statement has a result set, the answer of
-- its getUpdateCount, and the name and DSN of the connection.
pub record Facts : Type 0 where
  pub has_result_set : Bool
  pub update_count : SqlReturn × ℤ
  pub connection_text : List ℕ
  pub dsn : List ℕ

-- What the switch over the fields comes to: a value, a code, or the code for a record that is not
-- there; a message is handed to handleErrorT.
pub data Field : Type 0 where
  number_field : ℤ → Field
  text_field : List ℕ → Field
  code_field : SqlReturn → Field
  no_record_field : SqlReturn → Field
  message_field : Field

abbrev pub is_stmt : HandleType → Bool
is_stmt stmt = true
is_stmt _ = false

-- s_odbc30StatePrefixes
abbrev pub odbc30_state_prefixes : List (List ℕ)
odbc30_state_prefixes =
    (b'0' ∷ b'1' ∷ b'S' ∷ [])
    ∷ (b'0' ∷ b'7' ∷ b'S' ∷ [])
    ∷ (b'0' ∷ b'8' ∷ b'S' ∷ [])
    ∷ (b'2' ∷ b'1' ∷ b'S' ∷ [])
    ∷ (b'2' ∷ b'5' ∷ b'S' ∷ [])
    ∷ (b'4' ∷ b'2' ∷ b'S' ∷ [])
    ∷ (b'H' ∷ b'Y' ∷ [])
    ∷ (b'I' ∷ b'M' ∷ [])
    ∷ []

-- `state.find(prefix) == 0`
unfoldable pub has_prefix : List ℕ → List ℕ → Bool
has_prefix [] state = true
has_prefix (c ∷ cs) [] = false
has_prefix (c ∷ cs) (d ∷ ds) = c == d && has_prefix cs ds

unfoldable pub has_any_prefix : List (List ℕ) → List ℕ → Bool
has_any_prefix [] state = false
has_any_prefix (p ∷ ps) state =
    let rest = has_any_prefix ps state in if has_prefix p state then true else rest

abbrev pub origin_of : Bool → List ℕ
origin_of odbc =
    if odbc
    then (b'O' ∷ b'D' ∷ b'B' ∷ b'C' ∷ b' ' ∷ b'3' ∷ b'.' ∷ b'0' ∷ [])
    else (b'I' ∷ b'S' ∷ b'O' ∷ b' ' ∷ b'9' ∷ b'0' ∷ b'7' ∷ b'5' ∷ [])

-- A field that is read off a record.
abbrev pub of_record : {E : Type 0} → (E → Field) → FoundRecord E → Field
of_record f (found e message) = f e
of_record f (refused code) = no_record_field code

-- SQL_COLUMN_NUMBER_UNKNOWN and SQL_ROW_NUMBER_UNKNOWN are -2.
abbrev pub number_unknown : ℤ
number_unknown = negsuc 1

-- The row count of a statement, from getUpdateCount.
abbrev pub row_count_field : SqlReturn × ℤ → Field
row_count_field (code, count) =
    if is_succeeded code
    then (if ltb_ℤ count (pos 0) then code_field error else number_field count)
    else code_field code

-- Where a statement or a connection is asked it is dereferenced, a null handle too.
abbrev pub dereference : Bool → Field → Option Field
dereference given f = if given then some f else none

-- The text of a connection, for a handle that has one.
abbrev pub connection_field : HandleType → Bool → List ℕ → Option Field
connection_field dbc given text = dereference given (text_field text)
connection_field stmt given text = dereference given (text_field text)
connection_field t given text = some (text_field [])

module _ {E : Type 0} (ex : Exceptions E) where
  -- The switch over the fields.
  unfoldable pub diag_value : HandleType → ℤ → Errors E → Facts → DiagId → Option Field
  diag_value t rec s facts cursor_row_count =
      if is_stmt t
      then dereference s.given
          (if facts.has_result_set then number_field (pos 0) else code_field error)
      else some (code_field error)
  diag_value t rec s facts number = some (
      of_record (λ e. number_field (restrict_length sqllen false (pos (ex.num_records e))))
        (get_exception_record ex t (pos 1) max_message_length s))
  diag_value t rec s facts row_count =
      if is_stmt t
      then dereference s.given (row_count_field facts.update_count)
      else some (code_field error)
  diag_value t rec s facts class_origin = some (
      of_record (λ e. text_field (origin_of (has_prefix (b'I' ∷ b'M' ∷ []) (ex.state_of e))))
        (get_exception_record ex t rec max_message_length s))
  diag_value t rec s facts subclass_origin = some (
      of_record (λ e. text_field (origin_of (has_any_prefix odbc30_state_prefixes (ex.state_of e))))
        (get_exception_record ex t rec max_message_length s))
  diag_value t rec s facts column_number =
      some (if is_stmt t then number_field number_unknown else code_field error)
  diag_value t rec s facts row_number =
      some (if is_stmt t then number_field number_unknown else code_field error)
  diag_value t rec s facts connection_name = connection_field t s.given facts.connection_text
  diag_value t rec s facts server_name = connection_field t s.given facts.dsn
  diag_value t rec s facts sqlstate = some (
      of_record (λ e. text_field (ex.state_of e))
        (get_exception_record ex t rec max_message_length s))
  diag_value t rec s facts native = some (
      of_record (λ e. number_field (ex.severity_of e))
        (get_exception_record ex t rec max_message_length s))
  diag_value t rec s facts message_text = some message_field
  diag_value t rec s facts other_field = some (code_field error)

-- What SQLGetDiagField stores: a number with its size in bytes, the text buffer that diagInfo
-- points to, and *stringLength.
pub record DiagField : Type 0 where
  pub stored_number : Option (ℕ × ℤ)
  pub info : Option (List ℕ)
  pub string_length : Option ℤ

abbrev pub store_number : ℕ → ℤ → DiagField → DiagField × SqlReturn
store_number size n r = (record r { stored_number = some (size, n) }, success)

-- A number, by the length of the buffer where that is from 1 to sizeof(SQLLEN)
unfoldable pub store_sized : ℤ → ℤ → DiagField → DiagField × SqlReturn
store_sized len n r =
    if len ==ℤ pos 8
    then store_number 8 n r
    else if len ==ℤ pos 4
    then store_number 4 (restrict_length sqlinteger false n) r
    else if len ==ℤ pos 2
    then store_number 2 (restrict_length sqlsmallint false n) r
    else (r, error)

abbrev pub sqlusmallint : IntType
sqlusmallint = record { lo = pos 0; hi = pos 65535 }

-- and else by the kind of integer, SQL_IS_INTEGER (-6), SQL_IS_UINTEGER (-5), SQL_IS_SMALLINT (-8)
-- or SQL_IS_USMALLINT (-7).
unfoldable pub store_kind : ℤ → ℤ → DiagField → DiagField × SqlReturn
store_kind kind n r =
    if kind ==ℤ negsuc 5
    then store_number 4 (restrict_length sqlinteger false n) r
    else if kind ==ℤ negsuc 4
    then store_number 4 (restrict_length sqluinteger false n) r
    else if kind ==ℤ negsuc 7
    then store_number 2 (restrict_length sqlsmallint false n) r
    else if kind ==ℤ negsuc 6
    then store_number 2 (restrict_length sqlusmallint false n) r
    else (r, error)

unfoldable pub store_integer : ℤ → ℤ → DiagField → DiagField × SqlReturn
store_integer len n r =
    if is_given r.info
    then (if ltb_ℤ (pos 0) len && leb_ℤ len (pos 8)
        then store_sized len n r
        else store_kind (if ltb_ℤ len (pos 0) then len else negsuc 5) n r)
    else (r, error)

unfoldable pub store_string : Bool → List ℕ → ℤ → DiagField → Option (DiagField × SqlReturn)
store_string wants_length text len r = do
  c ← copy_string (some text) (length_of text) (buffer_of r.info) len
  some (
    record r {
      info = if is_given r.info then some c.out else none;
      string_length =
          if wants_length
          then some (restrict_length sqlsmallint false c.total_len)
          else r.string_length;
    },
    if c.truncated then success_with_info else success,
  )

-- Without a value: the length, of SQL_NO_DATA.
abbrev pub no_value : Bool → SqlReturn → DiagField → DiagField
no_value wants_length no_data r =
    if wants_length then record r { string_length = some (pos 0) } else r
no_value wants_length code r = r

abbrev pub field_of_record : DiagField → DiagRec × SqlReturn → DiagField × SqlReturn
field_of_record r (d, code) =
    (record r { info = d.message_text; string_length = d.text_length }, code)

module _ {E : Type 0} (ex : Exceptions E) where
  unfoldable pub handle_diag_field :
      HandleType
      → ℤ
      → DiagId
      → ℤ
      → Bool
      → Errors E
      → Facts
      → DiagField
      → Option (DiagField × SqlReturn)
  handle_diag_field t rec field len wants_length s facts r = do
    value ← diag_value ex t rec s facts field
    elim value as (λ _. Option (DiagField × SqlReturn)) [
      | number_field n ↦ some (store_integer len n r)
      | text_field text ↦ store_string wants_length text len r
      | code_field code ↦ some (r, code)
      | no_record_field code ↦ some (no_value wants_length code r, code)
      | message_field ↦ do
        o ←
            handle_error ex t rec len (record { wants_native = false; wants_length = wants_length })
              s
              (record {
                sql_state = none;
                native_error = none;
                message_text = r.info;
                text_length = r.string_length;
              })
        some (field_of_record r o)
    ]
