-- ===== src/Diagnostics.antt =====
-- Diagnostic records of a handle: getExceptionRecord, handleErrorT and handleDiagFieldT of
-- src/driver/cpp/SnappyEnvironment.cpp, for characters of one byte. An SQLException of the client
-- library and what fillRecords makes of it are the record Exceptions; an access out of bounds is
-- the fault `none`. fillRecords is taken to make the same records whenever it is called.
pub mod Records
pub mod Field
pub mod Integers
use snappy_odbc.Common.{
  ℕ, zero, suc, ◌-◌, Bool, true, false, ◌&&◌, ◌||◌, Option, none, some, List, [], ◌∷◌, ltb, ◌==◌,
  if◌then◌else◌, ◌>>=◌, ℤ, pos, negsuc, pos_part, ltb_ℤ, leb_ℤ, ◌-ℤ◌, ◌==ℤ◌, length, get_elem?,
}
use snappy_odbc.Strings.{
  IntType, sqllen, sqlinteger, sqlsmallint, max_ℤ, restrict_length, Copied, copy_string,
}
use snappy_odbc.Driver.{
  SqlReturn, success, success_with_info, error, invalid_handle, no_data, is_succeeded, HandleType,
  env, dbc, stmt, desc, other,
}

-- An SQLException: its state and severity, the records that fillRecords makes for a greatest
-- message length, and how many records one of those has itself.
pub record Exceptions (E : Type 0) : Type 0 where
  pub state_of : E → List ℕ
  pub severity_of : E → ℤ
  pub fill_records : ℤ → E → List (E × List ℕ)
  pub num_records : E → ℕ

-- s_globalError, m_lastError of the handle where one was given, and whether the lock is free.
pub record Errors (E : Type 0) : Type 0 where
  pub global : Option E
  pub given : Bool
  pub last : Option E
  pub lockable : Bool

-- What getExceptionRecord answers: a record and its message, or a code.
pub data FoundRecord (E : Type 0) : Type 0 where
  found : E → List ℕ → FoundRecord E
  refused : SqlReturn → FoundRecord E

-- SQL_MAX_MESSAGE_LENGTH of the ODBC headers.
abbrev pub max_message_length : ℤ
max_message_length = pos 512

abbrev pub is_known : HandleType → Bool
is_known (other n) = false
is_known _ = true

module _ {E : Type 0} (ex : Exceptions E) where
  -- The last part of getExceptionRecord: the record of that number, from 1.
  unfoldable pub record_of : ℤ → ℤ → Bool → Option E → FoundRecord E
  record_of rec max_size lockable none = refused no_data
  record_of rec max_size lockable (some e) =
      if lockable
      then (elim (get_elem? (ex.fill_records max_size e) (pos_part rec - 1)) [
        | none ↦ refused no_data
        | some r ↦ found r.0 r.1
      ])
      else refused error

  -- getExceptionRecord; with the code SQL_NO_DATA, and only then, it stores 0 as the text length.
  unfoldable pub get_exception_record : HandleType → ℤ → ℤ → Errors E → FoundRecord E
  unfolding record_of
  get_exception_record t rec max_size s =
      if leb_ℤ rec (pos 0) then refused error else elim s.global [
        | some e ↦ record_of rec max_size s.lockable (some e)
        | none ↦
            if s.given
            then (if is_known t
                then record_of rec max_size s.lockable s.last
                else refused invalid_handle)
            else refused invalid_handle
      ]

-- The output arguments of SQLGetDiagRec: the state and the text, a buffer each, or none for a null
-- pointer, and the numbers that are stored.
pub record DiagRec : Type 0 where
  pub sql_state : Option (List ℕ)
  pub native_error : Option ℤ
  pub message_text : Option (List ℕ)
  pub text_length : Option ℤ

-- Which of the number pointers are given.
pub record Asked : Type 0 where
  pub wants_native : Bool
  pub wants_length : Bool

abbrev pub buffer_of : Option (List ℕ) → List ℕ
buffer_of none = []
buffer_of (some out) = out

abbrev pub is_given {ℓ} : {A : Type ℓ} → Option A → Bool
is_given none = false
is_given (some a) = true

abbrev pub length_of : List ℕ → ℤ
length_of text = pos (length text)

-- sqlState: five characters and the terminator.
unfoldable pub copy_state : List ℕ → DiagRec → Option DiagRec
copy_state state r = elim r.sql_state [
  | none ↦ some r
  | some out ↦ do
    c ← copy_string (some state) (length_of state) out (pos 6)
    some (record r { sql_state = some c.out })
]

-- The message and its length, for a buffer length that is not negative.
unfoldable pub copy_message : List ℕ → ℤ → Asked → DiagRec → Option (DiagRec × SqlReturn)
copy_message message buffer_length asked r = do
  c ←
      copy_string (some message) (length_of message) (buffer_of r.message_text)
        (if is_given r.message_text then buffer_length else pos 0)
  some (
    record r {
      message_text = if is_given r.message_text then some c.out else none;
      text_length =
          if asked.wants_length
          then some (restrict_length sqlsmallint false c.total_len)
          else r.text_length;
    },
    if c.truncated then success_with_info else success,
  )

abbrev pub store_native : ℤ → Asked → DiagRec → DiagRec
store_native severity asked r =
    if asked.wants_native then record r { native_error = some severity } else r

unfoldable pub store_text : List ℕ → ℤ → Asked → DiagRec → Option (DiagRec × SqlReturn)
store_text message buffer_length asked r =
    if is_given r.message_text || asked.wants_length
    then (if ltb_ℤ buffer_length (pos 0)
        then some (r, error)
        else copy_message message buffer_length asked r)
    else some (r, success)

-- Without a record: the text length, of SQL_NO_DATA.
abbrev pub no_record : Asked → SqlReturn → DiagRec → DiagRec
no_record asked no_data r =
    if asked.wants_length then record r { text_length = some (pos 0) } else r
no_record asked code r = r

module _ {E : Type 0} (ex : Exceptions E) where
  -- handleErrorT, with a textLenFactor of 1.
  unfoldable pub handle_error :
      HandleType → ℤ → ℤ → Asked → Errors E → DiagRec → Option (DiagRec × SqlReturn)
  handle_error t rec buffer_length asked s r =
      elim (get_exception_record ex t rec (max_ℤ max_message_length (buffer_length -ℤ pos 1)) s)
        as (λ _. Option (DiagRec × SqlReturn)) [
          | refused code ↦ some (no_record asked code r, code)
          | found e message ↦ do
            r₁ ← copy_state (ex.state_of e) r
            store_text message buffer_length asked (store_native (ex.severity_of e) asked r₁)
        ]
