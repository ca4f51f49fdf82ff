-- ===== src/Output.antt =====
-- Output of a column into a bound buffer: fillOutput of src/driver/cpp/SnappyStatement.cpp. What the
-- getters of the client library's Row give for the column is the record Column; the buffer is the
-- memory of the application from its address on, in bytes or in SQLWCHARs.
pub mod Cases
pub mod Nulls
use snappy_odbc.Common.{
  ℕ, ◌+◌, ◌-◌, ◌/◌, Bool, true, false, ◌&&◌, ◌||◌, not, Option, none, some, List, [], ◌∷◌, ltb, leb,
  ◌==◌, if◌then◌else◌, ◌>>=◌, ℤ, pos, negsuc, ltb_ℤ, leb_ℤ, ◌==ℤ◌, ◌*ℤ◌, ◌+ℤ◌, pos_part, length,
}
use snappy_odbc.Strings.{
  sql_null_data, overwrite, store, Copied, copy_string, copy_converted, sqllen,
}
use snappy_odbc.Types.{CType, SqlType, convert_sql_type_to_c_type}
use snappy_odbc.Driver.{
  SqlReturn, success, success_with_info, error, SqlError, string_truncated, invalid_ctype,
  numeric_truncated, outside_range_for_numeric,
}
use snappy_odbc.Intervals.{Interval, IntervalKind, fill_interval, magnitude, is_wide}
use snappy_odbc.Parameters.Values.{Guid}

-- A real by its bits, and whether it compares equal to 0.
pub record Real : Type 0 where
  pub bits : ℕ
  pub is_zero : Bool

-- getDate, getTime and getTimestamp: whether getEpochTime is not 0, and toDateTime with getNanos.
pub record Calendar : Type 0 where
  pub has_epoch : Bool
  pub tm_year : ℤ
  pub tm_mon : ℕ
  pub tm_mday : ℕ
  pub tm_hour : ℕ
  pub tm_min : ℕ
  pub tm_sec : ℕ
  pub nanos : ℕ

-- getTDecimal, and wholeDigits of its Decimal for sixteen bytes: the bytes and their length.
pub record TDecimal : Type 0 where
  pub signum : ℤ
  pub scale : ℤ
  pub mag : List ℕ
  pub whole_digits : Option (List ℕ × ℕ)

-- The getters for one column; integers by their size in bytes.
pub record Column : Type 0 where
  pub sql_type : SqlType
  pub string_of : Option (List ℕ)
  pub sint_of : ℕ → ℤ
  pub uint_of : ℕ → ℕ
  pub real_of : ℕ → Real
  pub binary_of : Option (List ℕ)
  pub date_of : Calendar
  pub time_of : Calendar
  pub timestamp_of : Calendar
  pub decimal_of : Option TDecimal
  pub guid_of : Option Guid
  pub is_null : Bool

-- What is stored through the pointer to the value.
pub data Stored : Type 0 where
  untouched : Stored
  buffer wide_buffer : List ℕ → Stored
  sint : ℕ → ℤ → Stored
  uint : ℕ → ℕ → Stored
  real : ℕ → ℕ → Stored
  zeroed : ℕ → Stored
  date_struct : ℤ → ℕ → ℕ → Stored
  time_struct : ℕ → ℕ → ℕ → Stored
  timestamp_struct : ℤ → ℕ → ℕ → ℕ → ℕ → ℕ → ℕ → Stored
  numeric_struct : ℕ → ℤ → ℤ → List ℕ → Stored
  interval_struct : Interval → Stored
  guid_struct : Guid → Stored

-- The outcome: what was stored, the length or indicator (stored where a pointer is given), the
-- code and the exception that was set.
pub record Filled : Type 0 where
  pub stored : Stored
  pub indicator : ℤ
  pub code : SqlReturn
  pub raised : Option SqlError

abbrev pub filled : Stored → ℤ → Filled
filled x n = record { stored = x; indicator = n; code = success; raised = none }

-- The buffer: its declared size in bytes, its memory, and the structure that is there.
pub record Target : Type 0 where
  pub value_size : ℤ
  pub memory : List ℕ
  pub wide_memory : List ℕ
  pub interval : Interval

-- `v == 0 && isNull` is SQL_NULL_DATA, else the size.
abbrev pub or_null : Column → Bool → ℕ → ℤ
or_null c zero size = if zero && c.is_null then sql_null_data else pos size

unfoldable pub signed_number : Column → ℕ → ℕ → Filled
signed_number c size reported =
    filled (sint size (c.sint_of size)) (or_null c (c.sint_of size ==ℤ pos 0) reported)

unfoldable pub unsigned_number : Column → ℕ → Filled
unsigned_number c size = filled (uint size (c.uint_of size)) (or_null c (c.uint_of size == 0) size)

unfoldable pub floating : Column → ℕ → Filled
floating c size = filled (real size (c.real_of size).bits) (or_null c (c.real_of size).is_zero size)

-- SQL_C_CHAR; the length is that of the whole text. A text that was cut is an exception.
unfoldable pub cut_text : ℤ → Bool → Stored → ℤ → Filled
cut_text size truncated x n =
    if truncated
    then record {
      stored = x;
      indicator = n;
      code = success_with_info;
      raised = some (string_truncated size);
    }
    else filled x n

unfoldable pub narrow_string : Column → Target → Option Filled
narrow_string c t = elim c.string_of [
  | some s ↦ do
    r ← copy_string (some s) (pos (length s)) t.memory t.value_size
    some (cut_text t.value_size r.truncated (buffer r.out) r.total_len)
  | none ↦
      if ltb_ℤ (pos 0) t.value_size
      then (store 0 0 t.memory >>= (λ out. some (filled (buffer out) sql_null_data)))
      else some (filled untouched sql_null_data)
]

-- `valueSize >> 1`
abbrev pub half : ℤ → ℤ
half (pos n) = pos (n / 2)
half (negsuc n) = negsuc (n / 2)

-- SQL_C_WCHAR; the length is in bytes. The conversion of the text is the client library's.
unfoldable pub wide_string : (List ℕ → ℤ → List ℕ) → Column → Target → Option Filled
wide_string convert c t = elim c.string_of [
  | some s ↦ do
    r ← copy_converted convert (some s) (pos (length s)) t.wide_memory (half t.value_size)
    some (cut_text t.value_size r.truncated (wide_buffer r.out) (r.total_len *ℤ pos 2))
  | none ↦
      if ltb_ℤ (pos 0) t.value_size
      then (store 0 0 t.wide_memory >>= (λ out. some (filled (wide_buffer out) sql_null_data)))
      else some (filled untouched sql_null_data)
]

-- SQL_C_BINARY: as many bytes as there is room for.
unfoldable pub binary : Column → Target → Option Filled
binary c t = elim c.binary_of [
  | none ↦ some (filled untouched sql_null_data)
  | some bytes ↦
      let n =
        if ltb_ℤ t.value_size (pos 0) || leb (length bytes) (pos_part t.value_size)
        then length bytes
        else pos_part t.value_size in
      overwrite n bytes t.memory >>= (λ out. some (filled (buffer out) (pos n)))
]
